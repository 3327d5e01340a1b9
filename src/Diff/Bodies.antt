-- ===== src/Diff/Bodies.antt =====
-- What `parseApprovedGlobs` of diff_policy.go takes from a body with a line of its own for a glob.
use agentic_dev_pipeline.Prelude.{
  ==_iff, Bool-cases, List, Option, [], ap, append_assoc, ap₂, inl, inr, none, refl, some, sym,
  true, ℕ, ◌++◌, ◌==◌, ◌∙◌, ◌∷◌, ◌≡◌, ◌≢◌,
}
use agentic_dev_pipeline.Text.{Text, codes}
use agentic_dev_pipeline.Text.Rune.{is_ascii}
use agentic_dev_pipeline.Text.Search.{onto_first, split}
use agentic_dev_pipeline.Text.Separators.{Lacks}
use agentic_dev_pipeline.Diff.Approval.{
  append_globs, globs_of_lines, is_separator, line_globs, marker, parse_approved_globs,
}
use agentic_dev_pipeline.Diff.Tokens.{
  All-append, IsClean, Parsed, approval_line, globs_of_lines-ascii, split-ascii,
}
use agentic_dev_pipeline.Boot.Repos.{IsNonempty, split-IsNonempty, split-Lacks, split-word_append}

onto_first-append :
    (c : ℕ) (ws vs : List Text) → IsNonempty ws → onto_first c (ws ++ vs) ≡ onto_first c ws ++ vs
onto_first-append c [] vs h = absurd (h refl)
onto_first-append c (w ∷ ws) vs h = refl

-- The lines in front of a separator are those of the text in front.
split-append : (sep : ℕ) (s t : Text) → split sep (s ++ (sep ∷ t)) ≡ split sep s ++ split sep t
unfolding split
split-append sep [] t = rw ((==_iff sep sep).1 refl) refl
split-append sep (c ∷ s) t = elim (Bool-cases (c == sep)) [
  | inl e ↦ rw (e, split-append sep s t) refl
  | inr e ↦
      rw (e, split-append sep s t)
        (onto_first-append c (split sep s) (split sep t) (split-IsNonempty sep s))
]

split-line :
    (sep : ℕ) (before line after : Text)
    → Lacks sep line
    → split sep (before ++ (sep ∷ (line ++ (sep ∷ after))))
      ≡ split sep before ++ (line ∷ split sep after)
split-line sep before line after h =
    split-append sep before (line ++ (sep ∷ after))
    ∙ ap (λ ws. split sep before ++ ws) (split-word_append sep line after h)

Parsed-some :
    (P : List Text → Type 0) (o : Option (List Text))
    → Parsed P o
    → (globs : List Text) × (o ≡ some globs)
Parsed-some P none h = absurd h
Parsed-some P (some globs) h = (globs, refl)

-- The globs of ASCII lines.
ascii_globs :
    (lower : ℕ → ℕ) (text : Text)
    → is_ascii text ≡ true
    → (globs : List Text) × (globs_of_lines lower (split 10 text) ≡ some globs)
ascii_globs lower text h =
    Parsed-some _ _ (globs_of_lines-ascii lower (split 10 text) (split-ascii 10 text h))

append_globs-nil : (o : Option (List Text)) → o ≡ append_globs (some []) o
append_globs-nil none = refl
append_globs-nil (some globs) = refl

append_globs_assoc :
    (a b c : Option (List Text))
    → append_globs a (append_globs b c) ≡ append_globs (append_globs a b) c
append_globs_assoc none b c = refl
append_globs_assoc (some xs) none c = refl
append_globs_assoc (some xs) (some ys) none = refl
append_globs_assoc (some xs) (some ys) (some zs) = ap some (sym (append_assoc xs ys zs))

globs_of_lines-append :
    (lower : ℕ → ℕ) (lines lines_after : List Text)
    → globs_of_lines lower (lines ++ lines_after)
      ≡ append_globs (globs_of_lines lower lines) (globs_of_lines lower lines_after)
unfolding globs_of_lines
globs_of_lines-append lower [] lines_after = append_globs-nil (globs_of_lines lower lines_after)
globs_of_lines-append lower (line ∷ lines) lines_after =
    ap (append_globs (line_globs lower line)) (globs_of_lines-append lower lines lines_after)
    ∙ append_globs_assoc (line_globs lower line) (globs_of_lines lower lines)
        (globs_of_lines lower lines_after)

-- A glob that may stand in such a line: not empty, of ASCII bytes, none of them a separator or a line
-- feed.
pub record IsPlain (w : Text) : Type 0 where
  pub nonempty : w ≢ []
  pub clean : IsClean is_separator w
  pub ascii : is_ascii w ≡ true
  pub one_line : Lacks 10 w

line_feed-Lacks : (g : Text) → Lacks 10 g → Lacks 10 (marker ++ (b' ' ∷ g))
unfolding split marker codes
line_feed-Lacks g h =
    All-append (λ c. c ≢ 10) marker (b' ' ∷ g) (split-Lacks 10 marker).0 (λ e. cc, h)

-- Between ASCII texts, a line with the marker and a glob adds that glob to those of the texts.
pub parse_approved_globs-line :
    (lower : ℕ → ℕ) (g before after : Text)
    → IsPlain g
    → is_ascii before ≡ true
    → is_ascii after ≡ true
    → (front : List Text) × (back : List Text) × (parse_approved_globs lower
          (before ++ (10 ∷ ((marker ++ (b' ' ∷ g)) ++ (10 ∷ after))))
        ≡ some (front ++ (g ∷ back)))
unfolding parse_approved_globs
parse_approved_globs-line lower g before after plain a b =
    let (front, e) = ascii_globs lower before a in
    let (back, f) = ascii_globs lower after b in
    let line = marker ++ (b' ' ∷ g) in
    (
      front,
      back,
      ap (globs_of_lines lower) (split-line 10 before line after (line_feed-Lacks g plain.one_line))
          ∙ globs_of_lines-append lower (split 10 before) (line ∷ split 10 after)
          ∙ ap₂ append_globs e (
              unfold globs_of_lines in
              ap₂ append_globs (approval_line lower g plain.nonempty plain.clean plain.ascii) f),
    )
