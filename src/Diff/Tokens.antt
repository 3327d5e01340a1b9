-- ===== src/Diff/Tokens.antt =====
-- What `parseApprovedGlobs` of diff_policy.go takes from an issue body, and when it cannot panic.
use agentic_dev_pipeline.Prelude.{
  ℕ, zero, suc, ◌+◌, ◌≤◌, Bool, true, false, ◌≡◌, ◌≢◌, refl, ap, ◌∙◌, List, [], ◌∷◌, ◌++◌, map,
  Option, none, some, arith, All, length, drop, length-append, drop-length_append, ltb, ◌==◌,
  Bool-cases, inl, inr, &&-true,
}
use native.Mathlib.Nat.{zero-add}
use mathlib.Core.List.{map-append}
use agentic_dev_pipeline.Text.{Text}
use agentic_dev_pipeline.Text.Search.{
  has_prefix, has_prefix-append, index, split, onto_first, flush, fields_from, fields_func,
}
use agentic_dev_pipeline.Text.Rune.{is_ascii, lower_byte, to_lower}
use agentic_dev_pipeline.Diff.Approval.{
  marker, is_separator, slice_from, tokens, globs_at, line_globs, append_globs, globs_of_lines,
  parse_approved_globs,
}

has_prefix-length : (s p : Text) → has_prefix s p ≡ true → length p ≤ length s
unfolding has_prefix
has_prefix-length s [] h = omega arith
has_prefix-length [] (c ∷ p) h = ground arith
has_prefix-length (a ∷ s) (c ∷ p) h = ground (arith, has_prefix-length s p)

-- A position that `index` finds leaves room for what it found.
index-length : (s sub : Text) (i : ℕ) → index s sub ≡ some i → i + length sub ≤ length s
unfolding index
index-length [] sub i h = ground (arith, has_prefix-length [] sub)
index-length (a ∷ s) sub zero h = ground (arith, has_prefix-length (a ∷ s) sub)
index-length (a ∷ s) sub (suc i) h = ground (arith, index-length s sub i)

length-lower : (s : Text) → length (map lower_byte s) ≡ length s
length-lower [] = refl
length-lower (c ∷ s) = ap suc (length-lower s)

to_lower-ascii :
    (lower : ℕ → ℕ) (s : Text) → is_ascii s ≡ true → to_lower lower s ≡ map lower_byte s
unfolding to_lower
to_lower-ascii lower s h = rw h

onto_first-ascii :
    (c : ℕ) (ws : List Text)
    → ltb c 0x80 ≡ true
    → All (λ w. is_ascii w ≡ true) ws
    → All (λ w. is_ascii w ≡ true) (onto_first c ws)
unfolding is_ascii
onto_first-ascii c [] h a = (rw h, tt)
onto_first-ascii c (w ∷ ws) h a = (rw (h, a.0), a.1)

pub split-ascii :
    (sep : ℕ) (s : Text) → is_ascii s ≡ true → All (λ w. is_ascii w ≡ true) (split sep s)
unfolding split is_ascii
split-ascii sep [] h = (refl, tt)
split-ascii sep (c ∷ s) h =
    let (a, b) = (&&-true (ltb c 0x80) (is_ascii s)).0 h in
    elim (Bool-cases (c == sep)) [
      | inl e ↦ rw e (refl, split-ascii sep s b)
      | inr e ↦ rw e (onto_first-ascii c (split sep s) a (split-ascii sep s b))
    ]

-- No byte of a text is a separator.
abbrev pub IsClean : (ℕ → Bool) → Text → Type 0
IsClean f w = All (λ c. f c ≡ false) w

-- A field: not empty, and no separator in it.
abbrev pub IsField : (ℕ → Bool) → Text → Type 0
IsField f w = (w ≢ []) × IsClean f w

flush-IsField :
    (f : ℕ → Bool) (w : Text) (ws : List Text)
    → IsClean f w
    → All (IsField f) ws
    → All (IsField f) (flush w ws)
flush-IsField f [] ws h a = a
flush-IsField f (c ∷ w) ws h a = ((λ e. cc, h), a)

fields_from-IsField :
    (f : ℕ → Bool) (s : Text) → IsClean f (fields_from f s).0 × All (IsField f) (fields_from f s).1
unfolding fields_from
fields_from-IsField f [] = (tt, tt)
fields_from-IsField f (c ∷ s) =
    let (w, ws) = fields_from-IsField f s in
    elim (Bool-cases (f c)) [
      | inl e ↦ rw e (tt, flush-IsField f (fields_from f s).0 (fields_from f s).1 w ws)
      | inr e ↦ rw e ((e, w), ws)
    ]

fields_from-clean : (f : ℕ → Bool) (w : Text) → IsClean f w → fields_from f w ≡ (w, [])
unfolding fields_from
fields_from-clean f [] h = refl
fields_from-clean f (c ∷ w) h = rw (h.0, fields_from-clean f w h.1)

pub All-append {ℓ κ} :
    {A : Type ℓ} (P : A → Type κ) (xs ys : List A) → All P xs → All P ys → All P (xs ++ ys)
All-append P [] ys a b = b
All-append P (x ∷ xs) ys a b = (a.0, All-append P xs ys a.1 b)

fields_func-IsField : (f : ℕ → Bool) (s : Text) → All (IsField f) (fields_func f s)
unfolding fields_func
fields_func-IsField f s =
    let (w, ws) = fields_from-IsField f s in
    flush-IsField f (fields_from f s).0 (fields_from f s).1 w ws

-- The parse succeeded with globs of which `P` holds.
abbrev pub Parsed : (List Text → Type 0) → Option (List Text) → Type 0
Parsed P none = ⊥
Parsed P (some globs) = P globs

abbrev AllFields : Option (List Text) → Type 0
AllFields = Parsed (All (IsField is_separator))

slice_from-some : (i : ℕ) (line : Text) → i ≤ length line → slice_from i line ≡ some (drop i line)
unfolding slice_from
slice_from-some i line h = ground arith

globs_at-AllFields :
    (o : Option ℕ) (line : Text)
    → ((i : ℕ) → o ≡ some i → i + length marker ≤ length line)
    → AllFields (globs_at o line)
unfolding globs_at
globs_at-AllFields none line h = tt
globs_at-AllFields (some idx) line h =
    rw (slice_from-some (idx + length marker) line (h idx refl))
      (fields_func-IsField is_separator (drop (idx + length marker) line))

line_globs-ascii :
    (lower : ℕ → ℕ) (line : Text) → is_ascii line ≡ true → AllFields (line_globs lower line)
unfolding line_globs
line_globs-ascii lower line h =
    let same = ap length (to_lower-ascii lower line h) ∙ length-lower line in
    globs_at-AllFields (index (to_lower lower line) marker) line
      (λ i e. omega (arith, index-length (to_lower lower line) marker i e))

append_globs-AllFields :
    (a b : Option (List Text)) → AllFields a → AllFields b → AllFields (append_globs a b)
append_globs-AllFields none b h k = h
append_globs-AllFields (some xs) none h k = k
append_globs-AllFields (some xs) (some ys) h k = All-append (IsField is_separator) xs ys h k

pub globs_of_lines-ascii :
    (lower : ℕ → ℕ) (lines : List Text)
    → All (λ w. is_ascii w ≡ true) lines
    → AllFields (globs_of_lines lower lines)
unfolding globs_of_lines
globs_of_lines-ascii lower [] h = tt
globs_of_lines-ascii lower (line ∷ lines) h =
    append_globs-AllFields (line_globs lower line) (globs_of_lines lower lines)
      (line_globs-ascii lower line h.0) (globs_of_lines-ascii lower lines h.1)

-- An ASCII issue body never makes the parse panic, and every glob that it yields is not empty and
-- has no space, tab, comma or backquote in it.
pub parse_approved_globs-ascii :
    (lower : ℕ → ℕ) (body : Text)
    → is_ascii body ≡ true
    → Parsed (All (IsField is_separator)) (parse_approved_globs lower body)
unfolding parse_approved_globs
parse_approved_globs-ascii lower body h =
    globs_of_lines-ascii lower (split 10 body) (split-ascii 10 body h)

index-prefix : (s sub : Text) → has_prefix s sub ≡ true → index s sub ≡ some 0
unfolding index
index-prefix [] sub h = rw h
index-prefix (a ∷ s) sub h = rw h

fields_func-space :
    (f : ℕ → Bool) (c : ℕ) (w : Text)
    → f c ≡ true
    → w ≢ []
    → IsClean f w
    → fields_func f (c ∷ w) ≡ w ∷ []
unfolding fields_func
fields_func-space f c [] h n k = absurd (n refl)
fields_func-space f c (d ∷ w) h n k = rw (fields_from-clean f (d ∷ w) k, h)

lower-marker : map lower_byte marker ≡ marker
unfolding marker lower_byte
lower-marker = refl

length-marker : length marker ≡ 20
unfolding marker
length-marker = refl

is_ascii-marker : (s : Text) → is_ascii (marker ++ s) ≡ is_ascii s
unfolding is_ascii marker
is_ascii-marker s = refl

drop-marker : (s : Text) → drop (length marker) (marker ++ s) ≡ s
drop-marker s = drop-length_append marker s

length-le-append : (xs ys : Text) → 0 + length xs ≤ length (xs ++ ys)
length-le-append xs ys = omega (arith, length-append xs ys)

lower-approval :
    (lower : ℕ → ℕ) (g : Text)
    → is_ascii g ≡ true
    → index (to_lower lower (marker ++ (b' ' ∷ g))) marker ≡ some 0
lower-approval lower g ascii =
    ap (λ t. index t marker)
      (to_lower-ascii lower (marker ++ (b' ' ∷ g))
          (is_ascii-marker (b' ' ∷ g) ∙ unfold is_ascii in ascii)
        ∙ map-append lower_byte marker (b' ' ∷ g)
        ∙ ap (λ t. t ++ map lower_byte (b' ' ∷ g)) lower-marker)
    ∙ index-prefix _ marker (has_prefix-append marker (map lower_byte (b' ' ∷ g)))

-- The marker, a space and a glob on one line approve the glob.
pub approval_line :
    (lower : ℕ → ℕ) (g : Text)
    → g ≢ []
    → IsClean is_separator g
    → is_ascii g ≡ true
    → line_globs lower (marker ++ (b' ' ∷ g)) ≡ some (g ∷ [])
unfolding line_globs
approval_line lower g n clean ascii =
    let line = marker ++ (b' ' ∷ g) in
    ap (λ o. globs_at o line) (lower-approval lower g ascii)
    ∙ ap tokens (slice_from-some (0 + length marker) line (length-le-append marker (b' ' ∷ g)))
    ∙ ap (λ t. tokens (some t))
        (ap (λ k. drop k line) (zero-add (length marker)) ∙ drop-marker (b' ' ∷ g))
    ∙ ap some (fields_func-space is_separator b' ' g (unfold is_separator in refl) n clean)
