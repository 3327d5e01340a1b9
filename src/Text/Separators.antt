-- ===== src/Text/Separators.antt =====
-- Texts that are put together with a separator are taken apart in one way.
use agentic_dev_pipeline.Prelude.{
  ==_iff, All, Bool-cases, Option, [], ap, ap₂, false, inl, inr, none, refl, some, subst, sym, ℕ,
  ◌++◌, ◌==◌, ◌∷◌, ◌≡◌, ◌≢◌,
}
use agentic_dev_pipeline.Text.{Text}
use agentic_dev_pipeline.Text.Decimal.{is_digit, itoa}
use agentic_dev_pipeline.Text.Itoa.{IsDigits, itoa-IsDigits}
use agentic_dev_pipeline.Text.Search.{cons_first, split2}

-- The byte does not stand in the text.
abbrev pub Lacks : ℕ → Text → Type 0
Lacks sep s = All (λ c. c ≢ sep) s

head_eq : {a b : ℕ} {s t : Text} → a ∷ s ≡ b ∷ t → a ≡ b
head_eq h = cc

tail_eq : {a b : ℕ} {s t : Text} → a ∷ s ≡ b ∷ t → s ≡ t
tail_eq h = cc

pub append-cancel : (p s t : Text) → p ++ s ≡ p ++ t → s ≡ t
append-cancel [] s t h = h
append-cancel (c ∷ p) s t h = append-cancel p s t (tail_eq h)

Lacks-append : (sep : ℕ) (s t : Text) → ¬ Lacks sep (s ++ (sep ∷ t))
Lacks-append sep [] t h = h.0 refl
Lacks-append sep (c ∷ s) t h = Lacks-append sep s t h.1

-- The last separator decides.
pub split_at_last :
    (sep : ℕ) (s t d e : Text)
    → Lacks sep d
    → Lacks sep e
    → s ++ (sep ∷ d) ≡ t ++ (sep ∷ e)
    → (s ≡ t) × (d ≡ e)
split_at_last sep [] [] d e hd he h = (refl, tail_eq h)
split_at_last sep [] (c ∷ t) d e hd he h =
    absurd (Lacks-append sep t e (subst (Lacks sep) (tail_eq h) hd))
split_at_last sep (c ∷ s) [] d e hd he h =
    absurd (Lacks-append sep s d (subst (Lacks sep) (sym (tail_eq h)) he))
split_at_last sep (a ∷ s) (b ∷ t) d e hd he h =
    let (same, rest) = split_at_last sep s t d e hd he (tail_eq h) in
    (ap₂ ◌∷◌ (head_eq h) same, rest)

-- The first separator decides.
pub split_at_first :
    (sep : ℕ) (s t d e : Text)
    → Lacks sep s
    → Lacks sep t
    → s ++ (sep ∷ d) ≡ t ++ (sep ∷ e)
    → (s ≡ t) × (d ≡ e)
split_at_first sep [] [] d e hs ht h = (refl, tail_eq h)
split_at_first sep [] (c ∷ t) d e hs ht h = absurd (ht.0 (sym (head_eq h)))
split_at_first sep (c ∷ s) [] d e hs ht h = absurd (hs.0 (head_eq h))
split_at_first sep (a ∷ s) (b ∷ t) d e hs ht h =
    let (same, rest) = split_at_first sep s t d e hs.1 ht.1 (tail_eq h) in
    (ap₂ ◌∷◌ (head_eq h) same, rest)

pub not-Lacks : (sep : ℕ) (s t u : Text) → Lacks sep u → ¬ (u ≡ s ++ (sep ∷ t))
not-Lacks sep s t u h e = Lacks-append sep s t (subst (Lacks sep) e h)

digits-Lacks : (sep : ℕ) (s : Text) → is_digit sep ≡ false → IsDigits s → Lacks sep s
digits-Lacks sep [] n h = tt
digits-Lacks sep (c ∷ s) n h = (λ e. cc (h.0, ap is_digit e), digits-Lacks sep s n h.1)

pub itoa-Lacks : (sep n : ℕ) → is_digit sep ≡ false → Lacks sep (itoa n)
itoa-Lacks sep n h = digits-Lacks sep (itoa n) h (itoa-IsDigits n)

-- What the two parts of a split text say of it: with a second part, the text is the parts with the
-- separator between them.
abbrev pub Joined : ℕ → Text → Text × Option Text → Type 0
Joined sep s (a, some b) = s ≡ a ++ (sep ∷ b)
Joined sep s (a, none) = s ≡ a

Joined-cons :
    (sep c : ℕ) (s : Text) (p : Text × Option Text)
    → Joined sep s p
    → Joined sep (c ∷ s) (cons_first c p)
Joined-cons sep c s (a, some b) h = ap (λ t. c ∷ t) h
Joined-cons sep c s (a, none) h = ap (λ t. c ∷ t) h

pub split2-Joined : (sep : ℕ) (s : Text) → Joined sep s (split2 sep s)
unfolding split2
split2-Joined sep [] = refl
split2-Joined sep (c ∷ s) = elim (Bool-cases (c == sep)) [
  | inl e ↦ rw e (ap (λ b. b ∷ s) ((==_iff c sep).0 e))
  | inr e ↦ rw e (Joined-cons sep c s (split2 sep s) (split2-Joined sep s))
]
