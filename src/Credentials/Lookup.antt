-- ===== src/Credentials/Lookup.antt =====
-- What the look-up of a key in a Go map gives, for the secrets that secrets.go and github_app.go read.
use agentic_dev_pipeline.Prelude.{All, Bool-cases, [], ap, inl, inr, refl, ◌++◌, ◌∷◌, ◌≡◌, ◌≢◌, ◌⊎◌}
use agentic_dev_pipeline.Text.{Text, text_eq, text_eq_iff}
use agentic_dev_pipeline.Kube.{StringMap}
use agentic_dev_pipeline.Credentials.{value_at}

-- No binding of the key stands in the map.
abbrev pub LacksKey : Text → StringMap → Type 0
LacksKey key m = All (λ entry. entry.0 ≢ key) m

-- The first binding of the key in the map has that value; a key that has none has the empty value.
abbrev pub HasValue : Text → StringMap → Text → Type 0
HasValue key m v =
    (LacksKey key m × (v ≡ []))
    ⊎ ((before : StringMap) × (after : StringMap) × (m ≡ before ++ ((key, v) ∷ after))
        × LacksKey key before)

HasValue-cons :
    (key k w v : Text) (m : StringMap) → k ≢ key → HasValue key m v → HasValue key ((k, w) ∷ m) v
HasValue-cons key k w v m n (inl (free_of, e)) = inl ((n, free_of), e)
HasValue-cons key k w v m n (inr (before, after, e, free_of)) =
    inr ((k, w) ∷ before, after, ap (λ x. (k, w) ∷ x) e, (n, free_of))

pub value_at-HasValue : (key : Text) (m : StringMap) → HasValue key m (value_at key m)
unfolding value_at
value_at-HasValue key [] = inl (tt, refl)
value_at-HasValue key ((k, w) ∷ m) = elim (Bool-cases (text_eq k key)) [
  | inl e ↦ rw e (inr ([], m, ap (λ x. (x, w) ∷ m) ((text_eq_iff k key).0 e), tt))
  | inr n ↦ rw n (
      HasValue-cons key k w (value_at key m) m (λ same. cc (n, (text_eq_iff k key).1 same))
        (value_at-HasValue key m))
]
