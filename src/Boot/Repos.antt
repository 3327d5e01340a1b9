-- ===== src/Boot/Repos.antt =====
-- The repositories of PIPELINE_REPOS: `strings.Split` at a comma and what undoes it.
use agentic_dev_pipeline.Prelude.{
  ==_iff, All, Bool-cases, List, [], ap, ap₂, false, inl, inr, refl, subst, sym, ℕ, ◌++◌, ◌==◌, ◌↔◌,
  ◌∙◌, ◌∷◌, ◌≡◌, ◌≢◌,
}
use agentic_dev_pipeline.Text.{Text}
use agentic_dev_pipeline.Text.Search.{onto_first, split}
use agentic_dev_pipeline.Text.Separators.{Lacks}

-- `strings.Join(ws, sep)` for a separator of one byte.
unfoldable pub join : ℕ → List Text → Text
join sep [] = []
join sep (w ∷ []) = w
join sep (w ∷ (v ∷ ws)) = w ++ (sep ∷ join sep (v ∷ ws))

abbrev pub IsNonempty : {A : Type 0} → List A → Type 0
IsNonempty xs = xs ≢ []

join-onto_first :
    (sep c : ℕ) (ws : List Text) → IsNonempty ws → join sep (onto_first c ws) ≡ c ∷ join sep ws
unfolding join
join-onto_first sep c [] h = absurd (h refl)
join-onto_first sep c (w ∷ []) h = refl
join-onto_first sep c (w ∷ (v ∷ ws)) h = refl

onto_first-IsNonempty : (c : ℕ) (ws : List Text) → IsNonempty (onto_first c ws)
onto_first-IsNonempty c [] e = cc
onto_first-IsNonempty c (w ∷ ws) e = cc

pub split-IsNonempty : (sep : ℕ) (s : Text) → IsNonempty (split sep s)
unfolding split
split-IsNonempty sep [] = λ e. cc
split-IsNonempty sep (c ∷ s) = elim (Bool-cases (c == sep)) [
  | inl e ↦ rw e (λ h. cc)
  | inr e ↦ rw e (onto_first-IsNonempty c (split sep s))
]

join-cons : (sep : ℕ) (ws : List Text) → IsNonempty ws → join sep ([] ∷ ws) ≡ sep ∷ join sep ws
unfolding join
join-cons sep [] h = absurd (h refl)
join-cons sep (w ∷ ws) h = refl

join-split : (sep : ℕ) (s : Text) → join sep (split sep s) ≡ s
unfolding split join
join-split sep [] = refl
join-split sep (c ∷ s) = elim (Bool-cases (c == sep)) [
  | inl e ↦ rw e (
      join-cons sep (split sep s) (split-IsNonempty sep s)
      ∙ ap₂ ◌∷◌ (sym ((==_iff c sep).0 e)) (join-split sep s))
  | inr e ↦ rw e (
      join-onto_first sep c (split sep s) (split-IsNonempty sep s)
      ∙ ap (λ t. c ∷ t) (join-split sep s))
]

onto_first-Lacks :
    (sep c : ℕ) (ws : List Text) → c ≢ sep → All (Lacks sep) ws → All (Lacks sep) (onto_first c ws)
onto_first-Lacks sep c [] n h = ((n, tt), tt)
onto_first-Lacks sep c (w ∷ ws) n h = ((n, h.0), h.1)

pub split-Lacks : (sep : ℕ) (s : Text) → All (Lacks sep) (split sep s)
unfolding split
split-Lacks sep [] = (tt, tt)
split-Lacks sep (c ∷ s) = elim (Bool-cases (c == sep)) [
  | inl e ↦ rw e (tt, split-Lacks sep s)
  | inr e ↦ rw e (onto_first-Lacks sep c (split sep s) (unequal e) (split-Lacks sep s))
]
  where
    unequal : (c == sep) ≡ false → c ≢ sep
    unequal e h = cc (e, (==_iff c sep).1 h)

-- A text without the separator, in front of a separator or at the end.
split-word : (sep : ℕ) (w : Text) → Lacks sep w → split sep w ≡ w ∷ []
unfolding split
split-word sep [] h = refl
split-word sep (c ∷ w) h = elim (Bool-cases (c == sep)) [
  | inl e ↦ absurd (h.0 ((==_iff c sep).0 e))
  | inr e ↦ rw (e, split-word sep w h.1) refl
]

pub split-word_append :
    (sep : ℕ) (w s : Text) → Lacks sep w → split sep (w ++ (sep ∷ s)) ≡ w ∷ split sep s
unfolding split
split-word_append sep [] s h = rw ((==_iff sep sep).1 refl) refl
split-word_append sep (c ∷ w) s h = elim (Bool-cases (c == sep)) [
  | inl e ↦ absurd (h.0 ((==_iff c sep).0 e))
  | inr e ↦ rw (e, split-word_append sep w s h.1) refl
]

split-join :
    (sep : ℕ) (ws : List Text) → IsNonempty ws → All (Lacks sep) ws → split sep (join sep ws) ≡ ws
unfolding join
split-join sep [] n h = absurd (n refl)
split-join sep (w ∷ []) n h = split-word sep w h.0
split-join sep (w ∷ (v ∷ ws)) n h =
    split-word_append sep w (join sep (v ∷ ws)) h.0
    ∙ ap (λ vs. w ∷ vs) (split-join sep (v ∷ ws) (λ e. cc) h.1)

-- The list is not empty, none of its texts has a comma, and the value is the texts with commas between.
abbrev pub IsSplit : Text → List Text → Type 0
IsSplit value repos = IsNonempty repos × All (Lacks b',') repos × (value ≡ join b',' repos)

-- `strings.Split` at a comma gives the one list that is so.
pub split_iff :
    (value : Text) (repos : List Text) → (split b',' value ≡ repos) ↔ IsSplit value repos
split_iff value repos = (
  λ e. (
    subst IsNonempty e (split-IsNonempty b',' value),
    subst (All (Lacks b',')) e (split-Lacks b',' value),
    sym (join-split b',' value) ∙ ap (join b',') e,
  ),
  λ h. ap (split b',') h.2 ∙ split-join b',' repos h.0 h.1,
)
