-- ===== src/Text/Search.antt =====
-- The searching functions of Go's `strings`: `HasPrefix`, `HasSuffix`, `CutPrefix`, `CutSuffix`,
-- `Index`, `Contains`, `Split` at one byte, `SplitN` at one byte into two parts, `FieldsFunc`.
use agentic_dev_pipeline.Prelude.{
  ℕ, suc, ◌-◌, ◌+◌, ◌≡◌, refl, sym, ap, ap₂, ◌∙◌, ◌↔◌, Bool, true, false, ◌&&◌, Option, none, some,
  List, [], ◌∷◌, ◌++◌, arith, ◌==◌, leb, if◌then◌else◌, length, take, drop, &&-true, length-append,
  take-append-drop, drop-length_append,
}
use agentic_dev_pipeline.Text.Base.{Text, text_eq, text_eq_iff, text_eq_refl}

-- `strings.HasPrefix(s, prefix)`
unfoldable pub has_prefix : Text → Text → Bool
has_prefix s [] = true
has_prefix [] (c ∷ p) = false
has_prefix (a ∷ s) (c ∷ p) = a == c && has_prefix s p

-- `strings.HasSuffix(s, suffix)`
unfoldable pub has_suffix : Text → Text → Bool
unfolding text_eq
has_suffix s e = leb (length e) (length s) && text_eq (drop (length s - length e) s) e

-- `strings.CutPrefix` and `strings.CutSuffix`: the rest, or none where `found` is false
unfoldable pub cut_prefix : Text → Text → Option Text
unfolding has_prefix
cut_prefix s p = if has_prefix s p then some (drop (length p) s) else none

unfoldable pub cut_suffix : Text → Text → Option Text
unfolding has_suffix
cut_suffix s e = if has_suffix s e then some (take (length s - length e) s) else none

abbrev pub shift : Option ℕ → Option ℕ
shift none = none
shift (some i) = some (suc i)

-- `strings.Index(s, sub)`, none for -1
unfoldable pub index : Text → Text → Option ℕ
unfolding has_prefix
index [] sub = if has_prefix [] sub then some 0 else none
index (a ∷ s) sub = if has_prefix (a ∷ s) sub then some 0 else shift (index s sub)

-- `strings.Contains(s, sub)`
unfoldable pub contains : Text → Text → Bool
unfolding index
contains s sub = elim (index s sub) [ none ↦ false | some i ↦ true ]

abbrev pub onto_first : ℕ → List Text → List Text
onto_first c [] = (c ∷ []) ∷ []
onto_first c (w ∷ ws) = (c ∷ w) ∷ ws

-- `strings.Split(s, sep)` for a separator of one byte
unfoldable pub split : ℕ → Text → List Text
split sep [] = [] ∷ []
split sep (c ∷ s) = let rest = split sep s in if c == sep then [] ∷ rest else onto_first c rest

abbrev pub cons_first : ℕ → Text × Option Text → Text × Option Text
cons_first c (a, r) = (c ∷ a, r)

-- `strings.SplitN(s, sep, 2)` for a separator of one byte: the first part, and the second if any
unfoldable pub split2 : ℕ → Text → Text × Option Text
split2 sep [] = ([], none)
split2 sep (c ∷ s) = if c == sep then ([], some s) else cons_first c (split2 sep s)

abbrev pub flush : Text → List Text → List Text
flush [] ws = ws
flush (c ∷ w) ws = (c ∷ w) ∷ ws

-- `strings.FieldsFunc(s, f)`: the field that is open at the start of `s`, and the fields after it
unfoldable pub fields_from : (ℕ → Bool) → Text → Text × List Text
fields_from f [] = ([], [])
fields_from f (c ∷ s) =
    let (w, ws) = fields_from f s in if f c then ([], flush w ws) else (c ∷ w, ws)

unfoldable pub fields_func : (ℕ → Bool) → Text → List Text
unfolding fields_from
fields_func f s = let (w, ws) = fields_from f s in flush w ws

pub has_prefix-append : (p s : Text) → has_prefix (p ++ s) p ≡ true
unfolding has_prefix
has_prefix-append [] s = refl
has_prefix-append (c ∷ p) s = ground (arith, has_prefix-append p s)

pub has_prefix→append : (s p : Text) → has_prefix s p ≡ true → s ≡ p ++ drop (length p) s
unfolding has_prefix
has_prefix→append s [] h = refl
has_prefix→append [] (c ∷ p) h = ground arith
has_prefix→append (a ∷ s) (c ∷ p) h =
    let (e, r) = (&&-true (a == c) (has_prefix s p)).0 h in
    ap₂ ◌∷◌ (ground arith) (has_prefix→append s p r)

-- A text has a prefix exactly when it is the prefix and a rest.
pub has_prefix_iff : (s p : Text) → (has_prefix s p ≡ true) ↔ ((r : Text) × (s ≡ p ++ r))
has_prefix_iff s p =
    (λ h. (drop (length p) s, has_prefix→append s p h), λ (r, e). rw e (has_prefix-append p r))

pub has_suffix-append : (r e : Text) → has_suffix (r ++ e) e ≡ true
unfolding has_suffix
has_suffix-append r e = rw (length-append r e) (
    let k : length r + length e - length e ≡ length r = omega arith in
    rw (k, drop-length_append r e, text_eq_refl e) (ground arith))

pub has_suffix→append : (s e : Text) → has_suffix s e ≡ true → s ≡ take (length s - length e) s ++ e
unfolding has_suffix
has_suffix→append s e h =
    let (le, eq) = (&&-true (leb (length e) (length s)) _).0 h in
    sym (take-append-drop (length s - length e) s)
    ∙ ap (λ t. take (length s - length e) s ++ t) ((text_eq_iff _ e).0 eq)

-- A text has a suffix exactly when it is a rest and the suffix.
pub has_suffix_iff : (s e : Text) → (has_suffix s e ≡ true) ↔ ((r : Text) × (s ≡ r ++ e))
has_suffix_iff s e = (
  λ h. (take (length s - length e) s, has_suffix→append s e h),
  λ (r, q). rw q (has_suffix-append r e),
)
