-- ===== src/Diff/Panic.antt =====
-- Issue bodies on which `parseApprovedGlobs` of diff_policy.go slices past the end of a line: the
-- position of the marker is found in `strings.ToLower(line)`, which may be longer than the line.
use agentic_dev_pipeline.Prelude.{
  ℕ, zero, suc, ◌+◌, ◌*◌, ◌<◌, true, false, ◌≡◌, refl, ap, ◌∙◌, [], ◌∷◌, ◌++◌, map, none, some,
  arith, All, length, ltb, ◌==◌, &&-true,
}
use agentic_dev_pipeline.Text.{Text}
use agentic_dev_pipeline.Text.Search.{index, split}
use agentic_dev_pipeline.Text.Rune.{is_ascii, lower_byte, to_lower, map_runes}
use agentic_dev_pipeline.Diff.Approval.{
  marker, slice_from, globs_at, line_globs, globs_of_lines, parse_approved_globs,
}

-- `n` times the letter U+023A, two bytes each, and `n` times its lower case U+2C65, three bytes each.
abbrev pub capitals : ℕ → Text
capitals zero = []
capitals (suc n) = 0xC8 ∷ 0xBA ∷ capitals n

abbrev smalls : ℕ → Text
smalls zero = []
smalls (suc n) = 0xE2 ∷ 0xB1 ∷ 0xA5 ∷ smalls n

split-clean : (sep : ℕ) (s : Text) → All (λ c. (c == sep) ≡ false) s → split sep s ≡ s ∷ []
unfolding split
split-clean sep [] h = refl
split-clean sep (c ∷ s) h = rw (h.0, split-clean sep s h.1)

clean-capitals : (n : ℕ) → All (λ c. (c == 10) ≡ false) (capitals n ++ marker)
unfolding marker
clean-capitals zero = ground arith
clean-capitals (suc n) = (refl, (refl, clean-capitals n))

length-capitals : (n : ℕ) → length (capitals n ++ marker) ≡ 2 * n + 20
unfolding marker
length-capitals zero = refl
length-capitals (suc n) = omega (arith, length-capitals n)

index-smalls : (n : ℕ) → index (smalls n ++ marker) marker ≡ some (3 * n)
unfolding index marker
index-smalls zero = refl
index-smalls (suc n) = rw (index-smalls n) (ap some (omega arith))

slice_from-none : (i : ℕ) (line : Text) → length line < i → slice_from i line ≡ none
unfolding slice_from
slice_from-none i line h = ground arith

past_end :
    (n : ℕ) (line : Text) → length line ≡ 2 * n + 20 → 0 < n → globs_at (some (3 * n)) line ≡ none
unfolding globs_at
past_end n line e h =
    rw (slice_from-none (3 * n + length marker) line (unfold marker in omega arith))

module _ (lower : ℕ → ℕ) (ascii : (c : ℕ) → c < 0x80 → lower c ≡ lower_byte c) where
  map_runes-byte :
      (c : ℕ) (s : Text) → c < 0x80 → map_runes lower 0 (c ∷ s) ≡ lower_byte c ∷ map_runes lower 0 s
  unfolding map_runes lower_byte
  map_runes-byte c s h = ground (arith, ascii c h)

  map_runes-ascii : (s : Text) → is_ascii s ≡ true → map_runes lower 0 s ≡ map lower_byte s
  map_runes-ascii [] h = unfold map_runes in refl
  map_runes-ascii (c ∷ s) h =
      let (a, b) = (&&-true (ltb c 0x80) (is_ascii s)).0 (unfold is_ascii in h) in
      map_runes-byte c s (ground arith) ∙ ap (λ t. lower_byte c ∷ t) (map_runes-ascii s b)

  module _ (table : lower 0x23A ≡ 0x2C65) where
    map_runes-capitals :
        (n : ℕ) (s : Text) → map_runes lower 0 (capitals n ++ s) ≡ smalls n ++ map_runes lower 0 s
    unfolding map_runes
    map_runes-capitals zero s = refl
    map_runes-capitals (suc n) s = rw (table, map_runes-capitals n s)

    to_lower-capitals :
        (n : ℕ) → to_lower lower (capitals (suc n) ++ marker) ≡ smalls (suc n) ++ marker
    unfolding to_lower
    to_lower-capitals n =
        map_runes-capitals (suc n) marker
        ∙ ap (λ t. smalls (suc n) ++ t)
            (map_runes-ascii marker (unfold marker is_ascii in refl)
              ∙ unfold marker lower_byte in refl)

    line_globs-capitals : (n : ℕ) → line_globs lower (capitals (suc n) ++ marker) ≡ none
    line_globs-capitals n =
        unfold line_globs in
        (ap (λ t. globs_at (index t marker) (capitals (suc n) ++ marker)) (to_lower-capitals n)
          ∙ ap (λ o. globs_at o (capitals (suc n) ++ marker)) (index-smalls (suc n))
          ∙ past_end (suc n) (capitals (suc n) ++ marker) (length-capitals (suc n)) (omega arith))

    -- With the documented table of `unicode.ToLower` at U+023A and at the ASCII letters, an issue body
    -- of that letter, any number of times but none, and the marker behind it makes the parse panic.
    pub parse_approved_globs-capitals :
        (n : ℕ) → parse_approved_globs lower (capitals (suc n) ++ marker) ≡ none
    unfolding parse_approved_globs
    parse_approved_globs-capitals n =
        ap (globs_of_lines lower)
          (split-clean 10 (capitals (suc n) ++ marker) (clean-capitals (suc n)))
        ∙ unfold globs_of_lines in rw (line_globs-capitals n)
