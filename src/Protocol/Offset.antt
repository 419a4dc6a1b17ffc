-- ===== src/Protocol/Offset.antt =====
-- Where `find_config_offset` finds a configuration block.
use gro_bro.Prelude.{
  ℕ, zero, suc, ◌+◌, ◌-◌, ◌≤◌, ◌<◌, ◌≡◌, refl, sym, subst, ◌⊎◌, inl, inr, true, false, arith, ◌==◌,
  Bool-cases, length,
}
use gro_bro.Config.Tlv.{is_tlv_start, find_from, find_config_offset}
use gro_bro.Bytes.{Bytes}

-- No plausible parameter starts at an offset from `first` to before `last`.
abbrev pub HasNoStart : Bytes → ℕ → ℕ → Type 0
HasNoStart bytes first last = (j : ℕ) → first ≤ j → j < last → is_tlv_start bytes j ≡ false

abbrev pub IsFirstStart : Bytes → ℕ → ℕ → ℕ → Type 0
IsFirstStart bytes first last i =
    (first ≤ i) × (i < last) × (is_tlv_start bytes i ≡ true) × HasNoStart bytes first i

HasNoStart-before :
    (bytes : Bytes) (i last : ℕ)
    → is_tlv_start bytes i ≡ false
    → HasNoStart bytes (i + 1) last
    → HasNoStart bytes i last
HasNoStart-before bytes i last other h j from until = elim (Bool-cases (j == i)) [
  | inl same ↦
      let eq : j ≡ i = ground arith in subst (λ k. is_tlv_start bytes k ≡ false) (sym eq) other
  | inr later ↦ h j (ground arith) until
]

find_from-IsFirstStart :
    (bytes : Bytes) (i count : ℕ)
    → IsFirstStart bytes i (i + count) (find_from bytes i count)
      ⊎ ((find_from bytes i count ≡ 28) × HasNoStart bytes i (i + count))
unfolding find_from
find_from-IsFirstStart bytes i zero = inr (refl, λ j h k. absurd (omega arith))
find_from-IsFirstStart bytes i (suc count) = elim (Bool-cases (is_tlv_start bytes i)) [
  | inl start ↦ rw start (inl (omega arith, omega arith, start, λ j h k. absurd (omega arith)))
  | inr other ↦ rw other (elim (find_from-IsFirstStart bytes (i + 1) count) [
    | inl (above, below, start, none_before) ↦ inl (
      omega arith,
      omega arith,
      start,
      HasNoStart-before bytes i (find_from bytes (i + 1) count) other none_before,
    )
    | inr (default, none_at_all) ↦ inr (
      default,
      HasNoStart-before bytes i (i + suc count) other (λ j h k. none_at_all j h (omega arith)),
    )
  ])
]

-- The answer is the first offset from 28 to four before the end at which a plausible parameter
-- starts, or 28 if there is none.
pub find_config_offset_lem :
    (bytes : Bytes)
    → IsFirstStart bytes 28 (28 + (length bytes - 4 - 28)) (find_config_offset bytes)
      ⊎ ((find_config_offset bytes ≡ 28) × HasNoStart bytes 28 (28 + (length bytes - 4 - 28)))
unfolding find_config_offset
find_config_offset_lem bytes = find_from-IsFirstStart bytes 28 (length bytes - 4 - 28)
