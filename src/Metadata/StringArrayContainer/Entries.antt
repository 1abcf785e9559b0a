-- ===== src/Metadata/StringArrayContainer/Entries.antt =====
-- The entries of a StringArrayContainer: an offset and a length in one number.
use inflection.Prelude.{ℕ, ◌+◌, ◌*◌, ◌/◌, ◌^◌, ◌≤◌, ◌<◌, bit_and, bit_or, true, ◌≡◌, arith, ◌∙◌}
use inflection.Prelude.Bits.{
  bit, eq_of_bits, lt_of_bits, bit-bit_or, bit-masked, bit-bit_and, bit-shift_left,
  bit-shift_left_low, bit-shift_right, bit_of_lt,
}
use inflection.Metadata.StringArrayContainer.{shifts_back, length_mask}

pub shifts_back_lem : (offset : ℕ) → offset < 2 ^ 31 → shifts_back offset ≡ true → offset < 2 ^ 23
unfolding shifts_back
shifts_back_lem offset bound h = ground (arith, h)

entry_high :
    (len offset k : ℕ) → len < 2 ^ 8 → bit (bit_or (offset * 2 ^ 8) len) (k + 8) ≡ bit offset k
entry_high len offset k h = omega (
  arith,
  bit-bit_or (offset * 2 ^ 8) len (k + 8),
  bit-shift_left 8 offset k,
  bit_of_lt 8 len (k + 8) h (omega arith),
)

entry_low :
    (len offset k : ℕ)
    → k < 8
    → bit (bit_and length_mask (bit_or (offset * 2 ^ 8) len)) k ≡ bit len k
entry_low len offset k h = omega (
  arith,
  bit-masked 8 (bit_or (offset * 2 ^ 8) len) k h,
  bit-bit_or (offset * 2 ^ 8) len k,
  bit-shift_left_low 8 offset k h,
)

mask_high : (value k : ℕ) → 8 ≤ k → bit (bit_and length_mask value) k ≡ 0
mask_high value k h =
    omega (arith, bit-bit_and length_mask value k, bit_of_lt 8 length_mask k (omega arith) h)

-- The length comes back from an entry.
pub entry-length :
    (offset len : ℕ) → len < 2 ^ 8 → bit_and length_mask (bit_or (offset * 2 ^ 8) len) ≡ len
entry-length offset len h =
    eq_of_bits 8 (bit_and length_mask (bit_or (offset * 2 ^ 8) len)) len
      (lt_of_bits 8 (bit_and length_mask (bit_or (offset * 2 ^ 8) len))
        (λ k le. mask_high (bit_or (offset * 2 ^ 8) len) k le))
      h (λ k lt. entry_low len offset k lt)

shifted :
    (offset len k : ℕ) → len < 2 ^ 8 → bit (bit_or (offset * 2 ^ 8) len / 2 ^ 8) k ≡ bit offset k
shifted offset len k h =
    bit-shift_right 8 (bit_or (offset * 2 ^ 8) len) k ∙ entry_high len offset k h

-- The offset comes back from an entry.
pub entry-offset :
    (offset len : ℕ) → offset < 2 ^ 23 → len < 2 ^ 8 → bit_or (offset * 2 ^ 8) len / 2 ^ 8 ≡ offset
entry-offset offset len small h =
    eq_of_bits 23 (bit_or (offset * 2 ^ 8) len / 2 ^ 8) offset
      (lt_of_bits 23 (bit_or (offset * 2 ^ 8) len / 2 ^ 8)
        (λ k le. shifted offset len k h ∙ bit_of_lt 23 offset k small le))
      small (λ k lt. shifted offset len k h)
