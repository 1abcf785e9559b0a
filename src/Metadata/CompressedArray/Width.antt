-- ===== src/Metadata/CompressedArray/Width.antt =====
-- The width that `calculateBitWidth` picks.
use native.Mathlib.Nat.{pow-suc, pow-le-pow_right, one-le-pow}
use inflection.Prelude.{
  ℕ, zero, suc, ◌+◌, ◌-◌, ◌*◌, ◌/◌, ◌^◌, ◌≤◌, ◌<◌, List, [], ◌∷◌, ◌≡◌, refl, arith, bit_or, All,
  ◌⊎◌, inl, inr, ◌==◌, Bool-cases,
}
use inflection.Prelude.Bits.{bit-bit_or, bit_of_lt, lt_of_bits}
use inflection.Metadata.CompressedArray.{
  count_bits, calculate_bit_width, calculate_bit_width_of, union_bits,
}
use inflection.Metadata.CompressedArray.Slots.{bit_or_lt}

-- `bits` lie below 2 ^ d for the number `d` of rounds, and below no smaller power of two.
count_bits_lem :
    (fuel bits width : ℕ)
    → bits < 2 ^ fuel
    → (d : ℕ) × (count_bits fuel bits width ≡ width + d)
      × (bits < 2 ^ d)
      × (d ≤ fuel)
      × ((bits ≡ 0) × (d ≡ 0) ⊎ 2 ^ d ≤ bits * 2)
unfolding count_bits
count_bits_lem zero bits width h = (0, omega arith, h, omega arith, inl (omega arith, refl))
count_bits_lem (suc fuel) bits width h = elim (Bool-cases (bits == 0)) [
  | inl done ↦ (0, rw done (omega arith), ground arith, omega arith, inl (ground arith, refl))
  | inr more ↦
      let (d, e, lt, le, least) =
        count_bits_lem fuel (bits / 2) (width + 1) (omega (arith, pow-suc 2 fuel)) in
      (
        suc d,
        rw more (omega (arith, e)),
        omega (arith, pow-suc 2 d, lt),
        omega (arith, le),
        inr (ground (arith, pow-suc 2 d, least)),
      )
]

-- The smallest positive width that holds the bits of a uint64_t.
calculate_bit_width_lem :
    (bits : ℕ)
    → bits < 2 ^ 64
    → let width = calculate_bit_width bits in
      (1 ≤ width) × (width ≤ 64) × (bits < 2 ^ width) × ((width ≡ 1) ⊎ (2 ^ width ≤ bits * 2))
unfolding calculate_bit_width
calculate_bit_width_lem bits h =
    let (d, e, lt, le, least) = count_bits_lem 64 bits 0 h in ground (arith, e, lt, le, least)

union-le : (a b : ℕ) (n : ℕ) → bit_or a b < 2 ^ n → (a < 2 ^ n) × (b < 2 ^ n)
union-le a b n h = (
  lt_of_bits n a (λ k le. omega (arith, bit-bit_or a b k, bit_of_lt n (bit_or a b) k h le)),
  lt_of_bits n b (λ k le. omega (arith, bit-bit_or a b k, bit_of_lt n (bit_or a b) k h le)),
)

union_bits_above :
    (n acc : ℕ) (input : List ℕ)
    → union_bits acc input < 2 ^ n
    → (acc < 2 ^ n) × All (λ value. value < 2 ^ n) input
unfolding union_bits
union_bits_above n acc [] h = (h, tt)
union_bits_above n acc (x ∷ input) h =
    let (both, rest) = union_bits_above n (bit_or acc x) input h in
    let (left, right) = union-le acc x n both in (left, (right, rest))

union_bits_lt :
    (n acc : ℕ) (input : List ℕ)
    → acc < 2 ^ n
    → All (λ value. value < 2 ^ n) input
    → union_bits acc input < 2 ^ n
unfolding union_bits
union_bits_lt n acc [] h fits = h
union_bits_lt n acc (x ∷ input) h (fit, fits) =
    union_bits_lt n (bit_or acc x) input (bit_or_lt n acc x h fit) fits

narrow_lem : (w bits : ℕ) → w ≤ 64 → bits < 2 ^ 63 → (w ≡ 1) ⊎ (2 ^ w ≤ bits * 2) → w < 64
narrow_lem w bits le small least =
    ground (arith, least, pow-le-pow_right {n = 2} (omega arith) {i = 64} {j = w})

-- No positive width below it holds the bits.
least_lem : (w bits n : ℕ) → 1 ≤ n → bits < 2 ^ n → (w ≡ 1) ⊎ (2 ^ w ≤ bits * 2) → w ≤ n
least_lem w bits n positive holds least = ground (
  arith,
  positive,
  holds,
  least,
  pow-suc 2 n,
  pow-le-pow_right {n = 2} (omega arith) {i = suc n} {j = w},
)

-- For values below 2 ^ 63, the width for a vector of them is the least positive width that holds each
-- value, and is below 64.
pub calculate_bit_width_of_lem :
    (input : List ℕ)
    → All (λ value. value < 2 ^ 63) input
    → let width = calculate_bit_width_of input in
      (1 ≤ width)
      × (width < 64)
      × All (λ value. value < 2 ^ width) input
      × ((width ≡ 1) ⊎ (¬ All (λ value. value < 2 ^ (width - 1)) input))
unfolding calculate_bit_width_of
calculate_bit_width_of_lem input fits =
    let bits = union_bits 0 input in
    let width = calculate_bit_width bits in
    let small : bits < 2 ^ 63 = union_bits_lt 63 0 input (omega arith) fits in
    let (one_le, le, lt, least) = calculate_bit_width_lem bits (omega arith) in
    (
      one_le,
      narrow_lem _ _ le small least,
      (union_bits_above _ 0 input lt).1,
      elim (Bool-cases (width == 1)) [
        | inl one ↦ inl (ground (arith, one))
        | inr more ↦ inr (λ held.
            let below : bits < 2 ^ (width - 1) =
              union_bits_lt (width - 1) 0 input
                (omega (arith, one-le-pow (width - 1) 2 (omega arith))) held in
            let le_below =
              least_lem width bits (width - 1) (ground (arith, more, one_le)) below least in
            omega (arith, le_below, one_le))
      ],
    )
