-- ===== src/Metadata/CompressedArray/Layout.antt =====
-- The word array of a CompressedArray seen as one string of bits.
use inflection.Prelude.{
  ℕ, ◌+◌, ◌-◌, ◌*◌, ◌/◌, ◌%◌, ◌^◌, ◌≤◌, ◌<◌, max, List, ◌≡◌, ◌∙◌, ap, inl, inr, bit_or, ltb, ◌==◌,
  if◌then◌else◌, length, get_or, set, get_or-set_self, get_or-set_ne, arith, replicate,
  get_or-replicate, Bool-cases, false,
}
use inflection.Prelude.Bits.{
  bit, bit-zero, bit-bit_or, bit-shift_left, bit-shift_left_low, bit-shift_right, bit-mod,
  bit_of_lt,
}

-- Bit `p` of the array; bits past its end are zero.
unfoldable pub bit_at : List ℕ → ℕ → ℕ
bit_at words p = bit (get_or words (p / 64) 0) (p % 64)

pub bit_at-replicate : (n p : ℕ) → bit_at (replicate n 0) p ≡ 0
unfolding bit_at
bit_at-replicate n p =
    ap (λ (t : ℕ). bit t (p % 64)) (get_or-replicate n (p / 64) 0) ∙ bit-zero (p % 64)

-- `words[i] |= x` adds the bits of `x` to word `i`.
pub bit_at-set :
    (words : List ℕ) (i x p : ℕ)
    → i < length words
    → bit_at (set words i (bit_or (get_or words i 0) x)) p
      ≡ max (bit_at words p) (if p / 64 == i then bit x (p % 64) else 0)
unfolding bit_at
bit_at-set words i x p h = ground (
  arith,
  get_or-set_self words i (bit_or (get_or words i 0) x) 0 h,
  get_or-set_ne words i (p / 64) (bit_or (get_or words i 0) x) 0,
  bit-bit_or (get_or words i 0) x (p % 64),
)

-- The bits of `(v << s) % 2^64`.
pub bit_of_raised :
    (v s m : ℕ) → m < 64 → bit (v * 2 ^ s % 2 ^ 64) m ≡ (if ltb m s then 0 else bit v (m - s))
bit_of_raised v s m h = elim (Bool-cases (ltb m s)) [
  | inl low ↦ rw low (bit-mod 64 (v * 2 ^ s) m h ∙ bit-shift_left_low s v m (ground arith))
  | inr high ↦
      rw high
        (bit-mod 64 (v * 2 ^ s) m h ∙ ap (bit (v * 2 ^ s)) (back high) ∙ bit-shift_left s v (m - s))
]
  where
    back : ltb m s ≡ false → m ≡ m - s + s
    back high = ground arith

-- The two words that a value straddles carry all its bits.
pub straddle :
    (v w start p : ℕ)
    → v < 2 ^ w
    → w ≤ 64
    → max
        (if p / 64 == start / 64 then bit (v * 2 ^ (start % 64) % 2 ^ 64) (p % 64) else 0)
        (if p / 64 == start / 64 + 1 then bit (v / 2 ^ (64 - start % 64)) (p % 64) else 0)
      ≡ (if ltb p start then 0 else bit v (p - start))
straddle v w start p hv hw = ground (
  arith,
  bit_of_raised v (start % 64) (p % 64) (omega arith),
  bit-shift_right (64 - start % 64) v (p % 64),
  bit_of_lt w v (p - start) hv,
)
