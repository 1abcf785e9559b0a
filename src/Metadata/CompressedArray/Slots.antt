-- ===== src/Metadata/CompressedArray/Slots.antt =====
-- Slots: what `read` returns and what `write` changes, as bits of the array.
use inflection.Prelude.{
  ℕ, zero, suc, ◌+◌, ◌-◌, ◌*◌, ◌/◌, ◌%◌, ◌^◌, ◌≤◌, ◌<◌, max, List, [], ◌∷◌, ◌≡◌, ◌∙◌, bit_and,
  bit_or, ltb, ◌==◌, if◌then◌else◌, length, get_or, set, length-set, arith, ok, pos,
}
use native.Mathlib.Nat.{one-le-pow, div-le_self}
use inflection.Prelude.Bits.{
  bit, bit-bit_or, bit-bit_and, bit_of_lt, bit-masked, lt_of_bits, bit-shift_right,
}
use inflection.Metadata.CompressedArray.{
  CompressedArray, read, write, first_word, shift_start, last_word, int32_limit,
}
use inflection.Metadata.CompressedArray.Layout.{bit_at, bit_at-set, bit_of_raised, straddle}

pub record IsValid (c : CompressedArray) : Type 0 where
  pub positive : 0 < c.word_width
  pub narrow : c.word_width < 64
  pub mask : c.select_mask ≡ 2 ^ c.word_width - 1
  pub bounded : (i : ℕ) → get_or c.words i 0 < 2 ^ 64

-- The slot's bits lie in the array, and their positions fit an int32_t.
pub record IsInside (c : CompressedArray) (index : ℕ) : Type 0 where
  pub inside : index * c.word_width + c.word_width ≤ 64 * length c.words
  pub addressable : index * c.word_width + c.word_width ≤ int32_limit

low_part : CompressedArray → ℕ → ℕ
unfolding first_word shift_start
low_part c index =
    bit_and c.select_mask (get_or c.words (first_word c index) 0 / 2 ^ shift_start c index)

high_part : CompressedArray → ℕ → ℕ
unfolding first_word shift_start
high_part c index =
    bit_and c.select_mask
      (get_or c.words (first_word c index + 1) 0 * 2 ^ (64 - shift_start c index) % 2 ^ 64)

unfoldable pub value_at : CompressedArray → ℕ → ℕ
unfolding low_part high_part last_word
value_at c index =
    if first_word c index == last_word c index
    then low_part c index
    else bit_or (low_part c index) (high_part c index)

pub read-value_at :
    (c : CompressedArray) (index : ℕ)
    → IsValid c
    → IsInside c index
    → read c (pos index) ≡ ok (value_at c index)
unfolding read value_at
read-value_at c index v h = ground arith

module _ (c : CompressedArray) (index k : ℕ) (v : IsValid c) (below : k < c.word_width) where
  bit-low_part :
      bit (low_part c index) k
      ≡ bit (get_or c.words (index * c.word_width / 64) 0) (k + index * c.word_width % 64)
  unfolding low_part
  bit-low_part =
      rw v.mask
        (bit-masked c.word_width _ k below ∙ bit-shift_right (index * c.word_width % 64) _ k)

  bit-high_part : bit (high_part c index) k ≡ (
      if ltb k (64 - index * c.word_width % 64)
      then 0
      else bit
          (get_or c.words (index * c.word_width / 64 + 1) 0)
          (k - (64 - index * c.word_width % 64)))
  unfolding high_part
  bit-high_part =
      let lt = v.narrow in
      rw v.mask (
        bit-masked c.word_width _ k below
        ∙ bit_of_raised _ (64 - index * c.word_width % 64) k (omega arith))

  pub bit-value_at : bit (value_at c index) k ≡ bit_at c.words (index * c.word_width + k)
  unfolding value_at bit_at
  bit-value_at = ground (
    arith,
    v.narrow,
    v.positive,
    bit-low_part,
    bit-high_part,
    bit-bit_or (low_part c index) (high_part c index) k,
    bit_of_lt 64 (get_or c.words (index * c.word_width / 64) 0) (k + index * c.word_width % 64)
        (v.bounded (index * c.word_width / 64)),
  )

masked_lt : (w a : ℕ) → bit_and (2 ^ w - 1) a < 2 ^ w
masked_lt w a = lt_of_bits w (bit_and (2 ^ w - 1) a) λ k le. omega (
  arith,
  bit-bit_and (2 ^ w - 1) a k,
  bit_of_lt w (2 ^ w - 1) k (omega (arith, one-le-pow w 2 (omega arith))) le,
)

pub bit_or_lt : (w a b : ℕ) → a < 2 ^ w → b < 2 ^ w → bit_or a b < 2 ^ w
bit_or_lt w a b ha hb =
    lt_of_bits w (bit_or a b)
      λ k le. omega (arith, bit-bit_or a b k, bit_of_lt w a k ha le, bit_of_lt w b k hb le)

pub value_at_lt :
    (c : CompressedArray) (index : ℕ) → IsValid c → value_at c index < 2 ^ c.word_width
unfolding value_at low_part high_part
value_at_lt c index v = rw v.mask (
    ground (
      arith,
      masked_lt c.word_width (get_or c.words (first_word c index) 0 / 2 ^ shift_start c index),
      masked_lt c.word_width
          (get_or c.words (first_word c index + 1) 0 * 2 ^ (64 - shift_start c index) % 2 ^ 64),
      bit_or_lt c.word_width
          (bit_and (2 ^ c.word_width - 1)
            (get_or c.words (first_word c index) 0 / 2 ^ shift_start c index))
          (bit_and (2 ^ c.word_width - 1)
            (get_or c.words (first_word c index + 1) 0 * 2 ^ (64 - shift_start c index) % 2 ^ 64)),
    ))

-- The words after `write`.
with_low : CompressedArray → ℕ → ℕ → List ℕ
unfolding first_word shift_start
with_low c index value =
    set c.words (first_word c index)
      (bit_or (get_or c.words (first_word c index) 0) (value * 2 ^ shift_start c index % 2 ^ 64))

with_high : CompressedArray → ℕ → ℕ → List ℕ
unfolding first_word shift_start with_low
with_high c index value = set (with_low c index value) (first_word c index + 1) (
    bit_or (get_or (with_low c index value) (first_word c index + 1) 0)
      (value / 2 ^ (64 - shift_start c index)))

unfoldable pub stored : CompressedArray → ℕ → ℕ → List ℕ
unfolding with_low with_high last_word
stored c index value =
    if first_word c index == last_word c index
    then with_low c index value
    else with_high c index value

pub write-stored :
    (c : CompressedArray) (index value : ℕ)
    → IsValid c
    → IsInside c index
    → write c (pos index) value ≡ ok (record c { words = stored c index value })
unfolding write stored
write-stored c index value v h = ground (
  arith,
  length-set c.words (first_word c index)
      (bit_or (get_or c.words (first_word c index) 0) (value * 2 ^ shift_start c index % 2 ^ 64)),
)

module _ (c : CompressedArray) (index value p : ℕ) (v : IsValid c) (h : IsInside c index)
    (fits : value < 2 ^ c.word_width) where
  bit_at-with_low :
      bit_at (with_low c index value) p
      ≡ max (bit_at c.words p) (
          if p / 64 == index * c.word_width / 64
          then bit (value * 2 ^ (index * c.word_width % 64) % 2 ^ 64) (p % 64)
          else 0)
  unfolding with_low
  bit_at-with_low =
      bit_at-set c.words (index * c.word_width / 64) _ p (omega (arith, h.inside, v.positive))

  bit_at-with_high :
      (index * c.word_width / 64 + 1 < length c.words)
      → bit_at (with_high c index value) p
        ≡ max (bit_at (with_low c index value) p) (
            if p / 64 == index * c.word_width / 64 + 1
            then bit (value / 2 ^ (64 - index * c.word_width % 64)) (p % 64)
            else 0)
  unfolding with_high
  bit_at-with_high more =
      bit_at-set (with_low c index value) (index * c.word_width / 64 + 1) _ p
        (omega (arith, more, length-set c.words (index * c.word_width / 64) _))

  -- A write adds the bits of the value behind the slot's first bit, and no other.
  pub bit_at-stored :
      bit_at (stored c index value) p
      ≡ max
          (bit_at c.words p)
          (if ltb p (index * c.word_width) then 0 else bit value (p - index * c.word_width))
  unfolding stored
  bit_at-stored = ground (
    arith,
    v.narrow,
    v.positive,
    h.inside,
    bit_at-with_low,
    bit_at-with_high,
    straddle value c.word_width (index * c.word_width) p fits (omega (arith, v.narrow)),
    bit-shift_right (64 - index * c.word_width % 64) value (p % 64),
    bit_of_lt c.word_width value (p % 64 + (64 - index * c.word_width % 64)) fits,
  )

get_or-set_lt :
    (words : List ℕ) (i x j : ℕ)
    → ((j : ℕ) → get_or words j 0 < 2 ^ 64)
    → x < 2 ^ 64
    → get_or (set words i (bit_or (get_or words i 0) x)) j 0 < 2 ^ 64
get_or-set_lt [] i x j hw hx = omega arith
get_or-set_lt (w ∷ words) zero x zero hw hx = bit_or_lt 64 w x (hw 0) hx
get_or-set_lt (w ∷ words) zero x (suc j) hw hx = hw (suc j)
get_or-set_lt (w ∷ words) (suc i) x zero hw hx = hw 0
get_or-set_lt (w ∷ words) (suc i) x (suc j) hw hx = get_or-set_lt words i x j (λ n. hw (suc n)) hx

module _ (c : CompressedArray) (index value : ℕ) (v : IsValid c) (fits : value < 2 ^ 64) where
  with_low_bounded : (j : ℕ) → get_or (with_low c index value) j 0 < 2 ^ 64
  unfolding with_low
  with_low_bounded j = get_or-set_lt c.words _ _ j v.bounded (omega arith)

  with_high_bounded : (j : ℕ) → get_or (with_high c index value) j 0 < 2 ^ 64
  unfolding with_high
  with_high_bounded j =
      get_or-set_lt (with_low c index value) _ _ j with_low_bounded
        (ground (arith, div-le_self value (2 ^ (64 - shift_start c index))))

  -- A write keeps the array well formed, and its length.
  pub stored-IsValid : IsValid (record c { words = stored c index value })
  unfolding stored
  stored-IsValid = record {
    positive = v.positive;
    narrow = v.narrow;
    mask = v.mask;
    bounded = λ j. ground (arith, with_low_bounded j, with_high_bounded j);
  }

pub length-stored :
    (c : CompressedArray) (index value : ℕ) → length (stored c index value) ≡ length c.words
unfolding stored with_low with_high
length-stored c index value = ground (
  arith,
  length-set c.words (first_word c index)
      (bit_or (get_or c.words (first_word c index) 0) (value * 2 ^ shift_start c index % 2 ^ 64)),
  length-set (with_low c index value) (first_word c index + 1) (
      bit_or (get_or (with_low c index value) (first_word c index + 1) 0)
        (value / 2 ^ (64 - shift_start c index))),
)
