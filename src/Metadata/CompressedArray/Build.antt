-- ===== src/Metadata/CompressedArray/Build.antt =====
-- A vector is stored by writing its values one after the other into zeros, and read back whole.
use inflection.Prelude.{
  ℕ, zero, suc, ◌+◌, ◌-◌, ◌*◌, ◌/◌, ◌^◌, ◌≤◌, ◌<◌, List, [], ◌∷◌, ◌≡◌, refl, sym, ◌∙◌, ap, inl, inr,
  bit_or, ltb, if◌then◌else◌, length, get_or, replicate, length-replicate, get_or-replicate, arith,
  Bool-cases, ok, ◌>>=◌, pos, All,
}
use Prim.Native.Nat.{bit_or-bitwise}
use native.Mathlib.Nat.{one-le-pow}
use inflection.Prelude.Bits.{bit, bit-zero}
use inflection.Metadata.CompressedArray.{
  CompressedArray, read, int32_limit, fill, of_vector, sized, calculate_bit_width_of,
}
use inflection.Metadata.CompressedArray.Layout.{bit_at-replicate}
use inflection.Metadata.CompressedArray.Width.{calculate_bit_width_of_lem}
use inflection.Metadata.CompressedArray.Slots.{
  IsValid, IsInside, stored, write-stored, stored-IsValid, length-stored,
}
use inflection.Metadata.CompressedArray.RoundTrip.{
  Holds, read-Holds, update, stored-Holds, below_word,
}

bit_or_zero : (a : ℕ) → bit_or 0 a ≡ a
bit_or_zero a = bit_or-bitwise 0 a

stored_empty-Holds :
    (c : CompressedArray) (table : ℕ → ℕ) (index value : ℕ)
    → IsValid c
    → IsInside c index
    → value < 2 ^ c.word_width
    → Holds c table
    → table index ≡ 0
    → Holds (record c { words = stored c index value }) (update table index value)
stored_empty-Holds c table index value v h fits holds empty =
    let or_value : bit_or (table index) value ≡ value = rw empty (bit_or_zero value) in
    rw or_value at (stored-Holds c table index value v h fits holds)

-- The array after the loop of the constructor.
filled : CompressedArray → ℕ → List ℕ → CompressedArray
filled c index [] = c
filled c index (value ∷ input) =
    filled (record c { words = stored c index value }) (suc index) input

-- All slots from `index` on that the input takes lie in the array.
record HasRoom (c : CompressedArray) (index : ℕ) (input : List ℕ) : Type 0 where
  pub room : (index + length input) * c.word_width ≤ 64 * length c.words
  pub addressable : (index + length input) * c.word_width ≤ int32_limit

HasRoom-IsInside :
    (c : CompressedArray) (index value : ℕ) (input : List ℕ)
    → HasRoom c index (value ∷ input)
    → IsInside c index
HasRoom-IsInside c index value input h = record {
  inside = grind (arith, h.room);
  addressable = grind (arith, h.addressable);
}

HasRoom-tail :
    (c : CompressedArray) (index value : ℕ) (input : List ℕ)
    → HasRoom c index (value ∷ input)
    → HasRoom (record c { words = stored c index value }) (suc index) input
HasRoom-tail c index value input h =
    let same : suc index + length input ≡ index + suc (length input) = omega arith in
    record {
      room = rw (same, length-stored c index value) h.room;
      addressable = rw same h.addressable;
    }

after : (ℕ → ℕ) → ℕ → List ℕ → ℕ → ℕ
after table index input j = if ltb j index then table j else get_or input (j - index) 0

after-cons :
    (table : ℕ → ℕ) (index value : ℕ) (input : List ℕ) (j : ℕ)
    → after (update table index value) (suc index) input j ≡ after table index (value ∷ input) j
unfolding after
after-cons table index value input j = elim (Bool-cases (ltb index j)) [
  | inl later ↦ let e : j - index ≡ suc (j - suc index) = ground arith in rw e (ground arith)
  | inr early ↦ let e : j - index ≡ 0 = ground arith in rw e (ground arith)
]

Holds-ext : (c : CompressedArray) (s t : ℕ → ℕ) → ((j : ℕ) → s j ≡ t j) → Holds c s → Holds c t
Holds-ext c s t e h j k lt = h j k lt ∙ ap (λ (x : ℕ). bit x k) (e j)

width-filled :
    (c : CompressedArray) (index : ℕ) (input : List ℕ)
    → (filled c index input).word_width ≡ c.word_width
unfolding filled
width-filled c index [] = refl
width-filled c index (value ∷ input) =
    width-filled (record c { words = stored c index value }) (suc index) input

length-filled :
    (c : CompressedArray) (index : ℕ) (input : List ℕ)
    → length (filled c index input).words ≡ length c.words
unfolding filled
length-filled c index [] = refl
length-filled c index (value ∷ input) =
    length-filled (record c { words = stored c index value }) (suc index) input
    ∙ length-stored c index value

filled-Holds :
    (c : CompressedArray) (table : ℕ → ℕ) (index : ℕ) (input : List ℕ)
    → IsValid c
    → HasRoom c index input
    → All (λ value. value < 2 ^ c.word_width) input
    → Holds c table
    → ((j : ℕ) → index ≤ j → table j ≡ 0)
    → (fill c index input ≡ ok (filled c index input))
      × IsValid (filled c index input)
      × Holds (filled c index input) (after table index input)
unfolding fill filled
filled-Holds c table index [] v h fits holds empty = (
  refl,
  v,
  Holds-ext c table (after table index []) (λ j. unfold after in ground (arith, empty j)) holds,
)
filled-Holds c table index (value ∷ input) v h (fit, fits) holds empty =
    let inside = HasRoom-IsInside c index value input h in
    let rest =
      filled-Holds (record c { words = stored c index value }) (update table index value)
        (suc index) input (stored-IsValid c index value v (below_word c value v fit))
        (HasRoom-tail c index value input h) fits
        (stored_empty-Holds c table index value v inside fit holds (empty index (omega arith)))
        (λ j le. ground (arith, empty j)) in
    (
      rw (write-stored c index value v inside) rest.0,
      rest.1,
      Holds-ext (filled c index (value ∷ input)) _ _ (after-cons table index value input) rest.2,
    )

-- An array of zeros of width `w` for `n` values.
abbrev zeros : ℕ → ℕ → CompressedArray
zeros w n = record {
  word_width = w;
  words = replicate ((n * w + 63) / 64) 0;
  select_mask = 2 ^ w - 1;
}

sized-zeros : (w n : ℕ) → w < 64 → n * w + 63 < int32_limit → sized w n ≡ ok (zeros w n)
unfolding sized
sized-zeros w n hw hn = ground arith

zeros-IsValid : (w n : ℕ) → 0 < w → w < 64 → IsValid (zeros w n)
zeros-IsValid w n pos_w hw = record {
  positive = pos_w;
  narrow = hw;
  mask = refl;
  bounded = λ i. omega (arith, get_or-replicate {A = ℕ} ((n * w + 63) / 64) i 0);
}

zeros-Holds : (w n : ℕ) → Holds (zeros w n) (λ _. 0)
zeros-Holds w n j k lt = bit_at-replicate ((n * w + 63) / 64) (j * w + k) ∙ sym (bit-zero k)

zeros-HasRoom :
    (w : ℕ) (input : List ℕ)
    → length input * w + 63 < int32_limit
    → HasRoom (zeros w (length input)) 0 input
zeros-HasRoom w input h =
    let same : 0 + length input ≡ length input = omega arith in
    record {
      room = rw (same, length-replicate {A = ℕ} ((length input * w + 63) / 64) 0) (omega arith);
      addressable = rw same (omega arith);
    }

slot_inside : (i n w : ℕ) → i < n → i * w + w ≤ n * w
slot_inside i n w h = grind arith

get_or-All :
    (n i : ℕ) (input : List ℕ) → 0 < n → All (λ value. value < n) input → get_or input i 0 < n
get_or-All n i [] h fits = h
get_or-All n zero (x ∷ input) h fits = fits.0
get_or-All n (suc i) (x ∷ input) h fits = get_or-All n i input h fits.1

built-Holds :
    (w : ℕ) (input : List ℕ)
    → 0 < w
    → w < 64
    → All (λ value. value < 2 ^ w) input
    → length input * w + 63 < int32_limit
    → let c = filled (zeros w (length input)) 0 input in
      (fill (zeros w (length input)) 0 input ≡ ok c) × IsValid c × Holds c (after (λ _. 0) 0 input)
built-Holds w input positive narrow fits room =
    filled-Holds (zeros w (length input)) (λ _. 0) 0 input
      (zeros-IsValid w (length input) positive narrow) (zeros-HasRoom w input room) fits
      (zeros-Holds w (length input)) (λ j le. refl)

filled-IsInside :
    (w i : ℕ) (input : List ℕ)
    → i < length input
    → length input * w + 63 < int32_limit
    → IsInside (filled (zeros w (length input)) 0 input) i
filled-IsInside w i input lt room =
    let same_width = width-filled (zeros w (length input)) 0 input in
    let same_length = length-filled (zeros w (length input)) 0 input in
    let words = length-replicate {A = ℕ} ((length input * w + 63) / 64) 0 in
    record {
      inside =
          rw (same_width, same_length, words) (omega (arith, slot_inside i (length input) w lt));
      addressable = rw same_width (omega (arith, slot_inside i (length input) w lt));
    }

read-filled :
    (w i : ℕ) (input : List ℕ)
    → 0 < w
    → w < 64
    → All (λ value. value < 2 ^ w) input
    → length input * w + 63 < int32_limit
    → i < length input
    → read (filled (zeros w (length input)) 0 input) (pos i) ≡ ok (get_or input i 0)
read-filled w i input positive narrow fits room lt =
    let c = filled (zeros w (length input)) 0 input in
    let (built, valid, holds) = built-Holds w input positive narrow fits room in
    let same : after (λ _. 0) 0 input i ≡ get_or input i 0 = unfold after in ground arith in
    read-Holds c (after (λ _. 0) 0 input) i valid (filled-IsInside w i input lt room) holds (
      rw (same, width-filled (zeros w (length input)) 0 input)
        (get_or-All (2 ^ w) i input (one-le-pow w 2 (omega arith)) fits))
    ∙ ap ok same

-- A vector of 63-bit values that fits an int32_t's worth of bits is stored, and each value is read
-- back at its index.
pub read-of_vector :
    (input : List ℕ) (i : ℕ)
    → All (λ value. value < 2 ^ 63) input
    → length input * calculate_bit_width_of input + 63 < int32_limit
    → i < length input
    → (of_vector input >>= λ c. read c (pos i)) ≡ ok (get_or input i 0)
unfolding of_vector
read-of_vector input i small room lt =
    let w = calculate_bit_width_of input in
    let (positive, narrow, fits, _) = calculate_bit_width_of_lem input small in
    let (built, valid, holds) = built-Holds w input positive narrow fits room in
    rw (sized-zeros w (length input) narrow room, built)
      (read-filled w i input positive narrow fits room lt)
