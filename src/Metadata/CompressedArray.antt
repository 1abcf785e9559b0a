-- ===== src/Metadata/CompressedArray.antt =====
-- src/inflection/dictionary/metadata/CompressedArray.hpp, for a 64-bit T: a value is its bit
-- pattern, so that the casts between T and uint64_t are the identity. The length of the word array
-- is the length of the list. A call that leaves the array, shifts by 64 bits or more, or overflows
-- an int32_t is `undefined`.
pub mod Layout
pub mod Slots
pub mod RoundTrip
pub mod Build
pub mod Bounds
pub mod Width
mod Tests
use inflection.Prelude.{
  ℕ, zero, suc, ◌+◌, ◌-◌, ◌*◌, ◌/◌, ◌%◌, ◌^◌, List, [], ◌∷◌, Bool, true, false, ◌||◌, bit_and,
  bit_or, ltb, leb, ◌==◌, if◌then◌else◌, length, get_or, set, replicate, Outcome, ok, throws,
  undefined, ◌>>=◌, index_out_of_bounds, ℤ, pos, negsuc,
}

pub record CompressedArray : Type 0 where
  pub word_width : ℕ
  pub words : List ℕ
  pub select_mask : ℕ

abbrev pub int32_limit : ℕ
int32_limit = 2 ^ 31

abbrev pub data_width : ℕ
data_width = 64

-- `while (allUsedBits != 0) { wordWidth++; allUsedBits >>= 1; }`; 64 rounds empty a uint64_t.
count_bits : ℕ → ℕ → ℕ → ℕ
count_bits zero bits width = width
count_bits (suc fuel) bits width =
    let rest = count_bits fuel (bits / 2) (width + 1) in if bits == 0 then width else rest

pub calculate_bit_width : ℕ → ℕ
calculate_bit_width all_used_bits =
    let width = count_bits 64 all_used_bits 0 in if width == 0 then 1 else width

pub union_bits : ℕ → List ℕ → ℕ
union_bits all_used_bits [] = all_used_bits
union_bits all_used_bits (value ∷ input) = union_bits (bit_or all_used_bits value) input

-- The overload for a vector.
pub calculate_bit_width_of : List ℕ → ℕ
calculate_bit_width_of input = calculate_bit_width (union_bits 0 input)

-- T((value >> start) & ((uint64_t(1) << len) - 1))
unfoldable pub extract_value : ℕ → ℕ → ℕ → Outcome ℕ
extract_value value start len =
    if ltb 64 (start + len)
    then throws index_out_of_bounds
    else if (start == 64) || (len == 64)
    then undefined
    else ok (bit_and (value / 2 ^ start) (2 ^ len - 1))

-- CompressedArray(wordWidth, arraySize): an array of zeros.
pub sized : ℕ → ℕ → Outcome CompressedArray
sized word_width array_size =
    let bits = array_size * word_width + data_width - 1 in
    if leb int32_limit bits || leb 64 word_width
    then undefined
    else ok (record {
      word_width = word_width;
      words = replicate (bits / data_width) 0;
      select_mask = 2 ^ word_width - 1;
    })

pub is_empty : CompressedArray → Bool
is_empty c = length c.words == 0

-- `data[i]`
pub load : List ℕ → ℕ → Outcome ℕ
load words i = if ltb i (length words) then ok (get_or words i 0) else undefined

-- `data[i] |= value`
pub or_into : List ℕ → ℕ → ℕ → Outcome (List ℕ)
or_into words i value =
    if ltb i (length words) then ok (set words i (bit_or (get_or words i 0) value)) else undefined

-- The word of an index's first bit, its position there, and the word of its last bit.
pub first_word : CompressedArray → ℕ → ℕ
first_word c index = index * c.word_width / data_width

pub shift_start : CompressedArray → ℕ → ℕ
shift_start c index = index * c.word_width % data_width

pub last_word : CompressedArray → ℕ → ℕ
last_word c index = (index * c.word_width + (c.word_width - 1)) / data_width

-- The part of a value in the next word, reached when the value straddles two words.
read_rest : CompressedArray → ℕ → ℕ → Outcome ℕ
unfolding load
read_rest c index low = if shift_start c index == 0 then undefined else do
  next ← load c.words (first_word c index + 1)
  ok (bit_or low (bit_and c.select_mask (next * 2 ^ (data_width - shift_start c index) % 2 ^ 64)))

read_words : CompressedArray → ℕ → Outcome ℕ
unfolding load
read_words c index = do
  word ← load c.words (first_word c index)
  let low = bit_and c.select_mask (word / 2 ^ shift_start c index)
  if first_word c index == last_word c index then ok low else read_rest c index low

unfoldable pub read : CompressedArray → ℤ → Outcome ℕ
unfolding first_word shift_start last_word read_rest read_words
read c (negsuc n) =
    if ltb int32_limit (suc n * c.word_width) then undefined else throws index_out_of_bounds
read c (pos index) =
    if leb int32_limit (index * c.word_width + (c.word_width - 1))
    then undefined
    else if ltb (length c.words) (last_word c index)
    then throws index_out_of_bounds
    else read_words c index

write_rest : CompressedArray → ℕ → ℕ → List ℕ → Outcome CompressedArray
unfolding or_into
write_rest c index value words = if shift_start c index == 0 then undefined else do
  stored ← or_into words (first_word c index + 1) (value / 2 ^ (data_width - shift_start c index))
  ok (record c { words = stored })

write_words : CompressedArray → ℕ → ℕ → Outcome CompressedArray
unfolding or_into
write_words c index value = do
  stored ← or_into c.words (first_word c index) (value * 2 ^ shift_start c index % 2 ^ 64)
  if first_word c index == last_word c index
      then ok (record c { words = stored })
      else write_rest c index value stored

-- A negative index is not refused: the pointers leave the array.
pub write : CompressedArray → ℤ → ℕ → Outcome CompressedArray
unfolding first_word shift_start last_word write_rest write_words
write c (negsuc n) value = undefined
write c (pos index) value =
    if leb int32_limit (index * c.word_width + (c.word_width - 1))
    then undefined
    else if ltb (length c.words) (last_word c index)
    then throws index_out_of_bounds
    else write_words c index value

fill : CompressedArray → ℕ → List ℕ → Outcome CompressedArray
unfolding write
fill c index [] = ok c
fill c index (value ∷ input) = do c' ← write c (pos index) value; fill c' (suc index) input

-- CompressedArray(input)
pub of_vector : List ℕ → Outcome CompressedArray
unfolding fill sized calculate_bit_width_of
of_vector input = do c ← sized (calculate_bit_width_of input) (length input); fill c 0 input
