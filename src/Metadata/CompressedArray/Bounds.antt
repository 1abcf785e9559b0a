-- ===== src/Metadata/CompressedArray/Bounds.antt =====
-- What `read` and `write` do at any index, the ends of the array included.
use inflection.Prelude.{
  ℕ, ◌+◌, ◌*◌, ◌%◌, ◌^◌, ◌≤◌, ◌≡◌, ltb, ◌==◌, if◌then◌else◌, length, arith, ok, throws, undefined,
  index_out_of_bounds, pos, get_or, length-set, bit_or,
}
use inflection.Metadata.CompressedArray.{
  CompressedArray, read, write, int32_limit, last_word, first_word, shift_start,
}
use inflection.Metadata.CompressedArray.Slots.{IsValid, value_at, stored}

-- In a well-formed array, for an index that is not negative and whose bits have positions up to
-- the largest int32_t: a value whose last bit lies in the array is read. One whose last bit lies in the word just behind
-- the array passes the range check, and the word there is read: undefined behaviour. One that ends
-- further out is refused with an exception.
pub read_bounds :
    (c : CompressedArray) (index : ℕ)
    → IsValid c
    → index * c.word_width + c.word_width ≤ int32_limit
    → read c (pos index) ≡ (
        if ltb (length c.words) (last_word c index)
        then throws index_out_of_bounds
        else if last_word c index == length c.words
        then undefined
        else ok (value_at c index))
unfolding read value_at
read_bounds c index v h = ground (arith, v.positive, v.narrow)

-- In a well-formed array, for an index that is not negative and whose bits have positions up to
-- the largest int32_t: a value whose last bit lies in the array is or-ed into its slot. One whose last
-- bit lies in the word just behind the array passes the range check, and the word there is written:
-- undefined behaviour. One that ends further out is refused with an exception.
pub write_bounds :
    (c : CompressedArray) (index value : ℕ)
    → IsValid c
    → index * c.word_width + c.word_width ≤ int32_limit
    → write c (pos index) value ≡ (
        if ltb (length c.words) (last_word c index)
        then throws index_out_of_bounds
        else if last_word c index == length c.words
        then undefined
        else ok (record c { words = stored c index value }))
unfolding write stored
write_bounds c index value v h = ground (
  arith,
  v.positive,
  v.narrow,
  length-set c.words (first_word c index)
      (bit_or (get_or c.words (first_word c index) 0) (value * 2 ^ shift_start c index % 2 ^ 64)),
)
