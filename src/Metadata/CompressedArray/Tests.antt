-- ===== src/Metadata/CompressedArray/Tests.antt =====
-- Tests and examples of CompressedArray.
use inflection.Prelude.{
  ℕ, zero, suc, ◌^◌, ◌*◌, ◌+◌, ◌<◌, ◌≤◌, List, [], ◌∷◌, ◌≡◌, refl, ok, undefined, pos, ◌>>=◌, arith,
  get_or, length, if◌then◌else◌, ltb, ◌==◌, throws, index_out_of_bounds, bit_or, All, ◌⊎◌, ◌-◌,
}
use inflection.Metadata.CompressedArray.{
  CompressedArray, of_vector, read, write, calculate_bit_width_of, union_bits, calculate_bit_width,
  count_bits, int32_limit, last_word,
}
use inflection.Metadata.CompressedArray.Slots.{IsValid, value_at, stored}
use inflection.Metadata.CompressedArray.Build.{read-of_vector}
use inflection.Metadata.CompressedArray.RoundTrip.{read-write}
use inflection.Metadata.CompressedArray.Bounds.{read_bounds, write_bounds}
use inflection.Metadata.CompressedArray.Width.{calculate_bit_width_of_lem}

-- Eight values of nine bits, the last of which straddles two words.
abbrev sample : List ℕ
sample = 5 ∷ 300 ∷ 7 ∷ 0 ∷ 1 ∷ 2 ∷ 3 ∷ 511 ∷ []

test_read : (do c ← of_vector sample; read c (pos 7)) ≡ ok 511
unfolding of_vector read calculate_bit_width_of union_bits calculate_bit_width count_bits
test_read = refl

sample_width : calculate_bit_width_of sample ≡ 9
unfolding calculate_bit_width_of union_bits calculate_bit_width count_bits
sample_width = refl

sample_small : All (λ value. value < 2 ^ 63) sample
sample_small = ground arith

sample_room : length sample * calculate_bit_width_of sample + 63 < int32_limit
sample_room = omega (arith, sample_width)

read-of_vector_example : (of_vector sample >>= λ c. read c (pos 7)) ≡ ok (get_or sample 7 0)
read-of_vector_example = read-of_vector sample 7 sample_small sample_room (omega arith)

-- An array of two words, with values of nine bits.
abbrev array : CompressedArray
array = record { word_width = 9; words = 5 ∷ 3 ∷ []; select_mask = 511 }

words_small : (i : ℕ) → get_or (5 ∷ 3 ∷ []) i 0 < 2 ^ 64
words_small zero = omega arith
words_small (suc zero) = omega arith
words_small (suc (suc i)) = omega arith

array-IsValid : IsValid array
array-IsValid = record {
  positive = omega arith;
  narrow = omega arith;
  mask = refl;
  bounded = words_small;
}

read-write_example :
    (write array (pos 7) 12 >>= λ c. read c (pos 0))
    ≡ (if 0 == 7 then (read array (pos 7) >>= λ old. ok (bit_or old 12)) else read array (pos 0))
read-write_example =
    read-write array 7 0 12 array-IsValid
      (record { inside = omega arith; addressable = omega arith })
      (record { inside = omega arith; addressable = omega arith }) (omega arith)

-- Index 14 ends in the word just behind the array.
read_bounds_example : read array (pos 14) ≡ (
    if ltb 2 (last_word array 14)
    then throws index_out_of_bounds
    else if last_word array 14 == 2
    then undefined
    else ok (value_at array 14))
read_bounds_example = read_bounds array 14 array-IsValid (omega arith)

test_read_outside : read array (pos 14) ≡ undefined
unfolding read
test_read_outside = refl

write_bounds_example : write array (pos 14) 1 ≡ (
    if ltb 2 (last_word array 14)
    then throws index_out_of_bounds
    else if last_word array 14 == 2
    then undefined
    else ok (record array { words = stored array 14 1 }))
write_bounds_example = write_bounds array 14 1 array-IsValid (omega arith)

calculate_bit_width_of_lem_example :
    let width = calculate_bit_width_of sample in
    (1 ≤ width)
    × (width < 64)
    × All (λ value. value < 2 ^ width) sample
    × ((width ≡ 1) ⊎ (¬ All (λ value. value < 2 ^ (width - 1)) sample))
calculate_bit_width_of_lem_example = calculate_bit_width_of_lem sample sample_small
