-- ===== src/Metadata/StringArrayContainer.antt =====
-- src/inflection/dictionary/metadata/StringArrayContainer.cpp: strings laid out one behind the
-- other, each with an entry `offset << 8 | length`, and looked up by number or by binary search.
-- A std::set of strings is the list of its strings in their order.
pub mod Entries
pub mod Order
pub mod Build
pub mod Search
mod Tests
use inflection.Prelude.{
  ℕ, zero, suc, ◌+◌, ◌-◌, ◌*◌, ◌/◌, ◌%◌, ◌^◌, bit_and, bit_or, Bool, true, false, not, ◌&&◌, ◌||◌,
  Option, none, some, List, [], ◌∷◌, ◌++◌, ltb, leb, ◌==◌, if◌then◌else◌, length, take, drop,
  replicate, get_elem?, Outcome, ok, throws, undefined, ◌>>=◌, illegal_argument,
  index_out_of_bounds, ℤ, pos, negsuc,
}
use Prim.Native.Nat.{compare, Ordering}
use inflection.Prelude.Strings.{U16String, equals}

pub record StringArrayContainer : Type 0 where
  pub array_size : ℕ
  pub all_strings_size : ℕ
  pub string_indexes_with_len : List ℕ
  pub all_strings : U16String

-- LENGTH_BITS and LENGTH_MASK
abbrev pub length_bits : ℕ
length_bits = 8

abbrev pub length_mask : ℕ
length_mask = 2 ^ 8 - 1

-- `compare` of the standard strings.
pub compare_strings : U16String → U16String → Ordering
compare_strings [] [] = Ordering.eq
compare_strings [] (y ∷ ys) = Ordering.lt
compare_strings (x ∷ xs) [] = Ordering.gt
compare_strings (x ∷ xs) (y ∷ ys) = elim (compare x y) [
  | Ordering.lt ↦ Ordering.lt
  | Ordering.gt ↦ Ordering.gt
  | Ordering.eq ↦ compare_strings xs ys
]

-- `((offset << LENGTH_BITS) >> LENGTH_BITS) == offset` on int32_t: what is shifted into the sign
-- is negative when it is shifted back.
pub shifts_back : ℕ → Bool
shifts_back offset =
    let shifted = offset * 2 ^ 8 % 2 ^ 32 in ltb shifted (2 ^ 31) && shifted / 2 ^ 8 == offset

-- The mapping result, a std::map from strings to their numbers.
abbrev pub Mapping : Type 0
Mapping = List (U16String × ℕ)

pub emplace : U16String → ℕ → Mapping → Mapping
emplace string index [] = (string, index) ∷ []
emplace string index ((key, old) ∷ mapping) =
    if equals key string then (key, old) ∷ mapping else (key, old) ∷ emplace string index mapping

-- What the loop of the constructor has built: entries, text and mapping.
pub record Buffer : Type 0 where
  pub entries : List ℕ
  pub text : U16String
  pub mapping : Mapping

pub add_string : U16String → Buffer → Outcome Buffer
unfolding shifts_back emplace
add_string string b =
    let offset = length b.text in
    let len = length string in
    if ltb 255 len || not (shifts_back offset)
    then throws illegal_argument
    else ok (record {
      entries = b.entries ++ (bit_or (offset * 2 ^ 8) len ∷ []);
      text = b.text ++ (string ++ (0 ∷ []));
      mapping = emplace string (length b.entries) b.mapping;
    })

pub add_strings : List U16String → Buffer → Outcome Buffer
unfolding add_string
add_strings [] b = ok b
add_strings (string ∷ strings) b = add_string string b >>= add_strings strings

-- The characters that make what is written a multiple of 8 bytes long: 4 for each of the two sizes
-- and for each entry, and 2 for each character.
pub padding_size : ℕ → ℕ → ℕ
padding_size array_size text_length = (8 - (8 + array_size * 4 + text_length * 2) % 8) / 2

-- The constructor from a set of strings, with the mapping that it fills.
pub build : List U16String → Mapping → Outcome (StringArrayContainer × Mapping)
unfolding add_strings padding_size
build strings (entry ∷ mapping) = throws illegal_argument
build strings [] = do
  b ← add_strings strings (record { entries = []; text = []; mapping = [] })
  let padded = b.text ++ replicate (padding_size (length strings) (length b.text)) 0
  ok (
      (
        record {
          array_size = length strings;
          all_strings_size = length padded;
          string_indexes_with_len = b.entries;
          all_strings = padded;
        },
        b.mapping,
      ))

-- The string that an entry stands for. A read outside the arrays is undefined.
pub string_at : ℕ → StringArrayContainer → Outcome U16String
string_at index c = elim (get_elem? c.string_indexes_with_len index) [
  | none ↦ undefined
  | some value ↦
      let len = bit_and length_mask value in
      let string_start = value / 2 ^ 8 in
      if ltb c.all_strings_size (string_start + len)
      then undefined
      else ok (take len (drop string_start c.all_strings))
]

pub get_string : ℤ → StringArrayContainer → Outcome U16String
unfolding string_at
get_string (negsuc offset) c = throws index_out_of_bounds
get_string (pos offset) c =
    if leb c.array_size offset then throws index_out_of_bounds else string_at offset c

-- The loop of getIdentifierIfAvailable. The limit is kept one larger than in the code, where it is
-- the last index of the part that is searched and may be -1. std::midpoint rounds to `start`.
pub search : ℕ → ℕ → ℕ → U16String → StringArrayContainer → Outcome ℤ
unfolding string_at compare_strings
search zero start end string c = undefined
search (suc fuel) start end string c =
    let mid = start + (end - 1 - start) / 2 in
    if ltb start end
    then (do
      str_to_compare ← string_at mid c
      elim (compare_strings string str_to_compare) [
        | Ordering.lt ↦ search fuel start mid string c
        | Ordering.gt ↦ search fuel (suc mid) end string c
        | Ordering.eq ↦ ok (pos mid)
      ])
    else ok (negsuc 0)

-- The part that is searched gets shorter in each step, so its length and one are enough fuel.
pub get_identifier_if_available : U16String → StringArrayContainer → Outcome ℤ
unfolding search
get_identifier_if_available string c = search (suc c.array_size) 0 c.array_size string c

pub get_identifier : U16String → StringArrayContainer → Outcome ℤ
unfolding get_identifier_if_available
get_identifier string c = do
  result ← get_identifier_if_available string c
  elim result [ negsuc _ ↦ throws illegal_argument | pos i ↦ ok (pos i) ]

pub size : StringArrayContainer → ℕ
size c = c.array_size
