-- ===== src/Dictionary/MetaData/Properties.antt =====
-- The bits of properties, and the questions about the properties of a word.
use inflection.Prelude.{
  ℕ, ◌^◌, ◌<◌, max, bit_and, bit_or, true, none, some, List, [], ◌∷◌, if◌then◌else◌, ◌==◌, ◌≡◌, ◌↔◌,
  ◌⊎◌, inl, inr, refl, arith, ap, ◌∙◌, sym, ok, ℤ, pos, negsuc, Bool-cases, Option-cases, bind-ok,
  not,
}
use inflection.Prelude.Bits.{bit, bit-zero, bit-bit_or, bit-power_self, bit-power_ne, bit_and-power}
use inflection.Prelude.Strings.{U16String, equals, equals_iff}
use inflection.Dictionary.MetaData.{
  Source, convert_identifier_to_bit, get_value_of_type, values_loop, get_values_of_types,
  get_combined_binary_type, has_all_properties, has_property,
}

-- The digit of a name's bit: 1 at the place of its identifier.
abbrev pub digit_of : ℤ → ℕ → ℕ
digit_of (negsuc _) k = 0
digit_of (pos i) k = if i == k then 1 else 0

-- 1 if one of the names has the identifier k.
abbrev pub digit_of_any : Source → List U16String → ℕ → ℕ
digit_of_any source [] k = 0
digit_of_any source (type ∷ types) k =
    max (digit_of (source.type_identifier type) k) (digit_of_any source types k)

bit-power : (i k : ℕ) → bit (2 ^ i) k ≡ digit_of (pos i) k
bit-power i k = elim (Bool-cases (i == k)) [
  | inl same ↦
      let i_e : i ≡ k = ground (arith, same) in
      ground (arith, same, ap (bit (2 ^ i)) i_e, bit-power_self i)
  | inr other ↦ ground (arith, other, bit-power_ne i k (ground (arith, other)))
]

-- The identifiers of the names fit the 64 bits.
abbrev pub FitsBits : Source → Type 0
FitsBits source = (type : U16String) (i : ℕ) → source.type_identifier type ≡ pos i → i < 64

ℤ-cases : (z : ℤ) → ((n : ℕ) × (z ≡ negsuc n)) ⊎ ((n : ℕ) × (z ≡ pos n))
ℤ-cases (pos n) = inr (n, refl)
ℤ-cases (negsuc n) = inl (n, refl)

value_known :
    (source : Source) (type : U16String) (i : ℕ)
    → source.type_identifier type ≡ pos i
    → i < 64
    → get_value_of_type source type ≡ ok (some (2 ^ i))
unfolding get_value_of_type convert_identifier_to_bit
value_known source type i e lt = ground (arith, e, lt)

value_unknown :
    (source : Source) (type : U16String) (n : ℕ)
    → source.type_identifier type ≡ negsuc n
    → get_value_of_type source type ≡ ok none
unfolding get_value_of_type
value_unknown source type n e = ground (arith, e)

digit_step :
    (v r o p d t rest : ℕ) → v ≡ max o rest → o ≡ max r p → p ≡ d → t ≡ d → v ≡ max r (max t rest)
digit_step v r o p d t rest a b c e = omega (arith, a, b, c, e)

values_loop_lem :
    (source : Source) (result : ℕ) (types : List U16String)
    → FitsBits source
    → (v : ℕ) × (values_loop source result types ≡ ok v)
      × ((k : ℕ) → bit v k ≡ max (bit result k) (digit_of_any source types k))
unfolding values_loop
values_loop_lem source result [] h = (result, refl, λ k. omega arith)
values_loop_lem source result (type ∷ types) h = elim (ℤ-cases (source.type_identifier type)) [
  | inl (n, e) ↦
      let (v, v_e, bits) = values_loop_lem source result types h in
      (v, ground (arith, value_unknown source type n e, v_e), λ k. ground (arith, e, bits k))
  | inr (i, e) ↦
      let (v, v_e, bits) = values_loop_lem source (bit_or result (2 ^ i)) types h in
      (
        v,
        ground (arith, value_known source type i e (h type i e), v_e),
        λ k.
            digit_step (bit v k) (bit result k) (bit (bit_or result (2 ^ i)) k) (bit (2 ^ i) k)
              (digit_of (pos i) k) (digit_of (source.type_identifier type) k)
              (digit_of_any source types k) (bits k) (bit-bit_or result (2 ^ i) k) (bit-power i k)
              (ap (λ (z : ℤ). digit_of z k) e),
      )
]

-- When the identifiers of the names fit 64 bits, the value of a list of names has a 1 at each place
-- that is the identifier of one of them, and no other; unknown names add nothing.
pub get_values_of_types_lem :
    (source : Source) (types : List U16String)
    → FitsBits source
    → (v : ℕ) × (get_values_of_types source types ≡ ok v)
      × ((k : ℕ) → bit v k ≡ digit_of_any source types k)
unfolding get_values_of_types
get_values_of_types_lem source types h =
    let (v, e, bits) = values_loop_lem source 0 types h in
    (v, e, λ k. omega (arith, bits k, bit-zero k))

-- The combined type of a word is read under its own spelling, and where that is not there in lower case.
abbrev pub HasType : Source → U16String → ℕ → Type 0
HasType source word t =
    (source.get_word_type word ≡ ok (some t))
    ⊎ ((source.get_word_type word ≡ ok none)
        × (lower : U16String) × (source.transform word ≡ ok lower)
        × (source.get_word_type lower ≡ ok (some t)))

get_combined_binary_type-HasType :
    (source : Source) (word : U16String) (t : ℕ)
    → get_combined_binary_type source word ≡ ok (some t)
    → HasType source word t
unfolding get_combined_binary_type
get_combined_binary_type-HasType source word t e =
    let (type, direct, rest) = bind-ok (source.get_word_type word) _ (some t) e in
    elim (Option-cases type) [
      | inr (u, known) ↦ inl (ground (arith, direct, rest, known))
      | inl missing ↦
          let (lower, lower_e, found) =
            bind-ok (source.transform word)
              (λ normalized.
                if not (equals normalized word) then source.get_word_type normalized else ok none)
              (some t) (ground (arith, rest, missing)) in
          elim (Bool-cases (equals lower word)) [
            | inl same ↦ absurd (ground (arith, found, same))
            | inr other ↦
                inr (ground (arith, direct, missing), lower, lower_e, ground (arith, found, other))
          ]
    ]

HasType-get_combined_binary_type :
    (source : Source) (word : U16String) (t : ℕ)
    → HasType source word t
    → get_combined_binary_type source word ≡ ok (some t)
unfolding get_combined_binary_type
HasType-get_combined_binary_type source word t (inl direct) = ground (arith, direct)
HasType-get_combined_binary_type source word t (inr (direct, lower, lower_e, found)) =
    elim (Bool-cases (equals lower word)) [
      | inl same ↦
          let both = ap source.get_word_type ((equals_iff lower word).0 same) in
          absurd (ground (arith, sym direct ∙ sym both ∙ found))
      | inr other ↦ ground (arith, direct, lower_e, other, found)
    ]

-- For a name with an identifier below 64: a word has the property exactly if the type that is read for
-- the word as it is spelled, or when there is none for the word in lower case, has the digit of that
-- identifier.
pub has_property_lem :
    (source : Source) (word name : U16String) (i : ℕ)
    → source.type_identifier name ≡ pos i
    → i < 64
    → (has_property source word name ≡ ok true) ↔ ((t : ℕ) × HasType source word t × (bit t i ≡ 1))
unfolding has_property has_all_properties
has_property_lem source word name i e lt =
    let known = value_known source name i e lt in
    (
      λ h.
          let asked : has_all_properties source word (2 ^ i) ≡ ok true = ground (arith, h, known) in
          let (type, type_e, found) = bind-ok (get_combined_binary_type source word) _ true asked in
          elim (Option-cases type) [
            | inl missing ↦ absurd (ground (arith, found, missing))
            | inr (t, type_is) ↦
                let same : bit_and t (2 ^ i) ≡ 2 ^ i = ground (arith, found, type_is) in
                let read =
                  get_combined_binary_type-HasType source word t
                    (ground (arith, type_e, type_is)) in
                (t, read, (bit_and-power t i).0 same)
          ],
      λ (t, type_e, b).
          let inside = (bit_and-power t i).1 b in
          ground (arith, known, inside, HasType-get_combined_binary_type source word t type_e),
    )
