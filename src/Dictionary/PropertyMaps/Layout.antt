-- ===== src/Dictionary/PropertyMaps/Layout.antt =====
-- The rows of a packed map, and what is read from them.
use inflection.Prelude.{
  ℕ, zero, suc, ◌+◌, ◌-◌, ◌*◌, ◌/◌, ◌%◌, ◌^◌, ◌≤◌, ◌<◌, bit_and, Option, none, some, List, [], ◌∷◌,
  if◌then◌else◌, ◌==◌, length, map, ok, ℤ, pos, ◌≡◌, arith, ap, ◌∙◌, sym, All,
}
use native.Mathlib.Nat.{
  add-mul-mod_self_left, add-mul-div_left, mod-eq_of_lt, div-eq_of_lt, one-le-pow, pow-suc, mul-suc,
  mul-add, mul_assoc, mul-le-mul_left, pow-le-pow_right,
}
use inflection.Prelude.Bits.{bit_and-mask}
use inflection.Metadata.CompressedArray.{extract_value}
use inflection.Dictionary.Inflector.{to_signed}
use inflection.Dictionary.Inflector.Packing.{extract_value-low, to_signed-small}
use inflection.Dictionary.PropertyMaps.{WordProperties, read_int32}

-- Identifiers of names, each with the identifiers of its values.
abbrev pub PropertyMap : Type 0
PropertyMap = List (ℕ × List ℕ)

abbrev pub lookup : ℕ → PropertyMap → Option (List ℕ)
lookup id [] = none
lookup id ((key, vs) ∷ m) = if key == id then some vs else lookup id m

abbrev pub identifiers : Option (List ℕ) → Option (List ℤ)
identifiers none = none
identifiers (some vs) = some (map pos vs)

-- The keys ascend.
abbrev pub IsSorted : PropertyMap → Type 0
IsSorted [] = Unit
IsSorted ((key, vs) ∷ m) = All (λ entry. key < entry.0) m × IsSorted m

pow_sum : (n m : ℕ) → 2 ^ (n + m) ≡ 2 ^ n * 2 ^ m
pow_sum zero m = ap (λ t. 2 ^ t) {x = zero + m} {y = m} (omega arith) ∙ omega arith
pow_sum (suc n) m =
    ap (λ t. 2 ^ t) {x = suc n + m} {y = suc (n + m)} (omega arith)
    ∙ omega (arith, pow-suc 2 (n + m), pow_sum n m)
    ∙ sym (mul_assoc 2 (2 ^ n) (2 ^ m))
    ∙ ap (λ t. t * 2 ^ m) {x = 2 * 2 ^ n} {y = 2 ^ suc n} (omega (arith, pow-suc 2 n))

pack_lt : (a b k l : ℕ) → k < a → l < b → k + a * l < a * b
pack_lt a b k l hk hl =
    omega (arith, hk, mul-suc a l, mul-le-mul_left {m = suc l} {n = b} a (omega (arith, hl)))

module _ (d : WordProperties) where
  abbrev pub key_word : ℕ → ℕ → ℕ → ℕ
  key_word key size high =
      key
      + 2 ^ d.bits_property_value_map_key
        * (size + 2 ^ d.bits_property_value_map_values_size * high)

  -- The rows of an array from one on.
  abbrev pub ValuesAt : ℕ → List ℕ → Type 0
  ValuesAt row [] = Unit
  ValuesAt row (v ∷ vs) =
      (read_int32 d.property_value_maps (pos row) ≡ ok (pos v)) × ValuesAt (suc row) vs

  abbrev pub SegmentsAt : ℕ → PropertyMap → Type 0
  SegmentsAt row [] = Unit
  SegmentsAt row ((key, vs) ∷ m) = ValuesAt row vs × SegmentsAt (row + length vs) m

  -- What is in the highest field matters in the first row only.
  abbrev pub KeysAt : ℕ → PropertyMap → Type 0
  KeysAt row [] = Unit
  KeysAt row ((key, vs) ∷ m) =
      (high : ℕ) × (read_int32 d.property_value_maps (pos row)
        ≡ ok (pos (key_word key (length vs) high)))
      × (key < 2 ^ d.bits_property_value_map_key)
      × (length vs < 2 ^ d.bits_property_value_map_values_size)
      × KeysAt (suc row) m

  -- The fields are narrow enough, and the mask is that of a key.
  pub record IsLayout : Type 0 where
    pub narrow : d.bits_property_value_map_key + d.bits_property_value_map_values_size ≤ 31
    pub size_narrow : d.bits_property_value_map_key_size ≤ 31
    pub mask : d.bits_property_value_map_key_mask ≡ 2 ^ d.bits_property_value_map_key - 1

  split_word :
      (key size high : ℕ)
      → key_word key size high
        ≡ key
          + 2 ^ d.bits_property_value_map_key * size
          + 2 ^ (d.bits_property_value_map_key + d.bits_property_value_map_values_size) * high
  split_word key size high =
      let a = 2 ^ d.bits_property_value_map_key in
      let b = 2 ^ d.bits_property_value_map_values_size in
      let both : 2 ^ (d.bits_property_value_map_key + d.bits_property_value_map_values_size) * high
          ≡ a * (b * high) =
        ap (λ t. t * high)
          (pow_sum d.bits_property_value_map_key d.bits_property_value_map_values_size)
        ∙ mul_assoc a b high in
      omega (arith, both, mul-add a size (b * high))

  module _ (layout : IsLayout) where
    abbrev width : ℕ
    width = d.bits_property_value_map_key + d.bits_property_value_map_values_size

    -- What is read from a row of a key.
    pub row_field :
        (key size high : ℕ)
        → key < 2 ^ d.bits_property_value_map_key
        → size < 2 ^ d.bits_property_value_map_values_size
        → let field = key + 2 ^ d.bits_property_value_map_key * size in
          (field < 2 ^ width) × (extract_value (key_word key size high) 0 width ≡ ok field)
    row_field key size high hk hs =
        let field = key + 2 ^ d.bits_property_value_map_key * size in
        let small : field < 2 ^ width = omega (
          arith,
          pack_lt (2 ^ d.bits_property_value_map_key) (2 ^ d.bits_property_value_map_values_size)
              key size hk hs,
          pow_sum d.bits_property_value_map_key d.bits_property_value_map_values_size,
        ) in
        (
          small,
          ap (λ w. extract_value w 0 width) (split_word key size high)
              ∙ extract_value-low width field high (omega (arith, layout.narrow)) small,
        )

    pub int32_small : (w v : ℕ) → w ≤ 31 → v < 2 ^ w → v < 2 ^ 31
    int32_small w v h small =
        omega (arith, small, pow-le-pow_right {n = 2} (omega arith) {i = w} {j = 31} h)

    -- The two parts of the field.
    pub row_parts :
        (key size high : ℕ)
        → key < 2 ^ d.bits_property_value_map_key
        → size < 2 ^ d.bits_property_value_map_values_size
        → let field = key + 2 ^ d.bits_property_value_map_key * size in
          (field % 2 ^ 32 ≡ field)
          × (to_signed 31 (bit_and field d.bits_property_value_map_key_mask) ≡ pos key)
          × (to_signed 31 (field / 2 ^ d.bits_property_value_map_key) ≡ pos size)
    row_parts key size high hk hs =
        let a = d.bits_property_value_map_key in
        let field = key + 2 ^ a * size in
        let (small, _) = row_field key size high hk hs in
        let positive : 0 < 2 ^ a = one-le-pow a 2 (omega arith) in
        let low : bit_and field d.bits_property_value_map_key_mask ≡ key =
          ap (bit_and field) layout.mask
          ∙ bit_and-mask a field
          ∙ add-mul-mod_self_left key (2 ^ a) size
          ∙ mod-eq_of_lt hk in
        let high_part : field / 2 ^ a ≡ size =
          add-mul-div_left key size positive ∙ omega (arith, div-eq_of_lt hk) in
        (
          mod-eq_of_lt (omega (arith, int32_small width field layout.narrow small)),
          ap (to_signed 31) low
              ∙ to_signed-small 31 key (int32_small a key (omega (arith, layout.narrow)) hk),
          ap (to_signed 31) high_part
              ∙ to_signed-small 31 size (
                  int32_small d.bits_property_value_map_values_size size
                    (omega (arith, layout.narrow)) hs),
        )

    -- The size of the map, from its first row.
    pub size_field :
        (key size count : ℕ)
        → key < 2 ^ d.bits_property_value_map_key
        → size < 2 ^ d.bits_property_value_map_values_size
        → count < 2 ^ d.bits_property_value_map_key_size
        → extract_value (key_word key size count) width d.bits_property_value_map_key_size
          ≡ ok count
    unfolding extract_value
    size_field key size count hk hs hc =
        let field = key + 2 ^ d.bits_property_value_map_key * size in
        let (small, _) = row_field key size count hk hs in
        let positive : 0 < 2 ^ width = one-le-pow width 2 (omega arith) in
        let high : key_word key size count / 2 ^ width ≡ count =
          ap (λ w. w / 2 ^ width) (split_word key size count)
          ∙ add-mul-div_left field count positive
          ∙ omega (arith, div-eq_of_lt small) in
        let masked : bit_and (key_word key size count / 2 ^ width)
              (2 ^ d.bits_property_value_map_key_size - 1)
            ≡ count =
          ap (λ w. bit_and w (2 ^ d.bits_property_value_map_key_size - 1)) high
          ∙ bit_and-mask d.bits_property_value_map_key_size count
          ∙ mod-eq_of_lt hc in
        ground (arith, masked, layout.narrow, layout.size_narrow)
