-- ===== src/Dictionary/PropertyMaps/Refinement.antt =====
-- The packed map of a word's properties is an association list.
use inflection.Prelude.{
  ℕ, suc, ◌+◌, ◌^◌, ◌<◌, none, List, [], ◌∷◌, ltb, ◌==◌, length, map, ok, pos, ◌≡◌, refl, arith,
  All, inl, inr, Bool-cases, subst,
}
use inflection.Dictionary.Inflector.{to_signed, plus, add, same_id, rounds}
use inflection.Dictionary.Inflector.Packing.{to_signed-small}
use inflection.Dictionary.PropertyMaps.Layout.{
  PropertyMap, lookup, identifiers, IsSorted, key_word, ValuesAt, SegmentsAt, KeysAt, IsLayout,
  row_field, row_parts, size_field, int32_small,
}
use inflection.Dictionary.PropertyMaps.{
  WordProperties, widen, plus_signed, is_below, read_int32, identifiers_from,
  get_property_map_internal_identifiers, scan_keys, find_in_map,
}

module _ (d : WordProperties) where
  identifiers_from-map :
      (start idx : ℕ) (vs : List ℕ)
      → ValuesAt d (start + idx) vs
      → identifiers_from d (pos start) (length vs) idx ≡ ok (map pos vs)
  unfolding identifiers_from plus
  identifiers_from-map start idx [] h = refl
  identifiers_from-map start idx (v ∷ vs) (here, rest) =
      let moved : ValuesAt d (start + suc idx) vs =
        subst (λ row. ValuesAt d row vs) {x = suc (start + idx)} {y = start + suc idx} (omega arith)
          rest in
      ground (arith, here, identifiers_from-map start (suc idx) vs moved)

  module _ (layout : IsLayout d) where
    lookup-above : (id : ℕ) (m : PropertyMap) → All (λ entry. id < entry.0) m → lookup id m ≡ none
    lookup-above id [] h = refl
    lookup-above id ((key, vs) ∷ m) (above, h) = ground (arith, above, lookup-above id m h)

    All-above :
        (id key : ℕ) (m : PropertyMap)
        → id < key
        → All (λ entry. key < entry.0) m
        → All (λ entry. id < entry.0) m
    All-above id key [] less h = tt
    All-above id key (entry ∷ m) less (above, h) =
        (omega (arith, less, above), All-above id key m less h)

    scan_keys-lookup :
        (id offset size map_idx cumulative : ℕ) (m : PropertyMap)
        → KeysAt d (offset + map_idx) m
        → SegmentsAt d (offset + size + cumulative) m
        → IsSorted m
        → scan_keys d (pos id) (pos offset) (pos size) (length m) map_idx (pos cumulative)
          ≡ ok (identifiers (lookup id m))
    unfolding scan_keys plus is_below same_id plus_signed add get_property_map_internal_identifiers
        rounds widen
    scan_keys-lookup id offset size map_idx cumulative [] keys segments sorted = refl
    scan_keys-lookup id offset size map_idx cumulative ((key, vs) ∷ m) (high, row, hk, hs, keys)
          (vs_at, segments) (above, sorted) =
        let (small, field) = row_field d layout key (length vs) high hk hs in
        let (whole, key_e, size_e) = row_parts d layout key (length vs) high hk hs in
        let moved_values : ValuesAt d (offset + size + cumulative + 0) vs =
          subst (λ at. ValuesAt d at vs) {x = offset + size + cumulative}
            {y = offset + size + cumulative + 0} (omega arith) vs_at in
        let moved_keys : KeysAt d (offset + suc map_idx) m =
          subst (λ at. KeysAt d at m) {x = suc (offset + map_idx)} {y = offset + suc map_idx}
            (omega arith) keys in
        let moved_segments : SegmentsAt d (offset + size + (cumulative + length vs)) m =
          subst (λ at. SegmentsAt d at m) {x = offset + size + cumulative + length vs}
            {y = offset + size + (cumulative + length vs)} (omega arith) segments in
        let shift : d.bits_property_value_map_key < 32 = omega (arith, layout.narrow) in
        elim (Bool-cases (ltb id key)) [
          | inl less ↦
              let gone = lookup-above id m (All-above id key m (ground (arith, less)) above) in
              ground (arith, row, field, whole, key_e, less, gone)
          | inr not_less ↦ elim (Bool-cases (key == id)) [
            | inl same ↦
                let found = identifiers_from-map (offset + size + cumulative) 0 vs moved_values in
                ground (arith, row, field, whole, key_e, size_e, shift, not_less, same, found)
            | inr other ↦
                let later =
                  scan_keys-lookup id offset size (suc map_idx) (cumulative + length vs) m
                    moved_keys moved_segments sorted in
                ground (arith, row, field, whole, key_e, size_e, shift, not_less, other, later)
          ]
        ]

    -- Let the rows from an offset on hold a map with ascending keys, which is not empty: its keys with the
    -- numbers of their values, the first with the number of keys too, and then the values of each. The
    -- search for an identifier ends, reads these rows only, and finds the values of the identifier, or
    -- that it has none.
    pub find_in_map_lem :
        (id offset key : ℕ) (vs : List ℕ) (m : PropertyMap)
        → suc (length m) < 2 ^ d.bits_property_value_map_key_size
        → read_int32 d.property_value_maps (pos offset)
          ≡ ok (pos (key_word d key (length vs) (suc (length m))))
        → KeysAt d offset ((key, vs) ∷ m)
        → SegmentsAt d (offset + suc (length m)) ((key, vs) ∷ m)
        → IsSorted ((key, vs) ∷ m)
        → find_in_map d (pos id) (pos offset) ≡ ok (identifiers (lookup id ((key, vs) ∷ m)))
    unfolding find_in_map widen rounds
    find_in_map_lem id offset key vs m hc first (high, row, hk, hs, keys) segments sorted =
        let count = suc (length m) in
        let size = size_field d layout key (length vs) count hk hs hc in
        let count_e : to_signed 31 count ≡ pos count =
          to_signed-small 31 count
            (int32_small d layout d.bits_property_value_map_key_size count layout.size_narrow hc) in
        let keys_at : KeysAt d (offset + 0) ((key, vs) ∷ m) =
          subst (λ at. KeysAt d at ((key, vs) ∷ m)) {x = offset} {y = offset + 0} (omega arith)
            (high, row, hk, hs, keys) in
        let segments_at : SegmentsAt d (offset + count + 0) ((key, vs) ∷ m) =
          subst (λ at. SegmentsAt d at ((key, vs) ∷ m)) {x = offset + count}
            {y = offset + count + 0} (omega arith) segments in
        let scanned =
          scan_keys-lookup id offset count 0 0 ((key, vs) ∷ m) keys_at segments_at sorted in
        ground (arith, first, size, count_e, scanned)
