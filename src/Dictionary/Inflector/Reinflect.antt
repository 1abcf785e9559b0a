-- ===== src/Dictionary/Inflector/Reinflect.antt =====
-- reinflect and reinflectWithOptionalConstraints of Inflector_InflectionPattern.cpp: from one form of a
-- word to another. The logging is left out.
pub mod Laws
use inflection.Prelude.{
  ℕ, zero, suc, ◌+◌, ◌-◌, ◌*◌, ◌/◌, ◌%◌, ◌^◌, bit_and, Bool, true, false, not, ◌&&◌, ◌||◌, Option,
  none, some, List, [], ◌∷◌, ◌++◌, if◌then◌else◌, ltb, ◌==◌, length, take, Outcome, ok, throws,
  undefined, ◌>>=◌,
}
use inflection.Prelude.Strings.{U16String, ends_with}
use inflection.Dictionary.Inflector.{
  InflectorDictionary, Pattern, Inflection, get_suffix, contains_all, for_inflections,
}

-- std::popcount of the digits below `width`.
unfoldable pub count_ones : ℕ → ℕ → ℕ
count_ones zero value = 0
count_ones (suc width) value = value % 2 + count_ones width (value / 2)

unfoldable pub popcount : ℕ → ℕ
popcount value = count_ones 64 value

-- SurfaceFormMatchScore. The last member is kept as the number that the code negates: how many more
-- grammemes an inflection has than are asked for.
pub record Score : Type 0 where
  pub optional_constraints : ℕ
  pub matched : ℕ
  pub unmatched : ℕ

-- `operator<` of the members in their order.
unfoldable pub lower : Score → Score → Bool
lower a b =
    ltb a.optional_constraints b.optional_constraints
    || (a.optional_constraints == b.optional_constraints
        && (ltb a.matched b.matched || (a.matched == b.matched && ltb b.unmatched a.unmatched)))

-- The loop over the optional constraints. An int64_t that overflows is undefined.
unfoldable pub optional_score : ℕ → List ℕ → ℕ → Outcome ℕ
optional_score grammemes [] score = ok score
optional_score grammemes (constraint ∷ constraints) score =
    let next = 2 * score + (if bit_and grammemes constraint == 0 then 0 else 1) in
    if ltb next (2 ^ 63) then optional_score grammemes constraints next else undefined

-- What the loop over the inflections keeps. Before the first candidate the score is lower than any.
pub record Search : Type 0 where
  pub longest_lemma_suffix_len : ℕ
  pub best : Option (Score × U16String)

-- `longestLemmaSuffixLen < surfaceFormSuffixSize`, with the size as an int16_t, which is negative
-- from 2 ^ 15 on.
unfoldable pub longer : ℕ → U16String → Bool
longer longest suffix = let size = length suffix % 2 ^ 16 in ltb longest size && ltb size (2 ^ 15)

unfoldable pub is_source : ℕ → ℕ → Bool
is_source from_grammemes grammemes = from_grammemes == 0 || contains_all from_grammemes grammemes

unfoldable pub longest_with : ℕ → U16String → U16String → ℕ → ℕ → ℕ
longest_with from_grammemes surface_form suffix grammemes longest =
    if is_source from_grammemes grammemes
      && (longer longest suffix && ends_with surface_form suffix)
    then length suffix % 2 ^ 16
    else longest

unfoldable pub better : Option (Score × U16String) → Score → U16String → Option (Score × U16String)
better none score suffix = some (score, suffix)
better (some (best, best_suffix)) score suffix =
    if lower best score then some (score, suffix) else some (best, best_suffix)

-- The body of the loop.
unfoldable pub consider :
    InflectorDictionary → ℕ → ℕ → List ℕ → U16String → Inflection → Search → Outcome Search
consider d from_grammemes to_constraints optional surface_form inflection s =
    let suffix = get_suffix d inflection in
    let longest =
      longest_with from_grammemes surface_form suffix inflection.grammemes
        s.longest_lemma_suffix_len in
    if contains_all inflection.grammemes to_constraints
    then (do
      score ← optional_score inflection.grammemes optional 0
      let score_now : Score = record {
        optional_constraints = score;
        matched = popcount (bit_and inflection.grammemes from_grammemes);
        unmatched = popcount inflection.grammemes - popcount to_constraints;
      }
      ok (record { longest_lemma_suffix_len = longest; best = better s.best score_now suffix }))
    else ok (record { longest_lemma_suffix_len = longest; best = s.best })

unfoldable pub reinflect_implementation :
    InflectorDictionary → Pattern → ℕ → ℕ → List ℕ → U16String → Outcome U16String
reinflect_implementation d pattern from_grammemes to_constraints optional surface_form =
    if to_constraints == 0
    then ok surface_form
    else if contains_all from_grammemes to_constraints
    then ok surface_form
    else (do
      found ←
          for_inflections d pattern (consider d from_grammemes to_constraints optional surface_form)
            (record { longest_lemma_suffix_len = 0; best = none })
      elim found.best [
        | none ↦ ok []
        | some (_, suffix) ↦
            ok (take (length surface_form - found.longest_lemma_suffix_len) surface_form ++ suffix)
      ])

unfoldable pub reinflect : InflectorDictionary → Pattern → ℕ → ℕ → U16String → Outcome U16String
reinflect d pattern from_grammemes to_constraints surface_form =
    reinflect_implementation d pattern from_grammemes to_constraints [] surface_form

unfoldable pub reinflect_with_optional_constraints :
    InflectorDictionary → Pattern → ℕ → ℕ → List ℕ → U16String → Outcome U16String
reinflect_with_optional_constraints d pattern from_grammemes to_constraints optional surface_form =
    reinflect_implementation d pattern from_grammemes to_constraints optional surface_form
