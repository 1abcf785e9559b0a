-- ===== src/Dialog/Concept/Match.antt =====
-- Which display value a concept shows.
use inflection.Prelude.{
  Bool, true, false, Option, none, some, List, [], ◌∷◌, Outcome, ok, ◌≡◌, ◌≢◌, ◌⊎◌, inl, inr, refl,
  arith, ◌↔◌, Option-cases, Bool-cases, All, subst, ap, ◌++◌,
}
use inflection.Prelude.Strings.{U16String, equals, equals_iff}
use inflection.Dialog.Constraints.{FeatureMap, find}
use inflection.Dialog.Constraints.Laws.{IsMap}
use inflection.Dialog.DisplayValue.{DisplayValue}
use inflection.Dialog.Concept.{
  Concept, Model, construct, is_full_match, first_match, get_first_possible_value, generated_value,
  matching_value, has_values,
}

-- Every constraint has the same value in the other map.
abbrev pub Matches : FeatureMap → FeatureMap → Type 0
Matches constraints value_map =
    (f v : U16String) → find f constraints ≡ some v → find f value_map ≡ some v

holds_at : (k x : U16String) (value_map : FeatureMap) → Bool
holds_at k x value_map = elim (find k value_map) [ none ↦ false | some v ↦ equals v x ]

holds_at_iff :
    (k x : U16String) (value_map : FeatureMap)
    → (holds_at k x value_map ≡ true) ↔ (find k value_map ≡ some x)
unfolding holds_at
holds_at_iff k x value_map = elim (Option-cases (find k value_map)) [
  | inl e ↦ ground (arith, e)
  | inr (v, e) ↦ ground (arith, e, equals_iff v x)
]

-- The loop over the constraints finds just that, for a map of constraints.
pub is_full_match_sound :
    (constraints value_map : FeatureMap)
    → is_full_match constraints value_map ≡ true
    → Matches constraints value_map
unfolding is_full_match find holds_at
is_full_match_sound [] m h f v e = cc
is_full_match_sound ((k, x) ∷ constraints) m h f v e = elim (Bool-cases (equals k f)) [
  | inl same ↦ ground (arith, same, holds_at_iff f x m, equals_iff k f)
  | inr other ↦ is_full_match_sound constraints m (ground (arith, h)) f v (ground (arith, other, e))
]

pub is_full_match_complete :
    (constraints value_map : FeatureMap)
    → IsMap constraints
    → Matches constraints value_map
    → is_full_match constraints value_map ≡ true
unfolding is_full_match find holds_at
is_full_match_complete [] m d h = refl
is_full_match_complete ((k, x) ∷ constraints) m (lacks, d) h =
    let first = holds_at_iff k x m in
    let rest =
      is_full_match_complete constraints m d (λ f v e. h f v (ground (arith, equals_iff k f))) in
    ground (arith, equals_iff k k, h k x)

-- The values split at the one that is taken: those before it do not match.
abbrev pub IsFirst : FeatureMap → List DisplayValue → DisplayValue → Type 0
IsFirst constraints values value =
    (before : List DisplayValue) × (after : List DisplayValue) × (values
      ≡ before ++ (value ∷ after))
    × Matches constraints value.constraint_map
    × All (λ v. ¬ Matches constraints v.constraint_map) before

abbrev pub NoneMatches : FeatureMap → List DisplayValue → Type 0
NoneMatches constraints values = All (λ v. ¬ Matches constraints v.constraint_map) values

IsFirst-skip :
    (constraints : FeatureMap) (value v : DisplayValue) (values : List DisplayValue)
    → ¬ Matches constraints value.constraint_map
    → IsFirst constraints values v
    → IsFirst constraints (value ∷ values) v
IsFirst-skip constraints value v values differs (before, after, e, m, all) =
    (value ∷ before, after, ap (λ t. value ∷ t) e, m, (differs, all))

FirstOrNone : FeatureMap → List DisplayValue → Option DisplayValue → Type 0
FirstOrNone constraints values none = NoneMatches constraints values
FirstOrNone constraints values (some v) = IsFirst constraints values v

FirstOrNone-skip :
    (constraints : FeatureMap) (value : DisplayValue) (values : List DisplayValue)
    (o : Option DisplayValue)
    → ¬ Matches constraints value.constraint_map
    → FirstOrNone constraints values o
    → FirstOrNone constraints (value ∷ values) o
unfolding FirstOrNone
FirstOrNone-skip constraints value values none differs h = (differs, h)
FirstOrNone-skip constraints value values (some v) differs h =
    IsFirst-skip constraints value v values differs h

first_match_lem :
    (constraints : FeatureMap) (values : List DisplayValue)
    → IsMap constraints
    → FirstOrNone constraints values (first_match constraints values)
unfolding first_match FirstOrNone
first_match_lem constraints [] d = tt
first_match_lem constraints (value ∷ values) d =
    elim (Bool-cases (is_full_match constraints value.constraint_map)) [
      | inl e ↦
          let m = is_full_match_sound constraints value.constraint_map e in
          let taken : some value ≡ first_match constraints (value ∷ values) = ground (arith, e) in
          subst (FirstOrNone constraints (value ∷ values)) taken ([], values, refl, m, tt)
      | inr e ↦
          let differs : ¬ Matches constraints value.constraint_map =
            λ m. ground (arith, e, is_full_match_complete constraints value.constraint_map d m) in
          let skipped : first_match constraints values ≡ first_match constraints (value ∷ values) =
            ground (arith, e) in
          subst (FirstOrNone constraints (value ∷ values)) skipped (
            FirstOrNone-skip constraints value values (first_match constraints values) differs
              (first_match_lem constraints values d))
    ]

-- For a map of constraints and display data: the concept shows the first value that has every
-- constraint, with the same values; when no value has them all, it shows what the model's display
-- function makes of all the values and the constraints, an exception included, or nothing when there is
-- no such function.
pub get_first_possible_value_lem :
    (c : Concept) (values : List DisplayValue)
    → c.display_data ≡ some values
    → IsMap c.constraints
    → ((v : DisplayValue) × IsFirst c.constraints values v
        × (get_first_possible_value c ≡ ok (some v)))
      ⊎ (NoneMatches c.constraints values
          × (get_first_possible_value c ≡ elim c.model.default_display_function [
            | none ↦ ok none
            | some make_display ↦ make_display values c.constraints true
          ]))
unfolding get_first_possible_value generated_value matching_value FirstOrNone
get_first_possible_value_lem c values e d =
    let lem = first_match_lem c.constraints values d in
    elim (Option-cases (first_match c.constraints values)) [
      | inl none_e ↦
          inr (subst (FirstOrNone c.constraints values) none_e lem, ground (arith, e, none_e))
      | inr (v, some_e) ↦
          inl (v, subst (FirstOrNone c.constraints values) some_e lem, ground (arith, e, some_e))
    ]

made_lem :
    (model : Model) (semantic : U16String) (values : Option (List DisplayValue)) (b : Bool)
    (c : Concept)
    → construct model semantic values b ≡ ok c
    → (c.display_data ≡ values) × (c.default_to_semantic ≡ b) × ((values ≢ none) ⊎ (b ≡ true))
unfolding construct has_values
made_lem model semantic none true c e = (ground (arith, e), ground (arith, e), inr refl)
made_lem model semantic none false c e = absurd (ground (arith, e))
made_lem model semantic (some values) b c e = ground (arith, e)

-- The values hold one that has every constraint, with the same values.
abbrev pub IsMatching : Concept → List DisplayValue → DisplayValue → Type 0
IsMatching c values v =
    (before : List DisplayValue) × (after : List DisplayValue) × (values ≡ before ++ (v ∷ after))
    × Matches c.constraints v.constraint_map

first_match-IsMatching :
    (c : Concept) (values : List DisplayValue) (v : DisplayValue)
    → first_match c.constraints values ≡ some v
    → IsMatching c values v
unfolding first_match
first_match-IsMatching c [] v e = absurd (ground (arith, e))
first_match-IsMatching c (value ∷ values) v e =
    elim (Bool-cases (is_full_match c.constraints value.constraint_map)) [
      | inl full ↦
          let same : value ≡ v = ground (arith, e, full) in
          (
            [],
            values,
            ap (λ t. t ∷ values) same,
            subst (λ t. Matches c.constraints t.constraint_map) same
                (is_full_match_sound c.constraints value.constraint_map full),
          )
      | inr partial ↦
          let (before, after, split, m) =
            first_match-IsMatching c values v (ground (arith, e, partial)) in
          (value ∷ before, after, ap (λ t. value ∷ t) split, m)
    ]

-- What the display function is given: the display data, or where there are none the semantic value.
abbrev pub given : Concept → List DisplayValue
given c = elim c.display_data [ none ↦ c.default_to_semantic_value ∷ [] | some values ↦ values ]

-- A value of the display data that matches, or nothing, or what the display function does.
abbrev pub Answers : Concept → Outcome (Option DisplayValue) → Type 0
Answers c result =
    ((values : List DisplayValue) × (v : DisplayValue) × (c.display_data ≡ some values)
      × IsMatching c values v
      × (result ≡ ok (some v)))
    ⊎ ((c.model.default_display_function ≡ none) × (result ≡ ok none))
    ⊎ ((make_display : List DisplayValue → FeatureMap → Bool → Outcome (Option DisplayValue))
        × (c.model.default_display_function ≡ some make_display)
        × (result ≡ make_display (given c) c.constraints true))

answer_lem :
    (c : Concept)
    → (c.display_data ≢ none) ⊎ (c.default_to_semantic ≡ true)
    → Answers c (get_first_possible_value c)
unfolding get_first_possible_value generated_value matching_value
answer_lem c h = elim (Option-cases (matching_value c)) [
  | inr (v, e) ↦ elim (Option-cases c.display_data) [
    | inl d ↦ absurd (ground (arith, e, d))
    | inr (values, d) ↦
        inl (
          values,
          v,
          d,
          first_match-IsMatching c values v (ground (arith, e, d)),
          ground (arith, e),
        )
  ]
  | inl e ↦ elim (Option-cases c.model.default_display_function) [
    | inl f ↦ inr (inl (f, ground (arith, e, f)))
    | inr (make_display, f) ↦ elim (Option-cases c.display_data) [
      | inl d ↦ inr (inr (make_display, f, ground (arith, e, f, d, h)))
      | inr (values, d) ↦ inr (inr (make_display, f, ground (arith, e, f, d)))
    ]
  ]
]

-- A concept that its constructor made throws nothing of its own when it is asked for its first possible
-- value, whatever constraints it has by then: it answers with a value of its display data, or with none where
-- there is no display function, or it does what the display function does, with the display data or, where
-- there are none, with the semantic value alone.
pub construct-get_first_possible_value :
    (model : Model) (semantic : U16String) (values : Option (List DisplayValue)) (b : Bool)
    (c : Concept) (constraints : FeatureMap)
    → construct model semantic values b ≡ ok c
    → let asked = record c { constraints = constraints } in
      Answers asked (get_first_possible_value asked)
construct-get_first_possible_value model semantic values b c constraints e =
    let (same_values, same_default, some_source) = made_lem model semantic values b c e in
    answer_lem (record c { constraints = constraints })
      (ground (arith, same_values, same_default, some_source))
