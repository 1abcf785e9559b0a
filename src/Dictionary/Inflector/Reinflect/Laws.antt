-- ===== src/Dictionary/Inflector/Reinflect/Laws.antt =====
-- Which form reinflect makes.
use inflection.Prelude.{
  ℕ, ◌+◌, ◌-◌, ◌*◌, ◌^◌, ◌<◌, max, bit_and, Bool, ◌&&◌, Option, none, some, List, [], ◌∷◌,
  if◌then◌else◌, ◌==◌, ltb, length, All,
}
use inflection.Prelude.Choice.{keep}
use inflection.Prelude.Strings.{U16String, ends_with}
use inflection.Dictionary.Inflector.{InflectorDictionary, Inflection, get_suffix, contains_all}
use inflection.Dictionary.Inflector.Reinflect.{Score, popcount, is_source, better}

-- A score is weaker than another: by the optional constraints; if these are the same, by the grammemes
-- that are kept; if these are the same too, by more grammemes that were not asked for.
abbrev pub weaker : Score → Score → Bool
weaker a b =
    if a.optional_constraints == b.optional_constraints
    then (if a.matched == b.matched then ltb b.unmatched a.unmatched else ltb a.matched b.matched)
    else ltb a.optional_constraints b.optional_constraints

-- The score of the optional constraints, without a bound.
abbrev pub optional_value : ℕ → List ℕ → ℕ → ℕ
optional_value grammemes [] score = score
optional_value grammemes (constraint ∷ constraints) score =
    optional_value grammemes constraints
      (2 * score + (if bit_and grammemes constraint == 0 then 0 else 1))

abbrev pub Short : InflectorDictionary → List Inflection → Type 0
Short d xs = All (λ x. length (get_suffix d x) < 2 ^ 15) xs

module _ (d : InflectorDictionary) (from_grammemes to_constraints : ℕ) (optional : List ℕ)
    (surface_form : U16String) where
  abbrev pub score_of : Inflection → Score
  score_of x = record {
    optional_constraints = optional_value x.grammemes optional 0;
    matched = popcount (bit_and x.grammemes from_grammemes);
    unmatched = popcount x.grammemes - popcount to_constraints;
  }

  -- The inflections that have all the grammemes that are asked for.
  abbrev pub candidates : List Inflection → List Inflection
  candidates xs = keep (λ x. contains_all x.grammemes to_constraints) xs

  -- An inflection that the surface form may be: no grammemes that it has not, and its suffix.
  abbrev pub is_form : Inflection → Bool
  is_form x = is_source from_grammemes x.grammemes && ends_with surface_form (get_suffix d x)

  -- The length of the longest suffix of those, or 0.
  abbrev pub longest_suffix : List Inflection → ℕ
  longest_suffix [] = 0
  longest_suffix (x ∷ xs) =
      if is_form x then max (length (get_suffix d x)) (longest_suffix xs) else longest_suffix xs

  -- The best of the candidates to come and the one before.
  best_after : Option (Score × U16String) → List Inflection → Option (Score × U16String)
  best_after best [] = best
  best_after best (x ∷ xs) =
      best_after
        (if contains_all x.grammemes to_constraints
          then better best (score_of x) (get_suffix d x)
          else best)
        xs

  abbrev stored : Option Inflection → Option (Score × U16String)
  stored none = none
  stored (some x) = some (score_of x, get_suffix d x)

  abbrev is_candidate : Inflection → Bool
  is_candidate x = contains_all x.grammemes to_constraints
