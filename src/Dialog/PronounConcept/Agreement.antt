-- ===== src/Dialog/PronounConcept/Agreement.antt =====
-- Which entries fit a pronoun that refers to no other concept.
use inflection.Prelude.{
  ℕ, suc, ◌+◌, Bool, true, false, ◌&&◌, ◌||◌, none, some, List, [], ◌∷◌, if◌then◌else◌, ◌≡◌, arith,
  ap, inl, inr, Option-cases,
}
use inflection.Prelude.Strings.{U16String, equals, is_empty}
use inflection.Dictionary.MetaData.{Source}
use inflection.Dictionary.PhraseProperties.{Icu}
use inflection.Dialog.Constraints.{FeatureMap, find}
use inflection.Dialog.PronounConcept.{PronounEntry, PronounConcept, get_match_state, count_generic}
use inflection.Dialog.PronounConcept.Selection.{match_entry}
use inflection.Dialog.PronounConcept.Choice.{Decides}

-- An entry has the value of a constraint, or an empty one, which stands for every value.
abbrev pub agrees_on : FeatureMap → U16String → U16String → Bool
agrees_on value_map name value = elim (find name value_map) [
  | none ↦ false
  | some own ↦ equals own value || is_empty own
]

abbrev pub agrees : FeatureMap → FeatureMap → Bool
agrees value_map [] = true
agrees value_map ((name, value) ∷ constraints) =
    agrees_on value_map name value && agrees value_map constraints

-- The number of constraints for which it has an empty one instead.
abbrev pub in_general : FeatureMap → FeatureMap → ℕ
in_general value_map [] = 0
in_general value_map ((name, value) ∷ constraints) =
    (elim (find name value_map) [ none ↦ 0 | some own ↦ if equals own value then 0 else 1 ])
    + in_general value_map constraints

pub count_generic_lem :
    (value_map constraints : FeatureMap) (n : ℕ)
    → count_generic value_map constraints n
      ≡ (if agrees value_map constraints then some (n + in_general value_map constraints) else none)
unfolding count_generic get_match_state
count_generic_lem value_map [] n = ap some {x = n} {y = n + 0} (omega arith)
count_generic_lem value_map ((name, value) ∷ constraints) n =
    let same = count_generic_lem value_map constraints n in
    let more = count_generic_lem value_map constraints (suc n) in
    elim (Option-cases (find name value_map)) [
      | inl e ↦ ground (arith, e)
      | inr (own, e) ↦ ground (arith, e, same, more)
    ]

-- Without a concept that it refers to, every entry has an answer.
pub Decides-alone :
    (icu : Icu) (dictionary : Source) (c : PronounConcept) (xs : List PronounEntry)
    → Decides icu dictionary c none (λ entry. agrees entry.constraint_data c.constraints) xs
unfolding match_entry
Decides-alone icu dictionary c [] = tt
Decides-alone icu dictionary c (x ∷ xs) =
    let count = count_generic_lem x.constraint_data c.constraints 0 in
    (ground (arith, count), Decides-alone icu dictionary c xs)
