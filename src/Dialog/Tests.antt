-- ===== src/Dialog/Tests.antt =====
-- Tests and examples of the dialog classes.
use inflection.Prelude.{
  ℕ, Bool, true, false, List, [], ◌∷◌, ◌≡◌, ◌↔◌, ◌⊎◌, refl, some, none, ok, throws, ◌>>=◌,
  illegal_argument, length, if◌then◌else◌, arith, ap,
}
use mathlib.Core.Option
use inflection.Prelude.Strings.{codes, equals}
use inflection.Dialog.SpeakableString.{
  SpeakableString, of_print, eq, get_print, get_speak, is_empty,
}
use inflection.Dialog.SpeakableString.Laws.{eq_iff, IsNormal, said}
use inflection.Dialog.Constraints.{
  FeatureMap, find, Constrained, get_feature, get_model, put_constraint_by_name,
  clear_constraint_by_name, get_constraint,
}
use inflection.Dialog.Constraints.Laws.{by_name_lem, IsMap}
use inflection.Dialog.DisplayValue.{DisplayValue, of_string}
use inflection.Dialog.Concept.{Model, Concept, construct, get_first_possible_value}
use inflection.Dialog.Concept.Match.{
  get_first_possible_value_lem, construct-get_first_possible_value, Answers, IsFirst, NoneMatches,
}
use inflection.Dialog.ConceptList.{
  ConceptOps, ConceptList, base_hooks, display, copy_list, put_constraint, get,
}
use inflection.Dialog.ConceptList.Shape.{display-pieces, all_said, pieces}
use inflection.Dialog.ConceptList.Copies.{copy_list_lem, put_constraint_lem}

abbrev saint : SpeakableString
saint = record { print = codes "St."; speak = some (codes "Saint") }

saint-IsNormal : IsNormal saint
saint-IsNormal e = omega (arith, ap {B = ℕ} (λ o. elim o [ none ↦ 0 | some text ↦ length text ]) e)

eq_iff_example :
    (eq saint saint ≡ true)
    ↔ (get_print saint ≡ get_print saint) × (get_speak saint ≡ get_speak saint)
eq_iff_example = eq_iff saint saint saint-IsNormal saint-IsNormal

abbrev known : Constrained
known = record { feature_map = some (codes "case" ∷ []); constraints = [] }

by_name_lem_example :
    ((put_constraint_by_name (codes "case") (codes "dative") known >>= λ c.
    ok (get_constraint (codes "case") c))
      ≡ get_model known >>= λ features. elim (get_feature features (codes "case")) [
        | none ↦ throws illegal_argument
        | some _ ↦ ok (
            if equals (codes "case") (codes "case")
            then some (codes "dative")
            else get_constraint (codes "case") known)
      ])
    × ((clear_constraint_by_name (codes "case") known >>= λ c. ok (get_constraint (codes "case") c))
        ≡ get_model known >>= λ features. elim (get_feature features (codes "case")) [
          | none ↦ throws illegal_argument
          | some _ ↦ ok (
              if equals (codes "case") (codes "case")
              then none
              else get_constraint (codes "case") known)
        ])
by_name_lem_example = by_name_lem known (codes "case") (codes "dative") (codes "case")

abbrev dative : FeatureMap
dative = (codes "case", codes "dative") ∷ []

dative-IsMap : IsMap dative
dative-IsMap = (unfold find in refl, tt)

abbrev values : List DisplayValue
values =
    record { display_string = codes "der Hund"; constraint_map = [] }
    ∷ record { display_string = codes "dem Hund"; constraint_map = dative }
    ∷ []

abbrev model : Model
model = record {
  default_display_function = none;
  default_feature_function = λ _. none;
  speak_feature = some (codes "speak");
}

abbrev dog : Concept
dog = record {
  model = model;
  constraints = dative;
  semantic = codes "dog";
  default_to_semantic_value = record { display_string = codes "dog"; constraint_map = [] };
  display_data = some values;
  default_to_semantic = false;
}

get_first_possible_value_lem_example :
    ((v : DisplayValue) × IsFirst dative values v × (get_first_possible_value dog ≡ ok (some v)))
    ⊎ (NoneMatches dative values × (get_first_possible_value dog ≡ ok none))
get_first_possible_value_lem_example = get_first_possible_value_lem dog values refl dative-IsMap

construct-dog :
    construct model (codes "dog") (some values) false ≡ ok (record dog { constraints = [] })
unfolding construct of_string
construct-dog = refl

construct-get_first_possible_value_example :
    let asked = record dog { constraints = dative } in
    Answers asked (get_first_possible_value asked)
construct-get_first_possible_value_example =
    construct-get_first_possible_value model (codes "dog") (some values) false
      (record dog { constraints = [] }) dative construct-dog

-- Items that are their own text.
abbrev ops : ConceptOps SpeakableString
ops = record {
  clone = λ c. c;
  put_constraint = λ _ _ c. c;
  clear_constraint = λ _ c. c;
  reset = λ c. c;
  feature_value = λ _ _. none;
  to_speakable_string = λ c. some c;
}

abbrev pets : ConceptList SpeakableString
pets = record {
  concepts = of_print (codes "a") ∷ (of_print (codes "b") ∷ (of_print (codes "c") ∷ []));
  constraints = [];
  before_first = of_print (codes "(");
  after_first = of_print [];
  item_delimiter = of_print (codes ", ");
  before_last = of_print (codes " and ");
  after_last = of_print (codes ")");
  item_prefix = of_print [];
  item_suffix = of_print [];
  avoid_affix_redundancy = false;
}

display-pieces_example :
    (s : SpeakableString) × (display (base_hooks pets) pets (λ x. some x) ≡ some s)
    × ((b : Bool)
        → said b s ≡ all_said b (pieces pets (λ x. x) (length pets.concepts) 0 pets.concepts))
unfolding is_empty of_print
display-pieces_example =
    display-pieces pets (λ x. x) (of_print (codes "a"))
      (of_print (codes "b") ∷ (of_print (codes "c") ∷ [])) refl (refl, (refl, (refl, tt)))

-- Repeated affixes are not avoided in `pets`, and are in its copy.
copy_list_lem_example : copy_list ops pets ≡ record pets { avoid_affix_redundancy = true }
copy_list_lem_example = copy_list_lem ops pets (refl, (refl, (refl, tt)))

put_constraint_lem_example :
    let l = put_constraint ops (codes "case") (codes "dative") pets in
    (get l 1 ≡ Option.map (ops.put_constraint (codes "case") (codes "dative")) (get pets 1))
    × (find (codes "case") l.constraints ≡ (
        if equals (codes "case") (codes "case")
        then some (codes "dative")
        else find (codes "case") pets.constraints))
put_constraint_lem_example =
    put_constraint_lem ops pets (codes "case") (codes "dative") (codes "case") 1
