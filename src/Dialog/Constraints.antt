-- ===== src/Dialog/Constraints.antt =====
-- src/inflection/dialog/SemanticFeatureConceptBase.cpp: the constraints of a concept, a
-- std::map from features to values, and the calls that name a feature by a string. Features are
-- ordered and compared by their names (SemanticFeature.cpp), so a feature stands as its name.
pub mod Laws
use inflection.Prelude.{
  Bool, true, false, Option, none, some, List, [], ◌∷◌, if◌then◌else◌, Outcome, ok, throws,
  illegal_argument, null_pointer, ◌>>=◌,
}
use inflection.Prelude.Strings.{U16String, equals}

abbrev pub FeatureMap : Type 0
FeatureMap = List (U16String × U16String)

-- std::map::find
unfoldable pub find : U16String → FeatureMap → Option U16String
find feature [] = none
find feature ((key, value) ∷ entries) =
    if equals key feature then some value else find feature entries

-- `entries[feature] = value`
unfoldable pub put : U16String → U16String → FeatureMap → FeatureMap
put feature value [] = (feature, value) ∷ []
put feature value ((key, old) ∷ entries) =
    if equals key feature then (key, value) ∷ entries else (key, old) ∷ put feature value entries

-- std::map::erase
unfoldable pub erase : U16String → FeatureMap → FeatureMap
erase feature [] = []
erase feature ((key, value) ∷ entries) =
    if equals key feature then erase feature entries else (key, value) ∷ erase feature entries

-- std::map::emplace and insert: an entry that is there stays.
unfoldable pub emplace : U16String → U16String → FeatureMap → FeatureMap
emplace feature value [] = (feature, value) ∷ []
emplace feature value ((key, old) ∷ entries) =
    if equals key feature then (key, old) ∷ entries else (key, old) ∷ emplace feature value entries

-- `constraints` of a concept, with its calls. A feature is looked up in the model's features by its
-- name; `feature_map` holds the names that the model knows, and is none for a null model.
pub record Constrained : Type 0 where
  pub feature_map : Option (List U16String)
  pub constraints : FeatureMap

is_known : U16String → List U16String → Bool
is_known name [] = false
is_known name (feature ∷ features) = if equals feature name then true else is_known name features

-- SemanticFeatureModel::getFeature
pub get_feature : List U16String → U16String → Option U16String
unfolding is_known
get_feature features name = if is_known name features then some name else none

-- `npc(getModel())`
pub get_model : Constrained → Outcome (List U16String)
get_model c = elim c.feature_map [ none ↦ throws null_pointer | some features ↦ ok features ]

pub get_constraint : U16String → Constrained → Option U16String
get_constraint feature c = find feature c.constraints

pub has_constraint : U16String → Constrained → Bool
has_constraint feature c = elim (find feature c.constraints) [ none ↦ false | some _ ↦ true ]

pub put_constraint : U16String → U16String → Constrained → Constrained
put_constraint feature value c = record c { constraints = put feature value c.constraints }

pub put_constraint_by_name : U16String → U16String → Constrained → Outcome Constrained
unfolding put_constraint
put_constraint_by_name name value c = do
  features ← get_model c
  elim (get_feature features name) [
    | none ↦ throws illegal_argument
    | some feature ↦ ok (put_constraint feature value c)
  ]

pub clear_constraint : U16String → Constrained → Constrained
clear_constraint feature c = record c { constraints = erase feature c.constraints }

pub clear_constraint_by_name : U16String → Constrained → Outcome Constrained
unfolding clear_constraint
clear_constraint_by_name name c = do
  features ← get_model c
  elim (get_feature features name) [
    | none ↦ throws illegal_argument
    | some feature ↦ ok (clear_constraint feature c)
  ]

pub reset : Constrained → Constrained
reset c = record c { constraints = [] }
