-- ===== src/Dialog/Constraints/Laws.antt =====
-- The map of constraints: what is found after an insertion or a removal.
use inflection.Prelude.{
  ◌≡◌, none, some, [], ◌∷◌, if◌then◌else◌, refl, arith, ok, throws, ◌>>=◌, illegal_argument,
}
use inflection.Prelude.Strings.{U16String, equals, equals_iff}
use inflection.Dialog.Constraints.{
  FeatureMap, find, put, erase, emplace, Constrained, get_feature, get_model, put_constraint,
  put_constraint_by_name, clear_constraint, clear_constraint_by_name, get_constraint,
}

pub find-put :
    (feature f : U16String) (value : U16String) (m : FeatureMap)
    → find f (put feature value m) ≡ (if equals feature f then some value else find f m)
unfolding find put
find-put feature f value [] = refl
find-put feature f value ((key, old) ∷ m) = ground (
  arith,
  find-put feature f value m,
  equals_iff key feature,
  equals_iff key f,
  equals_iff feature f,
)

pub find-erase :
    (feature f : U16String) (m : FeatureMap)
    → find f (erase feature m) ≡ (if equals feature f then none else find f m)
unfolding find erase
find-erase feature f [] = ground arith
find-erase feature f ((key, old) ∷ m) =
    ground (
      arith,
      find-erase feature f m,
      equals_iff key feature,
      equals_iff key f,
      equals_iff feature f,
    )

pub find-emplace :
    (feature f : U16String) (value : U16String) (m : FeatureMap)
    → find f (emplace feature value m) ≡ (
        if equals feature f
        then some (elim (find f m) [ none ↦ value | some old ↦ old ])
        else find f m)
unfolding find emplace
find-emplace feature f value [] = ground arith
find-emplace feature f value ((key, old) ∷ m) = ground (
  arith,
  find-emplace feature f value m,
  equals_iff key feature,
  equals_iff key f,
  equals_iff feature f,
)

-- After a feature is put by its name, a known name has the value and every other feature keeps its
-- own; after it is cleared by its name it has none. A name that the model does not know is refused
-- with an exception by both calls.
pub by_name_lem :
    (c : Constrained) (name value f : U16String)
    → ((put_constraint_by_name name value c >>= λ c'. ok (get_constraint f c'))
        ≡ get_model c >>= λ features. elim (get_feature features name) [
          | none ↦ throws illegal_argument
          | some _ ↦ ok (if equals name f then some value else get_constraint f c)
        ])
      × ((clear_constraint_by_name name c >>= λ c'. ok (get_constraint f c'))
          ≡ get_model c >>= λ features. elim (get_feature features name) [
            | none ↦ throws illegal_argument
            | some _ ↦ ok (if equals name f then none else get_constraint f c)
          ])
unfolding put_constraint_by_name clear_constraint_by_name put_constraint clear_constraint
    get_constraint get_feature get_model
by_name_lem c name value f = (
  ground (arith, find-put name f value c.constraints),
  ground (arith, find-erase name f c.constraints),
)

-- No key stands twice, as in a std::map.
abbrev pub Lacks : U16String → FeatureMap → Type 0
Lacks key m = find key m ≡ none

abbrev pub IsMap : FeatureMap → Type 0
IsMap [] = Unit
IsMap ((key, value) ∷ m) = Lacks key m × IsMap m

-- A map stays a map, with each key once, when a feature is put.
pub put-IsMap : (feature value : U16String) (m : FeatureMap) → IsMap m → IsMap (put feature value m)
unfolding put
put-IsMap feature value [] h = (unfold find in refl, tt)
put-IsMap feature value ((key, old) ∷ m) (lacks, h) = ground (
  arith,
  put-IsMap feature value m h,
  find-put feature key value m,
  equals_iff key feature,
  equals_iff feature key,
)

pub erase-IsMap : (feature : U16String) (m : FeatureMap) → IsMap m → IsMap (erase feature m)
unfolding erase
erase-IsMap feature [] h = tt
erase-IsMap feature ((key, old) ∷ m) (lacks, h) =
    ground (arith, erase-IsMap feature m h, find-erase feature key m)

pub emplace-IsMap :
    (feature value : U16String) (m : FeatureMap) → IsMap m → IsMap (emplace feature value m)
unfolding emplace
emplace-IsMap feature value [] h = (unfold find in refl, tt)
emplace-IsMap feature value ((key, old) ∷ m) (lacks, h) = ground (
  arith,
  emplace-IsMap feature value m h,
  find-emplace feature key value m,
  equals_iff key feature,
  equals_iff feature key,
)
