-- ===== src/Dialog/ConceptList/Copies.antt =====
-- The calls that change or copy a list, against the list's own text.
use inflection.Prelude.{
  ℕ, zero, suc, true, none, some, List, [], ◌∷◌, map, All, ◌≡◌, refl, ap, ap₂, arith, if◌then◌else◌,
  get_elem?,
}
use mathlib.Core.Option
use inflection.Prelude.Strings.{U16String, equals, equals_iff}
use inflection.Dialog.Constraints.{find, put}
use inflection.Dialog.Constraints.Laws.{find-put, find-erase}
use inflection.Dialog.SpeakableString.Laws.{copy_lem}
use inflection.Dialog.ConceptList.{
  ConceptOps, ConceptList, copy_list, put_constraint, clear_constraint, get,
}

map_same : {C : Type 0} (f : C → C) (xs : List C) → All (λ x. f x ≡ x) xs → map f xs ≡ xs
map_same f [] h = refl
map_same f (x ∷ xs) (e, h) = ap₂ ◌∷◌ e (map_same f xs h)

-- When each item of a list is cloned as it is: the copy of the list has the same items, constraints, ends,
-- delimiters and affixes, and avoids repeated affixes, whether the list does or not.
pub copy_list_lem :
    {C : Type 0} (ops : ConceptOps C) (l : ConceptList C)
    → All (λ x. ops.clone x ≡ x) l.concepts
    → copy_list ops l ≡ record l { avoid_affix_redundancy = true }
unfolding copy_list
copy_list_lem ops l h = simp (copy_lem, map_same ops.clone l.concepts h)

module _ {C : Type 0} where
  get_elem?-map :
      (f : C → C) (xs : List C) (i : ℕ) → get_elem? (map f xs) i ≡ Option.map f (get_elem? xs i)
  get_elem?-map f [] i = refl
  get_elem?-map f (x ∷ xs) zero = refl
  get_elem?-map f (x ∷ xs) (suc i) = get_elem?-map f xs i

  map_undo : (f g : C → C) (xs : List C) → ((x : C) → g (f x) ≡ x) → map g (map f xs) ≡ xs
  map_undo f g [] h = refl
  map_undo f g (x ∷ xs) h = ap₂ ◌∷◌ (h x) (map_undo f g xs h)

-- A constraint that is put on a list is put on every item, and is the list's own value of that
-- feature, while its other features keep theirs.
pub put_constraint_lem :
    {C : Type 0} (ops : ConceptOps C) (l : ConceptList C) (feature value f : U16String) (i : ℕ)
    → let l' = put_constraint ops feature value l in
      (get l' i ≡ Option.map (ops.put_constraint feature value) (get l i))
      × (find f l'.constraints ≡ (if equals feature f then some value else find f l.constraints))
unfolding put_constraint get
put_constraint_lem ops l feature value f i = (
  get_elem?-map (ops.put_constraint feature value) l.concepts i,
  find-put feature f value l.constraints,
)

-- When clearing a constraint of an item undoes putting it, and the list had no value of the
-- feature: clearing a constraint of the list undoes putting it, for every item and every feature.
clear-put :
    {C : Type 0} (ops : ConceptOps C) (l : ConceptList C) (feature value f : U16String) (i : ℕ)
    → ((x : C) → ops.clear_constraint feature (ops.put_constraint feature value x) ≡ x)
    → find feature l.constraints ≡ none
    → let l' = clear_constraint ops feature (put_constraint ops feature value l) in
      (get l' i ≡ get l i) × (find f l'.constraints ≡ find f l.constraints)
unfolding put_constraint clear_constraint get
clear-put {C} ops l feature value f i undo fresh = (
  ap (λ (xs : List C). get_elem? xs i) (map_undo _ _ l.concepts undo),
  ground (
    arith,
    fresh,
    find-erase feature f (put feature value l.constraints),
    find-put feature f value l.constraints,
    equals_iff feature f,
  ),
)
