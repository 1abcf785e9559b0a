-- ===== src/Dialog/PronounConcept/Initial/Merged.antt =====
-- What the constructor from a pronoun leaves in the constraints.
use inflection.Prelude.{
  Bool, true, ◌&&◌, Option, none, some, [], ◌∷◌, ◌++◌, if◌then◌else◌, ◌≡◌, refl, arith, ap, ◌∙◌,
  sym, subst, inl, inr, Bool-cases, Option-cases,
}
use inflection.Prelude.Strings.{U16String, equals, equals_iff, is_empty}
use inflection.Dialog.Constraints.{FeatureMap, find, put, emplace}
use inflection.Dialog.Constraints.Laws.{find-put, find-emplace, IsMap, put-IsMap, emplace-IsMap}
use inflection.Dialog.PronounConcept.Initial.{insert_or_clear, insert_constraints, clear_ambiguous}

-- Every pair of a feature has this value.
abbrev pub unanimous : U16String → U16String → FeatureMap → Bool
unanimous f v [] = true
unanimous f v ((key, value) ∷ pairs) =
    (if equals key f then equals value v else true) && unanimous f v pairs

-- The value that all the pairs of a feature have, or an empty one if they differ; none without a pair.
abbrev pub agreed : U16String → FeatureMap → Option U16String
agreed f [] = none
agreed f ((key, value) ∷ pairs) =
    if equals key f then some (if unanimous f value pairs then value else []) else agreed f pairs

abbrev pub unless_empty : Option U16String → Option U16String
unless_empty none = none
unless_empty (some v) = if is_empty v then none else some v

find-insert_or_clear :
    (f k v : U16String) (m : FeatureMap)
    → find f (insert_or_clear k v m) ≡ (
        if equals k f
        then some (elim (find f m) [ none ↦ v | some old ↦ if equals old v then old else [] ])
        else find f m)
unfolding insert_or_clear
find-insert_or_clear f k v m = elim (Bool-cases (equals k f)) [
  | inl same ↦
      let eq : k ≡ f = (equals_iff k f).0 same in
      let at : find k m ≡ find f m = ap (λ t. find t m) eq in
      elim (Option-cases (find k m)) [
        | inl e ↦ ground (arith, same, e, at, find-emplace k f v m)
        | inr (old, e) ↦ ground (arith, same, e, at, find-put k f [] m)
      ]
  | inr other ↦ elim (Option-cases (find k m)) [
    | inl e ↦ ground (arith, other, e, find-emplace k f v m)
    | inr (old, e) ↦ ground (arith, other, e, find-put k f [] m)
  ]
]

pub find-insert_constraints :
    (f : U16String) (pairs m : FeatureMap)
    → find f (insert_constraints pairs m) ≡ elim (find f m) [
      | none ↦ agreed f pairs
      | some v ↦ some (if unanimous f v pairs then v else [])
    ]
unfolding insert_constraints
find-insert_constraints f [] m = elim (Option-cases (find f m)) [
  | inl e ↦ ground (arith, e)
  | inr (v, e) ↦ ground (arith, e)
]
find-insert_constraints f ((k, v) ∷ pairs) m =
    let later = find-insert_constraints f pairs (insert_or_clear k v m) in
    let here = find-insert_or_clear f k v m in
    elim (Option-cases (find f m)) [
      | inl e ↦ ground (arith, e, later, here)
      | inr (old, e) ↦ elim (Bool-cases (equals k f)) [
        | inr other ↦ ground (arith, e, later, here, other)
        | inl same ↦ elim (Bool-cases (equals old v)) [
          | inl agree ↦
              ground (arith, e, later, here, same, agree, equals_iff old v, equals_iff v old)
          | inr differ ↦
              ground (arith, e, later, here, same, differ, equals_iff old v, equals_iff v old)
        ]
      ]
    ]

insert_or_clear-IsMap : (k v : U16String) (m : FeatureMap) → IsMap m → IsMap (insert_or_clear k v m)
unfolding insert_or_clear
insert_or_clear-IsMap k v m h =
    let cases : Option U16String → FeatureMap =
      λ o. elim o [ none ↦ emplace k v m | some old ↦ if equals old v then m else put k [] m ] in
    elim (Option-cases (find k m)) [
      | inl e ↦ subst (λ o. IsMap (cases o)) (sym e) (emplace-IsMap k v m h)
      | inr (old, e) ↦
          subst (λ o. IsMap (cases o)) (sym e)
            (elim (Bool-cases (equals old v)) [
              | inl same ↦ subst (λ (b : Bool). IsMap (if b then m else put k [] m)) (sym same) h
              | inr other ↦
                  subst (λ (b : Bool). IsMap (if b then m else put k [] m)) (sym other)
                    (put-IsMap k [] m h)
            ])
    ]

pub insert_constraints-IsMap : (pairs m : FeatureMap) → IsMap m → IsMap (insert_constraints pairs m)
unfolding insert_constraints
insert_constraints-IsMap [] m h = h
insert_constraints-IsMap ((k, v) ∷ pairs) m h =
    insert_constraints-IsMap pairs (insert_or_clear k v m) (insert_or_clear-IsMap k v m h)

pub find-clear_ambiguous :
    (f : U16String) (m : FeatureMap)
    → IsMap m
    → find f (clear_ambiguous m) ≡ unless_empty (find f m)
unfolding clear_ambiguous find
find-clear_ambiguous f [] h = refl
find-clear_ambiguous f ((k, v) ∷ m) (lacks, h) =
    let later = find-clear_ambiguous f m h in
    elim (Bool-cases (equals k f)) [
      | inl same ↦
          let gone : find f m ≡ none = ap (λ t. find t m) (sym ((equals_iff k f).0 same)) ∙ lacks in
          ground (arith, later, same, gone)
      | inr other ↦ ground (arith, later, other)
    ]

pub insert_constraints-append :
    (ps qs m : FeatureMap)
    → insert_constraints (ps ++ qs) m ≡ insert_constraints qs (insert_constraints ps m)
unfolding insert_constraints
insert_constraints-append [] qs m = refl
insert_constraints-append ((k, v) ∷ ps) qs m =
    insert_constraints-append ps qs (insert_or_clear k v m)
