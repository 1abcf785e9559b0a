-- ===== src/Grammar/SynthesizerUtil/Choice.antt =====
-- The display value that is chosen, and the constraints that are merged.
use inflection.Prelude.{
  ℕ, suc, ◌≢◌, ◌⊎◌, ◌≤◌, ◌<◌, Bool, true, false, none, some, List, [], ◌∷◌, ◌++◌, if◌then◌else◌,
  ltb, ltb→lt, ◌≡◌, refl, arith, ap, All, Bool-cases, Option-cases, inl, inr, ◌∙◌, subst,
}
use inflection.Prelude.Strings.{U16String, equals, equals_iff}
use inflection.Dialog.Constraints.{FeatureMap, find, emplace}
use inflection.Dialog.Constraints.Laws.{find-emplace}
use inflection.Dialog.DisplayValue.{DisplayValue}
use inflection.Grammar.SynthesizerUtil.{
  choose, count_matches, get_the_best_display_value, insert_all,
  merge_constraints_with_display_value,
}

-- A number is that of the entries whose features have the same values among the constraints.
abbrev pub Counts : FeatureMap → FeatureMap → ℕ → Type 0
Counts constraints [] n = n ≡ 0
Counts constraints ((feature, value) ∷ entries) n =
    ((find feature constraints ≡ some value) × (m : ℕ) × (n ≡ suc m) × Counts constraints entries m)
    ⊎ ((find feature constraints ≢ some value) × Counts constraints entries n)

-- The number that the loop finds.
abbrev score : FeatureMap → DisplayValue → ℕ
score constraints value = count_matches constraints value.constraint_map

-- The value that has the highest number, the first of them.
abbrev IsBest : FeatureMap → List DisplayValue → DisplayValue → Type 0
IsBest constraints values best =
    (before : List DisplayValue) × (after : List DisplayValue) × (values ≡ before ++ (best ∷ after))
    × All (λ v. score constraints v < score constraints best) before
    × All (λ v. score constraints v ≤ score constraints best) after

head_value : (a b : DisplayValue) (xs ys : List DisplayValue) → a ∷ xs ≡ b ∷ ys → a ≡ b
head_value a b xs ys e = cc

first_le :
    (constraints : FeatureMap) (value best : DisplayValue) (values : List DisplayValue)
    → IsBest constraints (value ∷ values) best
    → score constraints value ≤ score constraints best
first_le constraints value best values ([], after, e, lows, highs) =
    omega (arith, ap (score constraints) (head_value value best values after e))
first_le constraints value best values (v ∷ before, after, e, (low, lows), highs) =
    omega
      (arith, low, ap (score constraints) (head_value value v values (before ++ (best ∷ after)) e))

-- A value with no more constraints than the one before it changes nothing.
passed :
    (constraints : FeatureMap) (chosen value best : DisplayValue) (values : List DisplayValue)
    → score constraints value ≤ score constraints chosen
    → IsBest constraints (chosen ∷ values) best
    → IsBest constraints (chosen ∷ (value ∷ values)) best
passed constraints chosen value best values le ([], after, e, lows, highs) =
    let same = ap (score constraints) (head_value chosen best values after e) in
    ([], value ∷ after, cc, tt, (omega (arith, le, same), highs))
passed constraints chosen value best values le (v ∷ before, after, e, (low, lows), highs) =
    let same = ap (score constraints) (head_value chosen v values (before ++ (best ∷ after)) e) in
    (v ∷ (value ∷ before), after, cc, (low, (omega (arith, le, low, same), lows)), highs)

replaced :
    (constraints : FeatureMap) (chosen value best : DisplayValue) (values : List DisplayValue)
    → score constraints chosen < score constraints value
    → IsBest constraints (value ∷ values) best
    → IsBest constraints (chosen ∷ (value ∷ values)) best
replaced constraints chosen value best values lt (before, after, e, lows, highs) =
    let le = first_le constraints value best values (before, after, e, lows, highs) in
    (chosen ∷ before, after, ap (λ t. chosen ∷ t) e, (omega (arith, lt, le), lows), highs)

step_value :
    (constraints : FeatureMap) (chosen value : DisplayValue) (values : List DisplayValue) (b : Bool)
    → ltb (score constraints chosen) (score constraints value) ≡ b
    → choose constraints (some (chosen, score constraints chosen)) (value ∷ values)
      ≡ choose constraints
          (if b
            then some (value, score constraints value)
            else some (chosen, score constraints chosen))
          values
unfolding choose
step_value constraints chosen value values b e =
    ap
      (λ (b : Bool).
        choose constraints
          (if b
            then some (value, score constraints value)
            else some (chosen, score constraints chosen))
          values)
      e

-- The chosen value and what was passed since, in front of the values to come.
choose_lem :
    (constraints : FeatureMap) (chosen : DisplayValue) (values : List DisplayValue)
    → (best : DisplayValue) × (choose constraints (some (chosen, score constraints chosen)) values
        ≡ some best)
      × IsBest constraints (chosen ∷ values) best
unfolding choose
choose_lem constraints chosen [] = (chosen, refl, ([], [], refl, tt, tt))
choose_lem constraints chosen (value ∷ values) =
    elim (Bool-cases (ltb (score constraints chosen) (score constraints value))) [
      | inl more ↦
          let (best, e, is_best) = choose_lem constraints value values in
          let lt = ltb→lt (score constraints chosen) (score constraints value) more in
          (
            best,
            step_value constraints chosen value values true more ∙ e,
            replaced constraints chosen value best values lt is_best,
          )
      | inr less ↦
          let (best, e, is_best) = choose_lem constraints chosen values in
          (
            best,
            step_value constraints chosen value values false less ∙ e,
            passed constraints chosen value best values (ground (arith, less)) is_best,
          )
    ]

count_matches-Counts :
    (constraints entries : FeatureMap)
    → Counts constraints entries (count_matches constraints entries)
unfolding count_matches
count_matches-Counts constraints [] = refl
count_matches-Counts constraints ((feature, value) ∷ entries) =
    let n = count_matches constraints entries in
    let rest = count_matches-Counts constraints entries in
    let whole = count_matches constraints ((feature, value) ∷ entries) in
    elim (Option-cases (find feature constraints)) [
      | inl e ↦
          let passed : n ≡ whole = ground (arith, e) in
          inr (λ k. ground (arith, e, k), subst (Counts constraints entries) passed rest)
      | inr (own, e) ↦ elim (Bool-cases (equals own value)) [
        | inl same ↦
            inl (ground (arith, e, same, equals_iff own value), n, ground (arith, e, same), rest)
        | inr other ↦
            let passed : n ≡ whole = ground (arith, e, other) in
            inr (
              λ k. ground (arith, e, k, other, equals_iff own value),
              subst (Counts constraints entries) passed rest,
            )
      ]
    ]

-- The first of the values with the most of the constraints: those before it have fewer of them, those
-- after it no more.
abbrev pub HasMost : FeatureMap → List DisplayValue → DisplayValue → Type 0
HasMost constraints values best =
    (before : List DisplayValue) × (after : List DisplayValue) × (most : ℕ) × (values
      ≡ before ++ (best ∷ after))
    × Counts constraints best.constraint_map most
    × All (λ v. (n : ℕ) × Counts constraints v.constraint_map n × (n < most)) before
    × All (λ v. (n : ℕ) × Counts constraints v.constraint_map n × (n ≤ most)) after

counted :
    (constraints : FeatureMap) (P : ℕ → Type 0) (values : List DisplayValue)
    → All (λ v. P (score constraints v)) values
    → All (λ v. (n : ℕ) × Counts constraints v.constraint_map n × P n) values
counted constraints P [] h = tt
counted constraints P (v ∷ values) (p, h) = (
  (score constraints v, count_matches-Counts constraints v.constraint_map, p),
  counted constraints P values h,
)

-- Of display values that are at least one, the value with the most constraints of those asked for
-- is chosen, with the same values; of several with as many, the first.
pub get_the_best_display_value_lem :
    (value : DisplayValue) (values : List DisplayValue) (constraints : FeatureMap)
    → (best : DisplayValue) × (get_the_best_display_value (value ∷ values) constraints ≡ some best)
      × HasMost constraints (value ∷ values) best
unfolding get_the_best_display_value choose
get_the_best_display_value_lem value values constraints =
    let (best, e, (before, after, split, lows, highs)) = choose_lem constraints value values in
    let most = score constraints best in
    (
      best,
      e,
      (
        before,
        after,
        most,
        split,
        count_matches-Counts constraints best.constraint_map,
        counted constraints (λ n. n < most) before lows,
        counted constraints (λ n. n ≤ most) after highs,
      ),
    )

find-insert_all :
    (f : U16String) (constraints entries : FeatureMap)
    → find f (insert_all constraints entries)
      ≡ elim (find f constraints) [ none ↦ find f entries | some value ↦ some value ]
unfolding insert_all find
find-insert_all f constraints [] = elim (Option-cases (find f constraints)) [
  | inl e ↦ ground (arith, e)
  | inr (value, e) ↦ ground (arith, e)
]
find-insert_all f constraints ((feature, value) ∷ entries) =
    let step = find-insert_all f (emplace feature value constraints) entries in
    let placed = find-emplace feature f value constraints in
    elim (Option-cases (find f constraints)) [
      | inl e ↦ elim (Bool-cases (equals feature f)) [
        | inl same ↦ ground (arith, e, same, step, placed)
        | inr other ↦ ground (arith, e, other, step, placed)
      ]
      | inr (old, e) ↦ elim (Bool-cases (equals feature f)) [
        | inl same ↦ ground (arith, e, same, step, placed)
        | inr other ↦ ground (arith, e, other, step, placed)
      ]
    ]

-- The merged constraints have the value that was asked for where there is one, and the display
-- value's own elsewhere.
pub merge_constraints_with_display_value_lem :
    (f : U16String) (value : DisplayValue) (constraints : FeatureMap)
    → find f (merge_constraints_with_display_value value constraints)
      ≡ elim (find f constraints) [ none ↦ find f value.constraint_map | some own ↦ some own ]
unfolding merge_constraints_with_display_value
merge_constraints_with_display_value_lem f value constraints =
    find-insert_all f constraints value.constraint_map
