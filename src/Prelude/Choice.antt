-- ===== src/Prelude/Choice.antt =====
-- The first of the best of several values, as a loop with a strict comparison finds it.
use mathlib.Core.Bool.{Bool, true, false, ◌&&◌}
use mathlib.Core.List.{List, [], ◌∷◌, ◌++◌}
use mathlib.Core.Option.{Option, none, some}
use mathlib.Core.Path.{◌≡◌, refl, ap, sym, ◌∙◌, subst}
use native.Mathlib.Omega.{arith}
use inflection.Prelude.Lists.{All}
use inflection.Prelude.Tests.{if◌then◌else◌, Bool-cases}
use mathlib.Core.Logic.{◌⊎◌, inl, inr}

-- The values that pass a test.
abbrev pub keep {ℓ} : {A : Type ℓ} → (A → Bool) → List A → List A
keep test [] = []
keep test (a ∷ rest) = if test a then a ∷ keep test rest else keep test rest

-- What a comparison has to promise: it is strict, and not being less is transitive.
pub record IsStrict {ℓ} {S : Type ℓ} (less : S → S → Bool) : Type ℓ where
  pub asymmetric : (a b : S) → less a b ≡ true → less b a ≡ false
  pub negatively_transitive : (a b c : S) → less a b ≡ false → less b c ≡ false → less a c ≡ false

module _ {ℓ κ} {A : Type ℓ} {S : Type κ} (less : S → S → Bool) (key : A → S) where
  -- The loop, with the value chosen so far.
  abbrev pub choose_best : A → List A → A
  choose_best chosen [] = chosen
  choose_best chosen (a ∷ rest) =
      if less (key chosen) (key a) then choose_best a rest else choose_best chosen rest

  -- Those before it are less, those after it are not more.
  abbrev pub IsFirstBest : List A → A → Type ℓ
  IsFirstBest values best =
      (before : List A) × (after : List A) × (values ≡ before ++ (best ∷ after))
      × All (λ v. less (key v) (key best) ≡ true) before
      × All (λ v. less (key best) (key v) ≡ false) after

module _ {ℓ κ} {A : Type ℓ} {S : Type κ} (less : S → S → Bool) (key : A → S)
    (strict : IsStrict less) where
  less_trans : (a b c : S) → less a b ≡ true → less b c ≡ true → less a c ≡ true
  less_trans a b c h k = elim (Bool-cases (less a c)) [
    | inl e ↦ e
    | inr e ↦
        let back = strict.asymmetric b c k in
        absurd (ground (arith, h, strict.negatively_transitive a c b e back))
  ]

  less_of_not : (a b c : S) → less a b ≡ false → less a c ≡ true → less b c ≡ true
  less_of_not a b c h k = elim (Bool-cases (less b c)) [
    | inl e ↦ e
    | inr e ↦ absurd (ground (arith, k, strict.negatively_transitive a b c h e))
  ]

  head_eq : (a b : A) (xs ys : List A) → a ∷ xs ≡ b ∷ ys → a ≡ b
  head_eq a b xs ys e = cc

  -- A value that is better than the one chosen before it.
  replaced :
      (chosen a best : A) (rest : List A)
      → less (key chosen) (key a) ≡ true
      → IsFirstBest less key (a ∷ rest) best
      → IsFirstBest less key (chosen ∷ (a ∷ rest)) best
  replaced chosen a best rest h ([], after, e, lows, highs) =
      let same = head_eq a best rest after e in
      (
        chosen ∷ [],
        after,
        ap (λ t. chosen ∷ t) e,
        (ap (λ t. less (key chosen) (key t)) (sym same) ∙ h, tt),
        highs,
      )
  replaced chosen a best rest h (v ∷ before, after, e, (low, lows), highs) =
      let same = head_eq a v rest (before ++ (best ∷ after)) e in
      let low_a = ap (λ t. less (key t) (key best)) same ∙ low in
      (
        chosen ∷ (v ∷ before),
        after,
        ap (λ t. chosen ∷ t) e,
        (less_trans (key chosen) (key a) (key best) h low_a, (low, lows)),
        highs,
      )

  -- A value that is not better changes nothing.
  passed :
      (chosen a best : A) (rest : List A)
      → less (key chosen) (key a) ≡ false
      → IsFirstBest less key (chosen ∷ rest) best
      → IsFirstBest less key (chosen ∷ (a ∷ rest)) best
  passed chosen a best rest h ([], after, e, lows, highs) =
      let same = head_eq chosen best rest after e in
      ([], a ∷ after, cc, tt, (ap (λ t. less (key t) (key a)) (sym same) ∙ h, highs))
  passed chosen a best rest h (v ∷ before, after, e, (low, lows), highs) =
      let same = head_eq chosen v rest (before ++ (best ∷ after)) e in
      let low_chosen = ap (λ t. less (key t) (key best)) same ∙ low in
      (
        v ∷ (a ∷ before),
        after,
        cc,
        (low, (less_of_not (key chosen) (key a) (key best) h low_chosen, lows)),
        highs,
      )

  pub choose_best_lem :
      (chosen : A) (values : List A)
      → IsFirstBest less key (chosen ∷ values) (choose_best less key chosen values)
  choose_best_lem chosen [] = ([], [], refl, tt, tt)
  choose_best_lem chosen (a ∷ rest) = elim (Bool-cases (less (key chosen) (key a))) [
    | inl h ↦
        subst (IsFirstBest less key (chosen ∷ (a ∷ rest)))
          (sym (
            ap
              (λ (b : Bool).
                if b then choose_best less key a rest else choose_best less key chosen rest)
              h))
          (replaced chosen a (choose_best less key a rest) rest h (choose_best_lem a rest))
    | inr h ↦
        subst (IsFirstBest less key (chosen ∷ (a ∷ rest)))
          (sym (
            ap
              (λ (b : Bool).
                if b then choose_best less key a rest else choose_best less key chosen rest)
              h))
          (passed chosen a (choose_best less key chosen rest) rest h (choose_best_lem chosen rest))
  ]

-- The loop with a test, and with nothing chosen at first.
module _ {ℓ κ} {A : Type ℓ} {S : Type κ} (less : S → S → Bool) (key : A → S) where
  abbrev pub replaces : Option A → A → Bool
  replaces none a = true
  replaces (some best) a = less (key best) (key a)

module _ {ℓ κ} {A : Type ℓ} {S : Type κ} (less : S → S → Bool) (key : A → S) (test : A → Bool) where
  abbrev pub choose_from : Option A → List A → Option A
  choose_from best [] = best
  choose_from best (a ∷ rest) =
      choose_from (if test a && replaces less key best a then some a else best) rest

  -- There is nothing to choose, or the first of the best is chosen.
  abbrev pub Chosen : List A → Option A → Type ℓ
  Chosen values result =
      ((values ≡ []) × (result ≡ none))
      ⊎ ((best : A) × IsFirstBest less key values best × (result ≡ some best))

  choose_from-some :
      (best : A) (xs : List A)
      → choose_from (some best) xs ≡ some (choose_best less key best (keep test xs))
  choose_from-some best [] = refl
  choose_from-some best (a ∷ rest) =
      let skip = choose_from-some best rest in
      let replaced = choose_from-some a rest in
      elim (Bool-cases (test a)) [
        | inr e ↦ ground (arith, e, skip)
        | inl e ↦ elim (Bool-cases (less (key best) (key a))) [
          | inl l ↦ ground (arith, e, l, replaced)
          | inr l ↦ ground (arith, e, l, skip)
        ]
      ]

  pub choose_from-Chosen :
      (strict : IsStrict less) (xs : List A) → Chosen (keep test xs) (choose_from none xs)
  choose_from-Chosen strict [] = inl (refl, refl)
  choose_from-Chosen strict (a ∷ rest) =
      let at : Bool → Type ℓ = λ b.
        Chosen (if b then a ∷ keep test rest else keep test rest)
          (choose_from (if b && true then some a else none) rest) in
      elim (Bool-cases (test a)) [
        | inl e ↦ subst at (sym e) (
            inr (
              choose_best less key a (keep test rest),
              choose_best_lem less key strict a (keep test rest),
              choose_from-some a rest,
            ))
        | inr e ↦ subst at (sym e) (choose_from-Chosen strict rest)
      ]

  -- What nothing is better than stays.
  pub choose_from-stays :
      (best : A) (xs : List A)
      → ((a : A) → less (key best) (key a) ≡ false)
      → choose_from (some best) xs ≡ some best
  choose_from-stays best [] h = refl
  choose_from-stays best (a ∷ rest) h = ground (arith, h a, choose_from-stays best rest h)
