-- ===== src/Dictionary/Inflector/Rows.antt =====
-- The inflections of a pattern as a list, and the loops of Inflector_InflectionPattern.cpp over them.
use inflection.Prelude.{
  ℕ, zero, suc, Bool, false, List, [], ◌∷◌, Outcome, ok, ◌>>=◌, bind-ok, bind-cong, ◌≡◌, ap, ◌∙◌,
  sym, arith, Bool-cases, inl, inr, ◌||◌,
}
use inflection.Dictionary.Inflector.{
  InflectorDictionary, Pattern, Inflection, get_inflection_at_position, each_position,
  for_inflections, any_position, any_inflection, rounds,
}

-- A loop that may fail, over a list.
abbrev pub fold {ℓ κ} : {A : Type ℓ} {S : Type κ} → (A → S → Outcome S) → List A → S → Outcome S
fold body [] state = ok state
fold body (a ∷ rest) state = body a state >>= λ next. fold body rest next

abbrev pub any {ℓ} : {A : Type ℓ} → (A → Bool) → List A → Bool
any test [] = false
any test (a ∷ rest) = test a || any test rest

module _ (d : InflectorDictionary) (pattern : Pattern) where
  unfoldable pub rows_from : ℕ → ℕ → Outcome (List Inflection)
  rows_from zero i = ok []
  rows_from (suc n) i = do
    inflection ← get_inflection_at_position d pattern i
    rest ← rows_from n (suc i)
    ok (inflection ∷ rest)

  -- All the inflections, where every row can be read.
  unfoldable pub rows : Outcome (List Inflection)
  rows = rows_from (rounds pattern.num_of_inflections) 0

  -- A row and the rows after it.
  rows_from-suc :
      (n i : ℕ) (xs : List Inflection)
      → rows_from (suc n) i ≡ ok xs
      → (x : Inflection) × (rest : List Inflection) × (get_inflection_at_position d pattern i
          ≡ ok x)
        × (rows_from n (suc i) ≡ ok rest)
        × (xs ≡ x ∷ rest)
  unfolding rows_from
  rows_from-suc n i xs e =
      let (x, x_e, e') = bind-ok (get_inflection_at_position d pattern i) _ xs e in
      let (rest, rest_e, last) = bind-ok (rows_from n (suc i)) (λ rest. ok (x ∷ rest)) xs e' in
      (x, rest, x_e, rest_e, ground (arith, last))

  each_position-rows {ℓ} :
      {S : Type ℓ} (body : Inflection → S → Outcome S) (n i : ℕ) (state : S) (xs : List Inflection)
      → rows_from n i ≡ ok xs
      → each_position d pattern body n i state ≡ fold body xs state
  unfolding each_position rows_from
  each_position-rows body zero i state xs e =
      ap (λ t. fold body t state) {x = []} {y = xs} (ground (arith, e))
  each_position-rows body (suc n) i state xs e =
      let (x, rest, x_e, rest_e, xs_e) = rows_from-suc n i xs e in
      ap (λ m. m >>= λ inflection. body inflection state >>= each_position d pattern body n (suc i))
        x_e
      ∙ bind-cong (body x state) (each_position d pattern body n (suc i)) (fold body rest)
          (λ next. each_position-rows body n (suc i) next rest rest_e)
      ∙ ap (λ t. fold body t state) (sym xs_e)

  pub for_inflections-rows {ℓ} :
      {S : Type ℓ} (body : Inflection → S → Outcome S) (state : S) (xs : List Inflection)
      → rows ≡ ok xs
      → for_inflections d pattern body state ≡ fold body xs state
  unfolding for_inflections rows
  for_inflections-rows body state xs e =
      each_position-rows body (rounds pattern.num_of_inflections) 0 state xs e

  any_position-rows :
      (test : Inflection → Bool) (n i : ℕ) (xs : List Inflection)
      → rows_from n i ≡ ok xs
      → any_position d pattern test n i ≡ ok (any test xs)
  unfolding any_position rows_from
  any_position-rows test zero i xs e =
      ap (λ t. ok (any test t)) {x = []} {y = xs} (ground (arith, e))
  any_position-rows test (suc n) i xs e =
      let (x, rest, x_e, rest_e, xs_e) = rows_from-suc n i xs e in
      let later = any_position-rows test n (suc i) rest rest_e in
      elim (Bool-cases (test x)) [
        | inl yes_e ↦ ground (arith, x_e, xs_e, yes_e)
        | inr no_e ↦ ground (arith, x_e, xs_e, no_e, later)
      ]

  pub any_inflection-rows :
      (test : Inflection → Bool) (xs : List Inflection)
      → rows ≡ ok xs
      → any_inflection d pattern test ≡ ok (any test xs)
  unfolding any_inflection rows
  any_inflection-rows test xs e = any_position-rows test (rounds pattern.num_of_inflections) 0 xs e
