-- ===== src/Dialog/PronounConcept/Initial/Result.antt =====
-- What the constructor from a pronoun makes of the table of a language.
use inflection.Prelude.{
  ℕ, suc, ◌+◌, Bool, true, false, Option, none, some, List, [], ◌∷◌, ◌++◌, if◌then◌else◌, ◌==◌,
  length, length-append, ok, throws, illegal_argument, ◌≡◌, refl, arith, ap, ◌∙◌, sym, append_assoc,
  All, ◌⊎◌, inl, inr, Bool-cases, Option-cases,
}
use inflection.Prelude.Choice.{keep}
use inflection.Prelude.Strings.{U16String}
use inflection.Dialog.Constraints.{FeatureMap, find}
use inflection.Dialog.PronounConcept.{
  PronounEntry, PronounData, PronounModel, PronounConcept, num_values, construct, emplace_all,
  customized_entries,
}
use inflection.Dialog.PronounConcept.Choice.{entries, get_pronoun_entry-middle}
use inflection.Dialog.PronounConcept.Initial.{
  remove_last_space, insert_constraints, clear_ambiguous, initial_loop, construct_initial,
}
use inflection.Dialog.PronounConcept.Initial.Merged.{
  agreed, unless_empty, find-insert_constraints, insert_constraints-IsMap, find-clear_ambiguous,
  insert_constraints-append,
}

-- The constraints of entries, one after the other.
abbrev pub pairs_of : List PronounEntry → FeatureMap
pairs_of [] = []
pairs_of (entry ∷ rest) = entry.constraint_data ++ pairs_of rest

nil_of_length : (xs : List PronounEntry) → length xs ≡ 0 → xs ≡ []
nil_of_length [] h = refl
nil_of_length (x ∷ xs) h = absurd (omega (arith, h))

module _ (same : U16String → U16String → Bool) (initial_pronoun : U16String) where
  -- An entry is the pronoun that was given.
  abbrev pub is_named : PronounEntry → Bool
  is_named entry = same initial_pronoun (remove_last_space entry.word)

  -- The place of the first such entry, where the first of the list has the place `start`.
  abbrev first_named : ℕ → List PronounEntry → Option ℕ
  first_named start [] = none
  first_named start (entry ∷ rest) =
      if is_named entry then some start else first_named (suc start) rest

  abbrev or_else : Option ℕ → Option ℕ → Option ℕ
  or_else none other = other
  or_else (some found) other = some found

  initial_loop_lem :
      (p : PronounData) (before xs : List PronounEntry) (defaults : FeatureMap) (index : Option ℕ)
      → entries p ≡ before ++ xs
      → initial_loop same p initial_pronoun (length xs) (length before) defaults index
        ≡ ok (
          insert_constraints (pairs_of (keep is_named xs)) defaults,
          or_else index (first_named (length before) xs),
        )
  unfolding initial_loop insert_constraints
  initial_loop_lem p before [] defaults none e = refl
  initial_loop_lem p before [] defaults (some found) e = refl
  initial_loop_lem p before (x ∷ xs) defaults index e =
      let at = get_pronoun_entry-middle p before xs x e in
      let next : suc (length before) ≡ length (before ++ (x ∷ [])) =
        omega (arith, length-append before (x ∷ [])) in
      let e' = e ∙ sym (append_assoc before (x ∷ []) xs) in
      let now : Option ℕ = elim index [ none ↦ some (length before) | some found ↦ some found ] in
      let added = insert_constraints x.constraint_data defaults in
      let skip = initial_loop_lem p (before ++ (x ∷ [])) xs defaults index e' in
      let taken = initial_loop_lem p (before ++ (x ∷ [])) xs added now e' in
      let joined =
        insert_constraints-append x.constraint_data (pairs_of (keep is_named xs)) defaults in
      elim (Bool-cases (is_named x)) [
        | inr h ↦ ground (arith, at, h, next, skip)
        | inl h ↦ elim (Option-cases index) [
          | inl i ↦ ground (arith, at, h, next, taken, i, joined)
          | inr (found, i) ↦ ground (arith, at, h, next, taken, i, joined)
        ]
      ]

  -- Where the first is.
  first_named-split :
      (start : ℕ) (xs : List PronounEntry)
      → ((keep is_named xs ≡ []) × (first_named start xs ≡ none))
        ⊎ ((before : List PronounEntry) × (entry : PronounEntry) × (after : List PronounEntry) × (xs
              ≡ before ++ (entry ∷ after))
            × All (λ other. is_named other ≡ false) before
            × (is_named entry ≡ true)
            × (first_named start xs ≡ some (start + length before)))
  first_named-split start [] = inl (refl, refl)
  first_named-split start (x ∷ xs) = elim (Bool-cases (is_named x)) [
    | inl h ↦ inr (
      [],
      x,
      xs,
      refl,
      tt,
      h,
      ground (arith, h, ap some {x = start} {y = start + 0} (omega arith)),
    )
    | inr h ↦ elim (first_named-split (suc start) xs) [
      | inl (no_entry, no_place) ↦ inl (ground (arith, h, no_entry), ground (arith, h, no_place))
      | inr (before, entry, after, xs_e, others, named, place) ↦ inr (
        x ∷ before,
        entry,
        after,
        ap (λ t. x ∷ t) xs_e,
        (h, others),
        named,
        ground (
          arith,
          h,
          place,
          ap some {x = suc start + length before} {y = start + suc (length before)} (omega arith),
        ),
      )
    ]
  ]

  -- The concept with what the loop has found.
  abbrev made : PronounModel → ℕ → PronounConcept
  made model found = record {
    model = model;
    pronoun_data = record {
      customized_pronoun_data = [];
      default_pronoun_data = model.default_pronoun_data;
    };
    constraints = [];
    default_constraints =
        clear_ambiguous
          (insert_constraints (pairs_of (keep is_named model.default_pronoun_data)) []);
    default_pronoun_index = some found;
  }

  construct_initial-first :
      (model : PronounModel)
      → construct_initial same model initial_pronoun
        ≡ elim (first_named 0 model.default_pronoun_data) [
          | none ↦ throws illegal_argument
          | some found ↦ ok (made model found)
        ]
  unfolding construct_initial construct num_values customized_entries emplace_all
  construct_initial-first model =
      let table = model.default_pronoun_data in
      let p : PronounData = record { customized_pronoun_data = []; default_pronoun_data = table } in
      let run = initial_loop_lem p [] table [] none refl in
      elim (Bool-cases (0 + length table == 0)) [
        | inl h ↦
            let no_place : first_named 0 table ≡ none =
              ap (first_named 0) (nil_of_length table (ground (arith, h))) in
            ground (arith, h, no_place)
        | inr h ↦ elim (Option-cases (first_named 0 table)) [
          | inl e ↦ ground (arith, h, run, e)
          | inr (found, e) ↦ ground (arith, h, run, e)
        ]
      ]

  find-made :
      (model : PronounModel) (found : ℕ) (f : U16String)
      → find f (made model found).default_constraints
        ≡ unless_empty (agreed f (pairs_of (keep is_named model.default_pronoun_data)))
  unfolding find
  find-made model found f =
      let pairs = pairs_of (keep is_named model.default_pronoun_data) in
      find-clear_ambiguous f (insert_constraints pairs []) (insert_constraints-IsMap pairs [] tt)
      ∙ ap unless_empty (find-insert_constraints f pairs [])

  -- With an unknown pronoun the constructor throws an illegal argument. Otherwise the concept has the place
  -- of the first entry that is the pronoun, and as default constraints, for each feature, the value that
  -- all entries with the pronoun give it, unless they differ or the value is empty.
  pub construct_initial_lem :
      (model : PronounModel)
      → let table = model.default_pronoun_data in
        let named = keep is_named table in
        let result = construct_initial same model initial_pronoun in
        ((named ≡ []) × (result ≡ throws illegal_argument))
        ⊎ ((before : List PronounEntry) × (entry : PronounEntry) × (after : List PronounEntry)
            × (c : PronounConcept) × (table ≡ before ++ (entry ∷ after))
            × All (λ other. is_named other ≡ false) before
            × (is_named entry ≡ true)
            × (result ≡ ok c)
            × (c.default_pronoun_index ≡ some (length before))
            × ((f : U16String)
                → find f c.default_constraints ≡ unless_empty (agreed f (pairs_of named))))
  construct_initial_lem model =
      let first = construct_initial-first model in
      elim (first_named-split 0 model.default_pronoun_data) [
        | inl (no_entry, no_place) ↦ inl (no_entry, ground (arith, first, no_place))
        | inr (before, entry, after, table_e, others, named, place) ↦ inr (
          before,
          entry,
          after,
          made model (length before),
          table_e,
          others,
          named,
          ground (arith, first, place),
          refl,
          λ f. find-made model (length before) f,
        )
      ]
