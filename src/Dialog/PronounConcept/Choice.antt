-- ===== src/Dialog/PronounConcept/Choice.antt =====
-- Which entry a pronoun is shown as.
use inflection.Prelude.{
  ℕ, zero, suc, ◌-◌, Bool, false, ◌&&◌, ◌||◌, Option, none, some, List, [], ◌∷◌, ◌++◌,
  if◌then◌else◌, ltb, ◌==◌, length, get_elem?, Outcome, ok, ◌>>=◌, ◌≡◌, refl, arith, ap, ◌∙◌, All,
}
use inflection.Dictionary.MetaData.{Source}
use inflection.Dictionary.PhraseProperties.{Icu}
use inflection.Dialog.PronounConcept.{
  PronounEntry, PronounData, PronounConcept, ReferencedConcept, entry_at, get_pronoun_entry,
  Possible, is_matching_initial_pronoun, count_generic, unmatched_defaults,
}
use inflection.Dialog.PronounConcept.Selection.{match_entry}

get_elem?-append :
    {A : Type 0} (xs ys : List A) (i : ℕ)
    → get_elem? (xs ++ ys) i
      ≡ (if ltb i (length xs) then get_elem? xs i else get_elem? ys (i - length xs))
get_elem?-append [] ys i = ground arith
get_elem?-append (x ∷ xs) ys zero = ground arith
get_elem?-append (x ∷ xs) ys (suc i) = ground (arith, get_elem?-append xs ys i)

get_elem?-middle {ℓ} :
    {A : Type ℓ} (before after : List A) (x : A)
    → get_elem? (before ++ (x ∷ after)) (length before) ≡ some x
get_elem?-middle [] after x = refl
get_elem?-middle (y ∷ before) after x = get_elem?-middle before after x

abbrev pub entries : PronounData → List PronounEntry
entries p = p.customized_pronoun_data ++ p.default_pronoun_data

-- The entries are numbered one after the other, the customized ones first.
pub get_pronoun_entry-middle :
    (p : PronounData) (before after : List PronounEntry) (entry : PronounEntry)
    → entries p ≡ before ++ (entry ∷ after)
    → get_pronoun_entry p (length before) ≡ ok entry
unfolding get_pronoun_entry entry_at
get_pronoun_entry-middle p before after entry e =
    let split = get_elem?-append p.customized_pronoun_data p.default_pronoun_data (length before) in
    let at = ap (λ t. get_elem? t (length before)) e ∙ get_elem?-middle before after entry in
    ground (arith, split, at)

-- How well an entry fits: in how many constraints only in general, and how many defaults it misses.
pub record Fit : Type 0 where
  pub generic : ℕ
  pub missed : ℕ

-- The second is nearer: fewer constraints in general, and among as many fewer defaults missed.
abbrev pub nearer : Fit → Fit → Bool
nearer a b = ltb b.generic a.generic || (b.generic == a.generic && ltb b.missed a.missed)

module _ (icu : Icu) (dictionary : Source) (c : PronounConcept)
    (referenced_concept : Option ReferencedConcept) where
  -- The number of constraints that an entry meets only in general, or 0 if it does not meet them all.
  abbrev generic_or_zero : PronounEntry → ℕ
  generic_or_zero entry = elim (count_generic entry.constraint_data c.constraints 0) [
    | none ↦ 0
    | some generic ↦ generic
  ]

  abbrev pub fit_of : PronounEntry → Fit
  fit_of entry = record {
    generic = generic_or_zero entry;
    missed =
        unmatched_defaults entry.constraint_data c.default_constraints
          (length c.default_constraints);
  }

  -- A test of the entries that says which of them match, for entries on which match_entry gives an answer.
  abbrev pub Decides : (PronounEntry → Bool) → List PronounEntry → Type 0
  Decides fits xs =
      All
        (λ entry.
          match_entry icu dictionary c referenced_concept entry
          ≡ ok (if fits entry then some (generic_or_zero entry) else none))
        xs

  abbrev stored : Option PronounEntry → Option Possible
  stored none = none
  stored (some entry) = some (record {
    value = entry;
    generic_matched = (fit_of entry).generic;
    defaults_to_match = (fit_of entry).missed;
  })

  -- Whether the initial pronoun is asked for.
  abbrev pub asks_initial : Outcome Bool
  asks_initial = elim referenced_concept [
    | none ↦ is_matching_initial_pronoun c
    | some _ ↦ ok false
  ]

  abbrev pub searched : Bool → List PronounEntry
  searched match_all =
      if match_all then entries c.pronoun_data else c.pronoun_data.customized_pronoun_data
