-- ===== src/Dialog/PronounConcept/Initial.antt =====
-- PronounConcept.cpp: the constructor from a pronoun of the language. `same` is u_strCaseCompare with
-- its status: it succeeds and finds no difference.
pub mod Merged
pub mod Result
use inflection.Prelude.{
  ℕ, zero, suc, Bool, true, false, Option, none, some, List, [], ◌∷◌, if◌then◌else◌, ◌==◌, Outcome,
  ok, throws, ◌>>=◌, illegal_argument,
}
use inflection.Prelude.Strings.{U16String, equals, is_empty}
use inflection.Dialog.Constraints.{FeatureMap, find, put, emplace}
use inflection.Dialog.PronounConcept.{
  PronounEntry, PronounData, PronounModel, PronounConcept, num_values, get_pronoun_entry, construct,
}

-- `if (back() == u' ') remove_suffix(1)`, for a text that is not empty.
unfoldable pub remove_last_space : U16String → U16String
remove_last_space [] = []
remove_last_space (c ∷ []) = if c == 32 then [] else c ∷ []
remove_last_space (c ∷ (d ∷ text)) = c ∷ remove_last_space (d ∷ text)

-- An entry of the map is inserted; another value that is there already is cleared.
unfoldable pub insert_or_clear : U16String → U16String → FeatureMap → FeatureMap
insert_or_clear feature constraint defaults = elim (find feature defaults) [
  | none ↦ emplace feature constraint defaults
  | some value ↦ if equals value constraint then defaults else put feature [] defaults
]

unfoldable pub insert_constraints : FeatureMap → FeatureMap → FeatureMap
insert_constraints [] defaults = defaults
insert_constraints ((feature, constraint) ∷ constraints) defaults =
    insert_constraints constraints (insert_or_clear feature constraint defaults)

-- The last loop of the constructor.
unfoldable pub clear_ambiguous : FeatureMap → FeatureMap
clear_ambiguous [] = []
clear_ambiguous ((feature, value) ∷ defaults) =
    if is_empty value then clear_ambiguous defaults else (feature, value) ∷ clear_ambiguous defaults

module _ (same : U16String → U16String → Bool) where
  -- The loop over the entries: the rounds that are left, idx, which foundPronounIndex equals, the
  -- constraints and the index so far.
  unfoldable pub initial_loop :
      PronounData → U16String → ℕ → ℕ → FeatureMap → Option ℕ → Outcome (FeatureMap × Option ℕ)
  initial_loop pronoun_data initial_pronoun zero idx defaults index = ok (defaults, index)
  initial_loop pronoun_data initial_pronoun (suc n) idx defaults index = do
    entry ← get_pronoun_entry pronoun_data idx
    elim (same initial_pronoun (remove_last_space entry.word)) [
      | false ↦ initial_loop pronoun_data initial_pronoun n (suc idx) defaults index
      | true ↦
          initial_loop pronoun_data initial_pronoun n (suc idx)
            (insert_constraints entry.constraint_data defaults)
            (elim index [ none ↦ some idx | some found ↦ some found ])
    ]

  unfoldable pub construct_initial : PronounModel → U16String → Outcome PronounConcept
  construct_initial model initial_pronoun = do
    c ← construct model [] []
    (defaults, index) ←
        initial_loop c.pronoun_data initial_pronoun (num_values c.pronoun_data) 0
          c.default_constraints c.default_pronoun_index
    elim index [
      | none ↦ throws illegal_argument
      | some found ↦ ok (record c {
        default_constraints = clear_ambiguous defaults;
        default_pronoun_index = some found;
      })
    ]
