-- ===== src/Util/StringViewUtils/Splitting.antt =====
-- split, join and replace of src/inflection/util/StringViewUtils.cpp: they end, and what they do to the parts.
use inflection.Prelude.{
  ℕ, zero, suc, ◌+◌, ◌<◌, ◌≤◌, true, false, none, some, List, [], ◌∷◌, ◌++◌, length, take, drop,
  ◌≡◌, ◌≢◌, inl, inr, refl, arith, All, ap, ◌∙◌, sym, append_assoc, Option-cases, Bool-cases,
  length-drop, length-append, subst,
}
use inflection.Prelude.Strings.{U16String, starts_with}
use inflection.Util.StringViewUtils.{find, split_loop, split, join_loop, join}

drop-nil : (n : ℕ) → drop {A = ℕ} n [] ≡ []
drop-nil zero = refl
drop-nil (suc n) = refl

pub drop-add : (a b : ℕ) (s : U16String) → drop (a + b) s ≡ drop b (drop a s)
drop-add zero b s = ap (λ (n : ℕ). drop n s) (omega arith)
drop-add (suc a) b [] = drop-nil (suc a + b) ∙ sym (drop-nil b)
drop-add (suc a) b (x ∷ s) =
    let next : suc a + b ≡ suc (a + b) = omega arith in
    ap (λ (n : ℕ). drop n (x ∷ s)) next ∙ drop-add a b s

-- A string that starts with another is that string and a rest.
pub starts_with-drop : (s p : U16String) → starts_with s p ≡ true → s ≡ p ++ drop (length p) s
unfolding starts_with
starts_with-drop s [] h = refl
starts_with-drop [] (y ∷ p) h = absurd (ground arith)
starts_with-drop (x ∷ s) (y ∷ p) h = ground (arith, starts_with-drop s p)

-- The pattern stands at place i.
abbrev pub StandsAt : U16String → U16String → ℕ → Type 0
StandsAt p s i = (s ≡ take i s ++ (p ++ drop (i + length p) s)) × (i + length p ≤ length s)

StandsAt-zero : (p s : U16String) → starts_with s p ≡ true → StandsAt p s 0
StandsAt-zero p s h =
    let e = starts_with-drop s p h in
    let zero_add : 0 + length p ≡ length p = omega arith in
    (
      e ∙ sym (ap (λ (n : ℕ). p ++ drop n s) zero_add),
      omega (arith, ap length e, length-append p (drop (length p) s)),
    )

StandsAt-suc : (p s : U16String) (x i : ℕ) → StandsAt p s i → StandsAt p (x ∷ s) (suc i)
StandsAt-suc p s x i (e, le) =
    let next : suc (i + length p) ≡ suc i + length p = omega arith in
    (
      ap (λ t. x ∷ t) e ∙ ap (λ (n : ℕ). x ∷ (take i s ++ (p ++ drop n (x ∷ s)))) next,
      omega (arith, le),
    )

pub find-StandsAt : (p s : U16String) (i : ℕ) → find p s ≡ some i → StandsAt p s i
unfolding find
find-StandsAt p [] i h =
    elim p as (λ p. find p [] ≡ some i → StandsAt p [] i) [
      | [] ↦ λ h. ground (arith, h)
      | c ∷ p ↦ λ h. ground (arith, h)
    ]
      h
find-StandsAt p (x ∷ s) i h = elim (Bool-cases (starts_with (x ∷ s) p)) [
  | inl e ↦
      let first : 0 ≡ i = ground (arith, e, h) in
      subst (StandsAt p (x ∷ s)) first (StandsAt-zero p (x ∷ s) e)
  | inr e ↦ elim (Option-cases (find p s)) [
    | inl none_e ↦ absurd (ground (arith, e, h, none_e))
    | inr (j, some_e) ↦
        let later : suc j ≡ i = ground (arith, e, h, some_e) in
        subst (StandsAt p (x ∷ s)) later (StandsAt-suc p s x j (find-StandsAt p s j some_e))
  ]
]

starts_with-take :
    (s p : U16String) (n : ℕ) → starts_with (take n s) p ≡ true → starts_with s p ≡ true
unfolding starts_with
starts_with-take s [] n h = refl
starts_with-take [] (y ∷ p) zero h = absurd (ground (arith, h))
starts_with-take [] (y ∷ p) (suc n) h = absurd (ground (arith, h))
starts_with-take (x ∷ s) (y ∷ p) zero h = absurd (ground (arith, h))
starts_with-take (x ∷ s) (y ∷ p) (suc n) h = ground (arith, starts_with-take s p n)

-- The part before the place where a pattern is found does not have the pattern; nor has any part
-- from the start of a string that does not have it.
pub find-take : (p s : U16String) (i : ℕ) → p ≢ [] → find p s ≡ some i → find p (take i s) ≡ none
unfolding find
find-take [] s i h e = absurd (h refl)
find-take (c ∷ p) [] i h e = absurd (ground (arith, e))
find-take (c ∷ p) (x ∷ s) zero h e = ground arith
find-take (c ∷ p) (x ∷ s) (suc i) h e = elim (Bool-cases (starts_with (x ∷ s) (c ∷ p))) [
  | inl yes_e ↦ absurd (ground (arith, yes_e, e))
  | inr no_e ↦
      let rest = find-take (c ∷ p) s i h (ground (arith, no_e, e)) in
      ground (arith, no_e, rest, starts_with-take (x ∷ s) (c ∷ p) (suc i))
]

-- The parts with a delimiter between each two of them.
abbrev pub intercalate : U16String → List U16String → U16String
intercalate delimiter [] = []
intercalate delimiter (part ∷ []) = part
intercalate delimiter (part ∷ next ∷ parts) =
    part ++ (delimiter ++ intercalate delimiter (next ∷ parts))

intercalate-append :
    (delimiter a b : U16String) (parts : List U16String)
    → intercalate delimiter ((a ++ b) ∷ parts) ≡ a ++ intercalate delimiter (b ∷ parts)
intercalate-append delimiter a b [] = refl
intercalate-append delimiter a b (part ∷ parts) =
    append_assoc a b (delimiter ++ intercalate delimiter (part ∷ parts))

join_loop-intercalate :
    (delimiter result : U16String) (parts : List U16String)
    → result ≢ []
    → join_loop result parts delimiter ≡ intercalate delimiter (result ∷ parts)
unfolding join_loop
join_loop-intercalate delimiter [] parts h = absurd (h refl)
join_loop-intercalate delimiter (x ∷ result) [] h = refl
join_loop-intercalate delimiter (x ∷ result) (part ∷ parts) h =
    join_loop-intercalate delimiter (((x ∷ result) ++ delimiter) ++ part) parts (λ e. cc)
    ∙ intercalate-append delimiter ((x ∷ result) ++ delimiter) part parts
    ∙ append_assoc (x ∷ result) delimiter (intercalate delimiter (part ∷ parts))

-- The parts of s at the delimiter: between them they make s, and the delimiter is in none of them.
abbrev pub IsSplit : U16String → U16String → List U16String → Type 0
IsSplit s delimiter parts =
    (intercalate delimiter parts ≡ s) × All (λ part. find delimiter part ≡ none) parts

length-positive : (s : U16String) → s ≢ [] → 1 ≤ length s
length-positive [] h = absurd (h refl)
length-positive (x ∷ s) h = omega arith

split_loop_lem :
    (fuel : ℕ) (s delimiter : U16String)
    → delimiter ≢ []
    → length s < fuel
    → (first : U16String) × (parts : List U16String) × (split_loop fuel s delimiter
        ≡ some (first ∷ parts))
      × IsSplit s delimiter (first ∷ parts)
unfolding split_loop
split_loop_lem zero s d h lt = absurd (omega (arith, lt))
split_loop_lem (suc fuel) s d h lt = elim (Option-cases (find d s)) [
  | inl e ↦ (s, [], ground (arith, e), (refl, (e, tt)))
  | inr (i, e) ↦
      let (whole, le) = find-StandsAt d s i e in
      let short : length (drop (i + length d) s) < fuel =
        omega (arith, length-drop (i + length d) s, length-positive d h) in
      let (first, parts, rest_e, (joined, all)) =
        split_loop_lem fuel (drop (i + length d) s) d h short in
      (
        take i s,
        first ∷ parts,
        ground (arith, e, rest_e),
        (ap (λ t. take i s ++ (d ++ t)) joined ∙ sym whole, (find-take d s i h e, all)),
      )
]

-- For a delimiter that is not empty, split ends, and its parts, with the delimiter between them,
-- make the string; the delimiter is in none of the parts.
pub split_lem :
    (s delimiter : U16String)
    → delimiter ≢ []
    → (parts : List U16String) × (split s delimiter ≡ some parts) × IsSplit s delimiter parts
unfolding split
split_lem s d h =
    let (first, parts, e, is_split) = split_loop_lem (suc (length s)) s d h (omega arith) in
    (first ∷ parts, e, is_split)

-- For an empty delimiter the loop of split does not end: no fuel is enough, as each step finds the
-- delimiter where the step before left off.
pub split_loop-empty : (fuel : ℕ) (s : U16String) → split_loop fuel s [] ≡ none
unfolding split_loop find starts_with
split_loop-empty zero s = refl
split_loop-empty (suc fuel) [] = ground (arith, split_loop-empty fuel [])
split_loop-empty (suc fuel) (x ∷ s) = ground (arith, split_loop-empty fuel (x ∷ s))

starts_with-append : (p s : U16String) → starts_with (p ++ s) p ≡ true
unfolding starts_with
starts_with-append [] s = refl
starts_with-append (x ∷ p) s = ground (arith, starts_with-append p s)

join_lem :
    (s delimiter first : U16String) (parts : List U16String)
    → intercalate delimiter (first ∷ parts) ≡ s
    → starts_with s delimiter ≡ false
    → join (first ∷ parts) delimiter ≡ s
unfolding join join_loop
join_lem s d [] [] e h = e
join_lem s d [] (part ∷ parts) e h = absurd (
    ground
      (arith, h, ap (λ t. starts_with t d) e, starts_with-append d (intercalate d (part ∷ parts))))
join_lem s d (x ∷ first) parts e h = join_loop-intercalate d (x ∷ first) parts (λ e. cc) ∙ e

-- For a delimiter that is not empty, and a string that does not start with it: join puts together
-- what split has taken apart, with the same delimiter.
pub join-split :
    (s delimiter : U16String)
    → delimiter ≢ []
    → starts_with s delimiter ≡ false
    → (parts : List U16String) × (split s delimiter ≡ some parts) × (join parts delimiter ≡ s)
unfolding split join join_loop
join-split s d h no_start =
    let (first, parts, e, (joined, _)) = split_loop_lem (suc (length s)) s d h (omega arith) in
    (first ∷ parts, e, join_lem s d first parts joined no_start)

pub split_loop-cons :
    (fuel : ℕ) (s delimiter : U16String) (parts : List U16String)
    → split_loop fuel s delimiter ≡ some parts
    → (first : U16String) × (rest : List U16String) × (parts ≡ first ∷ rest)
unfolding split_loop
split_loop-cons fuel s d (first ∷ rest) h = (first, rest, refl)
split_loop-cons zero s d [] h = absurd (ground (arith, h))
split_loop-cons (suc fuel) s d [] h = elim (Option-cases (find d s)) [
  | inl e ↦ absurd (ground (arith, e, h))
  | inr (i, e) ↦ elim (Option-cases (split_loop fuel (drop (i + length d) s) d)) [
    | inl f ↦ absurd (ground (arith, e, f, h))
    | inr (results, f) ↦ absurd (ground (arith, e, f, h))
  ]
]
