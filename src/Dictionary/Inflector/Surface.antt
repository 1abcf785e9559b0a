-- ===== src/Dictionary/Inflector/Surface.antt =====
-- inflectionsForSurfaceForm of Inflector_InflectionPattern.cpp: the inflections that a form of a word may
-- be.
use inflection.Prelude.{
  ℕ, suc, max, Bool, true, false, not, ◌&&◌, ◌||◌, Option, none, some, List, [], ◌∷◌, ◌++◌,
  if◌then◌else◌, ltb, ◌==◌, length, Outcome, ok, ◌>>=◌, ◌≡◌, ◌≢◌, refl, arith, ap, ◌∙◌, sym, subst,
  All, inl, inr, Bool-cases, ◌⊎◌, ℤ, pos, negsuc, Option-cases, append_assoc, append-nil,
}
use inflection.Prelude.Strings.{U16String, ends_with}
use inflection.Dictionary.Inflector.{
  InflectorDictionary, Pattern, Inflection, get_suffix, contains_all, same_id, for_inflections,
}
use inflection.Dictionary.Inflector.Rows.{fold, rows, for_inflections-rows}

-- The variables of the loop. maxLen is none for -1.
pub record Matches : Type 0 where
  pub results : List Inflection
  pub max_len : Option ℕ
  pub last_suffix_id : ℤ
  pub suffix : U16String

-- The test of the suffix and what follows it.
unfoldable pub match_suffix : U16String → Inflection → Matches → Matches
match_suffix surface_form inflection s =
    let suf_len = length s.suffix in
    let shorter : Bool = elim s.max_len [ none ↦ false | some len ↦ ltb suf_len len ] in
    let is_longer : Bool = elim s.max_len [ none ↦ true | some len ↦ ltb len suf_len ] in
    if shorter || not (ends_with surface_form s.suffix)
    then s
    else if is_longer
    then record s { results = inflection ∷ []; max_len = some suf_len }
    else record s { results = s.results ++ (inflection ∷ []) }

-- The body of the loop.
unfoldable pub match_inflection :
    InflectorDictionary → U16String → ℕ → Inflection → Matches → Matches
match_inflection d surface_form from_grammemes inflection s =
    if not (contains_all from_grammemes inflection.grammemes)
    then s
    else if not (same_id s.last_suffix_id inflection.suffix_id)
    then match_suffix surface_form inflection
        (record s { last_suffix_id = inflection.suffix_id; suffix = get_suffix d inflection })
    else match_suffix surface_form inflection s

unfoldable pub inflections_for_surface_form :
    InflectorDictionary → Pattern → U16String → ℕ → Outcome (List Inflection)
inflections_for_surface_form d pattern surface_form from_grammemes = do
  found ←
      for_inflections d pattern
        (λ inflection s. ok (match_inflection d surface_form from_grammemes inflection s))
        (record { results = []; max_len = none; last_suffix_id = negsuc 0; suffix = [] })
  ok found.results

same_id-eq : (a b : ℤ) → same_id a b ≡ true → a ≡ b
unfolding same_id
same_id-eq (pos a) (pos b) h = ap pos {x = a} {y = b} (ground (arith, h))
same_id-eq (pos a) (negsuc b) h = absurd (ground (arith, h))
same_id-eq (negsuc a) (pos b) h = absurd (ground (arith, h))
same_id-eq (negsuc a) (negsuc b) h = ap negsuc {x = a} {y = b} (ground (arith, h))

module _ (d : InflectorDictionary) (surface_form : U16String) (from_grammemes : ℕ) where
  -- The suffix that is kept is the one of the identifier that is kept.
  abbrev Cached : Matches → Type 0
  Cached s = (s.last_suffix_id ≡ negsuc 0) ⊎ (s.suffix ≡ d.suffix_string s.last_suffix_id)

  -- The same step without what is kept of the suffix.
  abbrev step : Inflection → Matches → Matches
  step x s =
      if contains_all from_grammemes x.grammemes
      then match_suffix surface_form x
          (record s { last_suffix_id = x.suffix_id; suffix = get_suffix d x })
      else s

  match_inflection-step :
      (x : Inflection) (s : Matches)
      → x.suffix_id ≢ negsuc 0
      → Cached s
      → match_inflection d surface_form from_grammemes x s ≡ step x s
  unfolding match_inflection get_suffix
  match_inflection-step x s h cached = elim (Bool-cases (same_id s.last_suffix_id x.suffix_id)) [
    | inr e ↦ ground (arith, e)
    | inl e ↦
        let same = same_id-eq s.last_suffix_id x.suffix_id e in
        elim cached [
          | inl first ↦ absurd (h (sym same ∙ first))
          | inr kept ↦
              let with_id =
                ap (λ i. record s { last_suffix_id = i }) same
                ∙ ap (λ t. record s { last_suffix_id = x.suffix_id; suffix = t })
                    (kept ∙ ap d.suffix_string same) in
              let used = ap (match_suffix surface_form x) with_id in ground (arith, e, used)
        ]
  ]

  match_suffix-keeps :
      (x : Inflection) (s : Matches)
      → ((match_suffix surface_form x s).last_suffix_id ≡ s.last_suffix_id)
        × ((match_suffix surface_form x s).suffix ≡ s.suffix)
  unfolding match_suffix
  match_suffix-keeps x s = (ground arith, ground arith)

  step-Cached : (x : Inflection) (s : Matches) → Cached s → Cached (step x s)
  unfolding get_suffix
  step-Cached x s cached = elim (Bool-cases (contains_all from_grammemes x.grammemes)) [
    | inr e ↦ subst Cached {x = s} {y = step x s} (ground (arith, e)) cached
    | inl e ↦
        let now : Matches = record s {
          last_suffix_id = x.suffix_id;
          suffix = d.suffix_string x.suffix_id;
        } in
        let (kept_id, kept_suffix) = match_suffix-keeps x now in
        subst Cached {x = match_suffix surface_form x now} {y = step x s} (ground (arith, e))
          (inr (kept_suffix ∙ ap d.suffix_string (sym kept_id)))
  ]

  abbrev run : List Inflection → Matches → Matches
  run [] s = s
  run (x ∷ xs) s = run xs (step x s)

  fold-run :
      (xs : List Inflection) (s : Matches)
      → All (λ x. x.suffix_id ≢ negsuc 0) xs
      → Cached s
      → fold (λ x s. ok (match_inflection d surface_form from_grammemes x s)) xs s ≡ ok (run xs s)
  fold-run [] s h cached = refl
  fold-run (x ∷ xs) s (first, rest) cached =
      ap (fold (λ x s. ok (match_inflection d surface_form from_grammemes x s)) xs)
        (match_inflection-step x s first cached)
      ∙ fold-run xs (step x s) rest (step-Cached x s cached)

  -- The form may be this inflection: it has no grammemes but the given ones, and the form has its suffix.
  abbrev pub fits : Inflection → Bool
  fits x = contains_all from_grammemes x.grammemes && ends_with surface_form (get_suffix d x)

  -- One more than the length of the longest suffix of those, or 0.
  abbrev pub longest : List Inflection → ℕ
  longest [] = 0
  longest (x ∷ xs) = if fits x then max (suc (length (get_suffix d x))) (longest xs) else longest xs

  -- Those with a suffix of that length.
  abbrev pub of_length : ℕ → List Inflection → List Inflection
  of_length n [] = []
  of_length n (x ∷ xs) =
      if fits x && (suc (length (get_suffix d x)) == n) then x ∷ of_length n xs else of_length n xs

  abbrev rank : Option ℕ → ℕ
  rank none = 0
  rank (some n) = suc n

  step-rank :
      (x : Inflection) (s : Matches)
      → rank (step x s).max_len
        ≡ (if fits x then max (rank s.max_len) (suc (length (get_suffix d x))) else rank s.max_len)
  unfolding match_suffix
  step-rank x s = elim (Option-cases s.max_len) [
    | inl e ↦ ground (arith, e)
    | inr (n, e) ↦ ground (arith, e)
  ]

  step-results :
      (x : Inflection) (s : Matches)
      → (step x s).results ≡ (
          if fits x && not (ltb (suc (length (get_suffix d x))) (rank s.max_len))
          then (if ltb (rank s.max_len) (suc (length (get_suffix d x)))
              then x ∷ []
              else s.results ++ (x ∷ []))
          else s.results)
  unfolding match_suffix
  step-results x s = elim (Option-cases s.max_len) [
    | inl e ↦ ground (arith, e)
    | inr (n, e) ↦ ground (arith, e)
  ]

  -- What the step of run-results comes to, for a loop with the results R and the rank r before a value x
  -- of rank n, with the rank l after it, and rest what is added later.
  joined :
      {A : Type 0} (x : A) (R rest : List A) (r n l : ℕ)
      → (if ltb (max r n) l
            then []
            else (if not (ltb n r) then (if ltb r n then x ∷ [] else R ++ (x ∷ [])) else R))
          ++ rest
        ≡ (if ltb r (max n l) then [] else R) ++ (if n == max r (max n l) then x ∷ rest else rest)
  joined x R rest r n l = let later = append_assoc R (x ∷ []) rest in ground (arith, later)

  run-results :
      (xs : List Inflection) (s : Matches)
      → (run xs s).results
        ≡ (if ltb (rank s.max_len) (longest xs) then [] else s.results)
          ++ of_length (max (rank s.max_len) (longest xs)) xs
  run-results [] s = ground (arith, append-nil s.results)
  run-results (x ∷ xs) s =
      let later = run-results xs (step x s) in
      let n = suc (length (get_suffix d x)) in
      let same : max (max (rank s.max_len) n) (longest xs)
          ≡ max (rank s.max_len) (max n (longest xs)) =
        omega arith in
      let step_eq =
        joined x s.results (of_length (max (rank s.max_len) (max n (longest xs))) xs)
          (rank s.max_len) n (longest xs) in
      elim (Bool-cases (fits x)) [
        | inr e ↦ ground (arith, e, later, step-rank x s, step-results x s)
        | inl e ↦ ground (arith, e, later, step-rank x s, step-results x s, step_eq, same)
      ]

  -- Let every inflection of a pattern be read, and none have the suffix identifier -1. The result holds,
  -- in the order of the pattern, exactly the inflections that the form may be, by its grammemes and
  -- its end, and whose suffix is as long as the longest of these.
  pub inflections_for_surface_form_lem :
      (pattern : Pattern) (xs : List Inflection)
      → rows d pattern ≡ ok xs
      → All (λ x. x.suffix_id ≢ negsuc 0) xs
      → inflections_for_surface_form d pattern surface_form from_grammemes
        ≡ ok (of_length (longest xs) xs)
  unfolding inflections_for_surface_form
  inflections_for_surface_form_lem pattern xs e h =
      let start : Matches = record {
        results = [];
        max_len = none;
        last_suffix_id = negsuc 0;
        suffix = [];
      } in
      let loop =
        for_inflections-rows d pattern
          (λ inflection s. ok (match_inflection d surface_form from_grammemes inflection s)) start
          xs e
        ∙ fold-run xs start h (inl refl) in
      let at_end = run-results xs start in
      ap (λ m. m >>= λ found. ok found.results) loop ∙ ap ok (ground (arith, at_end))
