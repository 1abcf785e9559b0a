-- ===== src/Util/DelimitedStringIterator/Parts.antt =====
-- DelimitedStringIterator against split of StringViewUtils.cpp.
use inflection.Prelude.{
  ℕ, zero, suc, ◌+◌, ◌<◌, ◌≤◌, none, some, List, [], ◌∷◌, if◌then◌else◌, length, take, drop, ◌≡◌,
  ◌≢◌, inl, inr, refl, arith, ap, ◌∙◌, sym, Option-cases, Bool-cases, length-drop, subst, ok, ltb,
  ltb→lt,
}
use inflection.Prelude.Strings.{U16String, is_empty}
use inflection.Util.StringViewUtils.{find, split_loop, split}
use inflection.Util.StringViewUtils.Splitting.{drop-add, split_loop-cons, split_lem}
use inflection.Util.DelimitedStringIterator.{
  Iterator, has_next, get_next, construct, increment, collect,
}

-- The parts without an empty one at the end, and then without another empty one before it.
abbrev pub shown : List U16String → List U16String
shown [] = []
shown (part ∷ []) = if is_empty part then [] else part ∷ []
shown (part ∷ last ∷ []) =
    if is_empty last then (if is_empty part then [] else part ∷ []) else part ∷ (last ∷ [])
shown (part ∷ next ∷ third ∷ parts) = part ∷ shown (next ∷ third ∷ parts)

at_end_lem :
    (fuel : ℕ) (it : Iterator)
    → length it.original_string ≤ it.current_index
    → collect (suc (suc fuel)) it
      ≡ ok (some (if is_empty it.current_string then [] else it.current_string ∷ []))
unfolding collect increment has_next get_next
at_end_lem fuel it le = ground (arith, le)

abbrev at : U16String → U16String → U16String → ℕ → Iterator
at delimiter s current index = record {
  delimiter_string = delimiter;
  original_string = s;
  current_string = current;
  current_index = index;
}

step_lem :
    (fuel : ℕ) (it : Iterator) (strings : List U16String)
    → it.current_index < length it.original_string
    → collect fuel (get_next it) ≡ ok (some strings)
    → collect (suc fuel) it ≡ ok (some (it.current_string ∷ strings))
unfolding collect increment has_next
step_lem fuel it strings lt e = ground (arith, lt, e)

next_none :
    (delimiter s current : U16String) (index : ℕ)
    → index < length s
    → find delimiter (drop index s) ≡ none
    → get_next (at delimiter s current index) ≡ at delimiter s (drop index s) (length s)
unfolding get_next
next_none d s current index lt e = ground (arith, lt, e)

next_some :
    (delimiter s current : U16String) (index i : ℕ)
    → index < length s
    → find delimiter (drop index s) ≡ some i
    → get_next (at delimiter s current index)
      ≡ at delimiter s (take i (drop index s)) (index + i + length delimiter)
unfolding get_next
next_some d s current index i lt e = ground (arith, lt, e)

split_loop-some :
    (fuel i : ℕ) (s delimiter : U16String) (parts : List U16String)
    → find delimiter s ≡ some i
    → split_loop (suc fuel) s delimiter ≡ some parts
    → (next : U16String) × (rest : List U16String) × (parts ≡ take i s ∷ (next ∷ rest))
      × (split_loop fuel (drop (i + length delimiter) s) delimiter ≡ some (next ∷ rest))
unfolding split_loop
split_loop-some fuel i s d parts e h =
    elim (Option-cases (split_loop fuel (drop (i + length d) s) d)) [
      | inl f ↦ absurd (ground (arith, e, h, f))
      | inr (results, f) ↦
          let (next, rest, results_e) = split_loop-cons fuel (drop (i + length d) s) d results f in
          (next, rest, ground (arith, e, h, f, results_e), f ∙ ap some results_e)
    ]

split_loop-none :
    (fuel : ℕ) (s delimiter : U16String) (parts : List U16String)
    → find delimiter s ≡ none
    → split_loop fuel s delimiter ≡ some parts
    → parts ≡ s ∷ []
unfolding split_loop
split_loop-none zero s d parts e h = absurd (ground (arith, h))
split_loop-none (suc fuel) s d parts e h = ground (arith, e, h)

split_loop-single :
    (fuel : ℕ) (s delimiter next : U16String)
    → split_loop fuel s delimiter ≡ some (next ∷ [])
    → next ≡ s
unfolding split_loop
split_loop-single zero s d next e = absurd (ground (arith, e))
split_loop-single (suc fuel) s d next e = elim (Option-cases (find d s)) [
  | inl f ↦ ground (arith, e, f)
  | inr (i, f) ↦
      let (second, rest, parts_e, _) = split_loop-some fuel i s d (next ∷ []) f e in
      absurd (ground (arith, parts_e))
]

shown_last :
    (part next : U16String)
    → 0 < length next
    → shown (part ∷ (next ∷ [])) ≡ part ∷ shown (next ∷ [])
shown_last part [] lt = absurd (omega (arith, lt))
shown_last part (c ∷ next) lt = refl

shown-cons :
    (fuel : ℕ) (part s delimiter next : U16String) (rest : List U16String)
    → 0 < length s
    → split_loop fuel s delimiter ≡ some (next ∷ rest)
    → shown (part ∷ (next ∷ rest)) ≡ part ∷ shown (next ∷ rest)
shown-cons fuel part s d next (third ∷ rest) lt e = refl
shown-cons fuel part s d next [] lt e =
    shown_last part next (omega (arith, lt, ap length (split_loop-single fuel s d next e)))

find-nil : (d : U16String) → d ≢ [] → find d [] ≡ none
unfolding find
find-nil [] h = absurd (h refl)
find-nil (c ∷ d) h = refl

nothing_left : (s : U16String) → length s ≡ 0 → s ≡ []
nothing_left [] e = refl
nothing_left (c ∷ s) e = absurd (omega (arith, e))

-- At the end, or not at the end, where the parts to come are known.
rest_lem :
    (fuel : ℕ) (delimiter s current next : U16String) (index : ℕ) (rest : List U16String)
    → delimiter ≢ []
    → split_loop fuel (drop index s) delimiter ≡ some (next ∷ rest)
    → (index < length s
        → collect (suc (suc fuel)) (at delimiter s current index)
          ≡ ok (some (current ∷ shown (next ∷ rest))))
    → collect (suc (suc fuel)) (at delimiter s current index)
      ≡ ok (some (shown (current ∷ (next ∷ rest))))
rest_lem fuel d s current next index rest h e steps = elim (Bool-cases (ltb index (length s))) [
  | inl lt ↦
      let positive : 0 < length (drop index s) =
        omega (arith, length-drop index s, ltb→lt index (length s) lt) in
      steps (ltb→lt index (length s) lt)
      ∙ ap (λ t. ok (some t)) (sym (shown-cons fuel current (drop index s) d next rest positive e))
  | inr ge ↦
      let le : length s ≤ index = ground (arith, ge) in
      let nothing = nothing_left (drop index s) (omega (arith, length-drop index s, le)) in
      let one =
        split_loop-none fuel (drop index s) d (next ∷ rest) (ap (find d) nothing ∙ find-nil d h)
          e in
      at_end_lem fuel (at d s current index) le
      ∙ ap (λ t. ok (some (shown (current ∷ (t ∷ []))))) (sym nothing)
      ∙ ap (λ t. ok (some (shown (current ∷ t)))) (sym one)
]

-- A step from a place that is not the end: from then on, there are the parts that split has.
steps_lem :
    (fuel : ℕ) (delimiter s current : U16String) (index : ℕ) (parts : List U16String)
    → delimiter ≢ []
    → index < length s
    → split_loop fuel (drop index s) delimiter ≡ some parts
    → collect (suc fuel) (get_next (at delimiter s current index)) ≡ ok (some (shown parts))
steps_lem zero d s current index parts h lt e = absurd (unfold split_loop in ground (arith, e))
steps_lem (suc fuel) d s current index parts h lt e = elim (Option-cases (find d (drop index s))) [
  | inl f ↦
      let one = split_loop-none (suc fuel) (drop index s) d parts f e in
      ap (collect (suc (suc fuel))) (next_none d s current index lt f)
      ∙ at_end_lem fuel (at d s (drop index s) (length s)) (omega arith)
      ∙ ap (λ t. ok (some (shown t))) (sym one)
  | inr (i, f) ↦
      let (next, rest, parts_e, rest_e) = split_loop-some fuel i (drop index s) d parts f e in
      let after : ℕ = index + i + length d in
      let part = take i (drop index s) in
      let rest_here : drop (i + length d) (drop index s) ≡ drop after s =
        sym (drop-add index (i + length d) s)
        ∙ ap (λ (n : ℕ). drop n s) {x = index + (i + length d)} {y = after} (omega arith) in
      let continued = subst (λ t. split_loop fuel t d ≡ some (next ∷ rest)) rest_here rest_e in
      ap (collect (suc (suc fuel))) (next_some d s current index i lt f)
      ∙ rest_lem fuel d s part next after rest h continued (λ before.
        step_lem (suc fuel) (at d s part after) (shown (next ∷ rest)) before
          (steps_lem fuel d s part after (next ∷ rest) h before continued))
      ∙ ap (λ t. ok (some (shown t))) (sym parts_e)
]

-- For a delimiter that is not empty, a loop over the iterator ends, without an exception, and has
-- the parts that split has, less an empty part at the end and then less one empty part before it.
-- Two steps of fuel more than the characters of the string are enough.
pub collect-split :
    (s delimiter : U16String)
    → delimiter ≢ []
    → (parts : List U16String) × (split s delimiter ≡ some parts)
      × (collect (suc (suc (length s))) (construct s delimiter) ≡ ok (some (shown parts)))
unfolding split construct collect has_next
collect-split [] d h =
    let nil = find-nil d h in ([] ∷ [], unfold split_loop in ground (arith, nil), refl)
collect-split (c ∷ s) d h =
    let (parts, e, _) = split_lem (c ∷ s) d h in
    let start : construct (c ∷ s) d ≡ get_next (at d (c ∷ s) [] 0) = ground arith in
    (
      parts,
      e,
      ap (collect (suc (suc (length (c ∷ s))))) start
          ∙ steps_lem (suc (length (c ∷ s))) d (c ∷ s) [] 0 parts h (omega arith) e,
    )
