-- ===== src/Metadata/StringArrayContainer/Search.antt =====
-- The binary search of getIdentifierIfAvailable against a search through the strings in their order.
use Prim.Native.Nat.{Ordering}
use inflection.Prelude.{
  ℕ, zero, suc, ◌+◌, ◌-◌, ◌/◌, ◌≤◌, ◌<◌, false, some, List, [], ◌∷◌, ltb, length, get_elem?,
  get_elem?-lt, get_elem?-some, ok, throws, illegal_argument, ℤ, pos, negsuc, ◌≡◌, refl, arith, ap,
  ◌∙◌, sym, Bool-cases, inl, inr, ◌⊎◌, if◌then◌else◌, ltb→lt,
}
use inflection.Prelude.Strings.{U16String, equals, equals_iff}
use inflection.Metadata.StringArrayContainer.{
  StringArrayContainer, Mapping, build, string_at, search, get_identifier_if_available,
  get_identifier, compare_strings,
}
use inflection.Metadata.StringArrayContainer.Build.{HoldsStrings, build-HoldsStrings, string_at_lem}
use inflection.Metadata.StringArrayContainer.Order.{
  Less, Less-trans, Less-irrefl, eq_of_compare, compare_swap, Sorted, Sorted-Less,
}

-- The place of the first string that is the same, or -1.
up : ℤ → ℤ
up (pos i) = pos (suc i)
up (negsuc i) = negsuc i

abbrev pub index_of : U16String → List U16String → ℤ
unfolding up
index_of s [] = negsuc 0
index_of s (t ∷ strings) = if equals t s then pos 0 else up (index_of s strings)

index_of_absent :
    (s : U16String) (strings : List U16String)
    → ((j : ℕ) (t : U16String) → get_elem? strings j ≡ some t → equals t s ≡ false)
    → index_of s strings ≡ negsuc 0
unfolding up
index_of_absent s [] h = refl
index_of_absent s (t ∷ strings) h =
    ground (arith, h 0 t refl, index_of_absent s strings (λ j u e. h (suc j) u e))

index_of_first :
    (s : U16String) (strings : List U16String) (i : ℕ)
    → get_elem? strings i ≡ some s
    → ((j : ℕ) (t : U16String) → j < i → get_elem? strings j ≡ some t → equals t s ≡ false)
    → index_of s strings ≡ pos i
unfolding up
index_of_first s [] i e h = absurd (ground (arith, e))
index_of_first s (t ∷ strings) zero e h = ground (arith, e, equals_iff t s)
index_of_first s (t ∷ strings) (suc i) e h = ground (
  arith,
  h 0 t (omega arith) refl,
  index_of_first s strings i e (λ j u lt e. h (suc j) u (omega (arith, lt)) e),
)

differs_of_Less : (s t : U16String) → Less s t ⊎ Less t s → equals t s ≡ false
differs_of_Less s t h = elim (Bool-cases (equals t s)) [
  | inr e ↦ e
  | inl e ↦
      let same : t ≡ s = ground (arith, e, equals_iff t s) in
      elim h [
        | inl less ↦ absurd (Less-irrefl s (ap (compare_strings s) (sym same) ∙ less))
        | inr less ↦ absurd (Less-irrefl s (ap (λ u. compare_strings u s) (sym same) ∙ less))
      ]
]

Ordering-cases : (o : Ordering) → (o ≡ Ordering.lt) ⊎ (o ≡ Ordering.eq) ⊎ (o ≡ Ordering.gt)
Ordering-cases Ordering.lt = inl refl
Ordering-cases Ordering.eq = inr (inl refl)
Ordering-cases Ordering.gt = inr (inr refl)

middle : ℕ → ℕ → ℕ
middle start end = start + (end - 1 - start) / 2

middle_lem : (start end : ℕ) → start < end → (start ≤ middle start end) × (middle start end < end)
unfolding middle
middle_lem start end h = (omega (arith, h), omega (arith, h))

-- One step of the loop, for each result of the comparison.
step_lem :
    (fuel start end : ℕ) (s t : U16String) (c : StringArrayContainer)
    → start < end
    → string_at (middle start end) c ≡ ok t
    → search (suc fuel) start end s c ≡ elim (compare_strings s t) [
      | Ordering.lt ↦ search fuel start (middle start end) s c
      | Ordering.gt ↦ search fuel (suc (middle start end)) end s c
      | Ordering.eq ↦ ok (pos (middle start end))
    ]
unfolding search middle
step_lem fuel start end s t c lt e = ground (arith, lt, e)

end_lem :
    (fuel start end : ℕ) (s : U16String) (c : StringArrayContainer)
    → end ≤ start
    → search (suc fuel) start end s c ≡ ok (negsuc 0)
unfolding search
end_lem fuel start end s c le = ground (arith, le)

abbrev Below : List U16String → U16String → ℕ → Type 0
Below strings s start =
    (j : ℕ) (t : U16String) → j < start → get_elem? strings j ≡ some t → Less t s

abbrev Above : List U16String → U16String → ℕ → Type 0
Above strings s end = (j : ℕ) (t : U16String) → end ≤ j → get_elem? strings j ≡ some t → Less s t

absent_lem :
    (start end : ℕ) (s : U16String) (strings : List U16String)
    → end ≤ start
    → Below strings s start
    → Above strings s end
    → index_of s strings ≡ negsuc 0
absent_lem start end s strings le below above = index_of_absent s strings (λ j t e.
    elim (Bool-cases (ltb j start)) [
      | inl lt ↦ differs_of_Less s t (inr (below j t (ground (arith, lt)) e))
      | inr ge ↦ differs_of_Less s t (inl (above j t (ground (arith, ge, le)) e))
    ])

Above-middle :
    (strings : List U16String) (s t : U16String) (mid : ℕ)
    → Sorted strings
    → get_elem? strings mid ≡ some t
    → Less s t
    → Above strings s mid
Above-middle strings s t mid sorted at less j u le e = elim (Bool-cases (ltb mid j)) [
  | inl lt ↦ Less-trans s t u less (Sorted-Less strings mid j t u sorted (ltb→lt mid j lt) at e)
  | inr ge ↦
      let same : mid ≡ j = ground (arith, ge, le) in
      let same_string : t ≡ u = ground (arith, at, e, ap (get_elem? strings) same) in
      ap (compare_strings s) (sym same_string) ∙ less
]

Below-middle :
    (strings : List U16String) (s t : U16String) (mid : ℕ)
    → Sorted strings
    → get_elem? strings mid ≡ some t
    → Less t s
    → Below strings s (suc mid)
Below-middle strings s t mid sorted at less j u lt e = elim (Bool-cases (ltb j mid)) [
  | inl before ↦
      Less-trans u t s (Sorted-Less strings j mid u t sorted (ltb→lt j mid before) e at) less
  | inr ge ↦
      let same : mid ≡ j = ground (arith, ge, lt) in
      let same_string : u ≡ t = ground (arith, at, e, ap (get_elem? strings) same) in
      ap (λ v. compare_strings v s) same_string ∙ less
]

found_lem :
    (strings : List U16String) (s : U16String) (mid : ℕ)
    → Sorted strings
    → get_elem? strings mid ≡ some s
    → index_of s strings ≡ pos mid
found_lem strings s mid sorted at =
    index_of_first s strings mid at
      (λ j u lt e. differs_of_Less s u (inr (Sorted-Less strings j mid u s sorted lt e at)))

search_lem :
    (fuel start end : ℕ) (s : U16String) (c : StringArrayContainer) (strings : List U16String)
    → HoldsStrings c strings
    → Sorted strings
    → end - start < fuel
    → end ≤ length strings
    → Below strings s start
    → Above strings s end
    → search fuel start end s c ≡ ok (index_of s strings)
search_lem zero start end s c strings held sorted enough le below above =
    absurd (omega (arith, enough))
search_lem (suc fuel) start end s c strings held sorted enough le below above =
    elim (Bool-cases (ltb start end)) [
      | inr ge ↦
          let le : end ≤ start = ground (arith, ge) in
          end_lem fuel start end s c le
          ∙ ap ok (sym (absent_lem start end s strings le below above))
      | inl lt ↦
          let less : start < end = ltb→lt start end lt in
          let mid = middle start end in
          let (from, to) = middle_lem start end less in
          let (t, at) = get_elem?-some strings mid (omega (arith, le, to)) in
          let step = step_lem fuel start end s t c less (string_at_lem c strings mid t held at) in
          elim (Ordering-cases (compare_strings s t)) [
            | inl o ↦
                let rest =
                  search_lem fuel start mid s c strings held sorted
                    (omega (arith, enough, from, to)) (omega (arith, le, to)) below
                    (Above-middle strings s t mid sorted at o) in
                ground (arith, step, o, rest)
            | inr (inl o) ↦
                let same = eq_of_compare s t o in
                let found = found_lem strings s mid sorted (at ∙ ap some (sym same)) in
                ground (arith, step, o, found)
            | inr (inr o) ↦
                let rest =
                  search_lem fuel (suc mid) end s c strings held sorted
                    (omega (arith, enough, from, to)) le
                    (Below-middle strings s t mid sorted at (compare_swap s t o)) above in
                ground (arith, step, o, rest)
          ]
    ]

available_lem :
    (strings : List U16String) (c : StringArrayContainer) (s : U16String)
    → Sorted strings
    → HoldsStrings c strings
    → get_identifier_if_available s c ≡ ok (index_of s strings)
unfolding get_identifier_if_available
available_lem strings c s sorted (all, size, text_size) =
    search_lem (suc c.array_size) 0 c.array_size s c strings (all, size, text_size) sorted
      (omega arith) (omega (arith, size)) (λ j t lt e. absurd (omega (arith, lt)))
      (λ j t le e. absurd (omega (arith, le, size, get_elem?-lt strings j t e)))

-- For a set of strings (in their order, each once) that the constructor accepts with an empty
-- mapping: the binary search ends, without a read outside the arrays, and returns the number of the
-- string, or -1 when it is not in the set; getIdentifier returns that number and throws for -1.
pub get_identifier-build :
    (strings : List U16String) (c : StringArrayContainer) (mapping : Mapping) (s : U16String)
    → Sorted strings
    → build strings [] ≡ ok (c, mapping)
    → (get_identifier_if_available s c ≡ ok (index_of s strings))
      × (get_identifier s c
          ≡ elim (index_of s strings) [ negsuc _ ↦ throws illegal_argument | pos i ↦ ok (pos i) ])
unfolding get_identifier
get_identifier-build strings c mapping s sorted e =
    let held = build-HoldsStrings strings c mapping e in
    let found = available_lem strings c s sorted held in (found, ground (arith, found))
