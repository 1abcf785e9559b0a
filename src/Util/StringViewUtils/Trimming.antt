-- ===== src/Util/StringViewUtils/Trimming.antt =====
-- trim of src/inflection/util/StringViewUtils.cpp.
use inflection.Prelude.{
  ℕ, zero, suc, ◌+◌, ◌-◌, ◌<◌, ◌≤◌, true, false, some, [], ◌∷◌, ◌++◌, length, take, drop, ◌≡◌, refl,
  arith, All, get_elem?, ◌⊎◌, inl, inr, ap, sym, ◌∙◌, append_assoc, append-nil, length-append,
  Bool-cases, subst, ap₂,
}
use inflection.Prelude.Strings.{U16String}
use inflection.Util.StringViewUtils.{is_space, leading, trailing, trim}

abbrev pub Spaces : U16String → Type 0
Spaces s = All (λ c. is_space c ≡ true) s

-- A string that starts and ends with a character that is no space.
abbrev pub IsTrimmed : U16String → Type 0
IsTrimmed s =
    ((first : ℕ) × (rest : U16String) × (s ≡ first ∷ rest) × (is_space first ≡ false))
    × ((start : U16String) × (last : ℕ) × (s ≡ start ++ (last ∷ [])) × (is_space last ≡ false))

get_elem?-append :
    (xs ys : U16String) (k : ℕ) → get_elem? (xs ++ ys) (length xs + k) ≡ get_elem? ys k
get_elem?-append [] ys k = ap (λ (n : ℕ). get_elem? ys n) (omega arith)
get_elem?-append (x ∷ xs) ys k =
    let next : suc (length xs) + k ≡ suc (length xs + k) = omega arith in
    ap (λ (n : ℕ). get_elem? (x ∷ (xs ++ ys)) n) next ∙ get_elem?-append xs ys k

space_at :
    (post : U16String) (m : ℕ)
    → Spaces post
    → m < length post
    → (c : ℕ) × (get_elem? post m ≡ some c) × (is_space c ≡ true)
space_at [] m h lt = absurd (omega (arith, lt))
space_at (c ∷ post) zero (is, h) lt = (c, refl, is)
space_at (c ∷ post) (suc m) (is, h) lt = space_at post m h (omega (arith, lt))

-- The second loop stops behind the last character that is no space.
trailing_lem :
    (xs post : U16String) (e m : ℕ)
    → is_space e ≡ false
    → Spaces post
    → m ≤ length post
    → trailing (suc (length xs + m)) (xs ++ (e ∷ post)) ≡ some (suc (length xs))
unfolding trailing
trailing_lem xs post e zero h all le = ground (
  arith,
  h,
  get_elem?-append xs (e ∷ post) 0,
  ap (λ (n : ℕ). get_elem? (xs ++ (e ∷ post)) n) {x = length xs + 0} {y = length xs} (omega arith),
)
trailing_lem xs post e (suc m) h all le =
    let (c, c_e, is) = space_at post m all (omega (arith, le)) in
    let here = get_elem?-append xs (e ∷ post) (suc m) in
    let earlier : suc (length xs + m) ≡ length xs + suc m = omega arith in
    let step = ap (λ (n : ℕ). trailing n (xs ++ (e ∷ post))) earlier in
    ground (arith, here, c_e, is, step, trailing_lem xs post e m h all (omega (arith, le)))

-- A string is all spaces, or has a last character that is none.
abbrev HasLast : U16String → Type 0
HasLast s =
    (start : U16String) × (last : ℕ) × (post : U16String) × (s ≡ start ++ (last ∷ post))
    × (is_space last ≡ false)
    × Spaces post

HasLast-cons : (c : ℕ) (s : U16String) → HasLast s → HasLast (c ∷ s)
HasLast-cons c s (start, last, post, e, h, all) = (c ∷ start, last, post, ap (λ t. c ∷ t) e, h, all)

Spaces-or_last : (s : U16String) → Spaces s ⊎ HasLast s
Spaces-or_last [] = inl tt
Spaces-or_last (c ∷ s) = elim (Spaces-or_last s) [
  | inr last ↦ inr (HasLast-cons c s last)
  | inl all ↦ elim (Bool-cases (is_space c)) [
    | inl is ↦ inl (is, all)
    | inr is ↦ inr ([], c, s, refl, is, all)
  ]
]

abbrev StartsWithNone : U16String → Type 0
StartsWithNone s = (first : ℕ) × (rest : U16String) × (s ≡ first ∷ rest) × (is_space first ≡ false)

-- The first loop stops behind the spaces at the start.
leading_lem :
    (s : U16String)
    → (Spaces s × (leading s ≡ length s))
      ⊎ ((pre : U16String) × (rest : U16String) × (s ≡ pre ++ rest)
          × Spaces pre
          × (leading s ≡ length pre)
          × StartsWithNone rest)
unfolding leading
leading_lem [] = inl (tt, refl)
leading_lem (c ∷ s) = elim (Bool-cases (is_space c)) [
  | inr is ↦ inr ([], c ∷ s, refl, tt, ground (arith, is), (c, s, refl, is))
  | inl is ↦ elim (leading_lem s) [
    | inl (all, e) ↦ inl ((is, all), ground (arith, is, e))
    | inr (pre, rest, e, all, at, starts) ↦
        inr (c ∷ pre, rest, ap (λ t. c ∷ t) e, (is, all), ground (arith, is, at), starts)
  ]
]

drop-append : (xs ys : U16String) → drop (length xs) (xs ++ ys) ≡ ys
drop-append [] ys = refl
drop-append (x ∷ xs) ys = drop-append xs ys

take-append : (xs ys : U16String) → take (length xs) (xs ++ ys) ≡ xs
take-append [] ys = refl
take-append (x ∷ xs) ys = ap (λ t. x ∷ t) (take-append xs ys)

last_view : (first : ℕ) (rest : U16String) → is_space first ≡ false → HasLast (first ∷ rest)
last_view first rest h = elim (Spaces-or_last rest) [
  | inl all ↦ ([], first, rest, refl, h, all)
  | inr last ↦ HasLast-cons first rest last
]

trimmed_lem :
    (start rest post : U16String) (first last : ℕ)
    → first ∷ rest ≡ start ++ (last ∷ post)
    → is_space first ≡ false
    → is_space last ≡ false
    → IsTrimmed (start ++ (last ∷ []))
trimmed_lem [] rest post first last e h k = ((last, [], refl, k), ([], last, refl, k))
trimmed_lem (x ∷ start) rest post first last e h k =
    ((x, start ++ (last ∷ []), refl, ground (arith, e, h)), (x ∷ start, last, refl, k))

trim-eq :
    (pre middle post : U16String)
    → leading (pre ++ (middle ++ post)) ≡ length pre
    → trailing (length (pre ++ (middle ++ post))) (pre ++ (middle ++ post))
      ≡ some (length pre + length middle)
    → 1 ≤ length middle
    → trim (pre ++ (middle ++ post)) ≡ some middle
unfolding trim
trim-eq pre middle post at len le =
    let sizes = length-append pre (middle ++ post) in
    let inner = length-append middle post in
    let kept : length pre + length middle - length pre ≡ length middle = omega arith in
    let cut =
      ap (λ (n : ℕ). take (length pre + length middle - n) (drop n (pre ++ (middle ++ post)))) at
      ∙ ap (take (length pre + length middle - length pre)) (drop-append pre (middle ++ post))
      ∙ ap (λ (n : ℕ). take n (middle ++ post)) kept
      ∙ take-append middle post in
    ground (arith, at, len, le, sizes, inner, cut)

trim-spaces : (s : U16String) → leading s ≡ length s → trim s ≡ some []
unfolding trim
trim-spaces s e =
    let nothing : length s - leading s ≡ 0 = omega (arith, e) in
    ground (arith, e, ap (λ (n : ℕ). take n (drop (leading s) s)) nothing)

trim_with :
    (pre rest : U16String)
    → Spaces pre
    → leading (pre ++ rest) ≡ length pre
    → StartsWithNone rest
    → (middle post : U16String) × (trim (pre ++ rest) ≡ some middle)
      × (pre ++ rest ≡ pre ++ (middle ++ post))
      × Spaces post
      × IsTrimmed middle
trim_with pre rest all at (first, r, rest_e, h) =
    let (start, last, post, e, k, post_all) = last_view first r h in
    let middle : U16String = start ++ (last ∷ []) in
    let whole : rest ≡ middle ++ post = rest_e ∙ e ∙ sym (append_assoc start (last ∷ []) post) in
    let spaces_last =
      trailing_lem (pre ++ start) post last (length post) k post_all (omega arith) in
    let shape : pre ++ (middle ++ post) ≡ (pre ++ start) ++ (last ∷ post) =
      ap (λ t. pre ++ t) (append_assoc start (last ∷ []) post)
      ∙ sym (append_assoc pre start (last ∷ post)) in
    let size : length (pre ++ (middle ++ post)) ≡ suc (length (pre ++ start) + length post) =
      omega (arith, ap length shape, length-append (pre ++ start) (last ∷ post)) in
    let middle_size : suc (length (pre ++ start)) ≡ length pre + length middle =
      omega (arith, length-append pre start, length-append start (last ∷ [])) in
    let found = ap₂ trailing size shape ∙ spaces_last ∙ ap some middle_size in
    let at_whole = subst (λ t. leading (pre ++ t) ≡ length pre) whole at in
    (
      middle,
      post,
      ap (λ t. trim (pre ++ t)) whole
          ∙ trim-eq pre middle post at_whole found (omega (arith, length-append start (last ∷ []))),
      ap (λ t. pre ++ t) whole,
      post_all,
      trimmed_lem start r post first last e h k,
    )

-- trim ends, without a read before the start of the string, and what it returns is the string less
-- the spaces (characters up to U+0020) at its start and at its end: it is empty, or its first and
-- its last character are no spaces.
pub trim_lem :
    (s : U16String)
    → (pre middle post : U16String) × (trim s ≡ some middle)
      × (s ≡ pre ++ (middle ++ post))
      × Spaces pre
      × Spaces post
      × ((middle ≡ []) ⊎ IsTrimmed middle)
unfolding trim
trim_lem s = elim (leading_lem s) [
  | inl (all, e) ↦ (s, [], [], trim-spaces s e, sym (append-nil s), all, tt, inl refl)
  | inr (pre, rest, e, all, at, starts) ↦
      let at_parts = subst (λ t. leading t ≡ length pre) e at in
      let (middle, post, trimmed, whole, post_all, is_trimmed) =
        trim_with pre rest all at_parts starts in
      (pre, middle, post, ap trim e ∙ trimmed, e ∙ whole, all, post_all, inr is_trimmed)
]
