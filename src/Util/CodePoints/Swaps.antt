-- ===== src/Util/CodePoints/Swaps.antt =====
-- The first loop of reverse of StringUtils.cpp turns the code units around.
use inflection.Prelude.{
  ℕ, zero, suc, ◌+◌, ◌-◌, ◌/◌, ◌≤◌, ◌<◌, Bool, false, not, ◌||◌, List, [], ◌∷◌, ◌++◌, if◌then◌else◌,
  ltb, ◌==◌, length, length-append, length-set, get_or, set, get_or-set_self, get_or-set_ne, ◌≡◌,
  refl, arith, ap, ap₂, ◌∙◌, sym, Bool-cases, inl, inr,
}
use inflection.Prelude.Strings.{U16String}
use inflection.Util.CodePoints.{Utf16, swap_loop}

abbrev pub backwards {ℓ} : {A : Type ℓ} → List A → List A
backwards [] = []
backwards (x ∷ xs) = backwards xs ++ (x ∷ [])

pub length-backwards : (xs : U16String) → length (backwards xs) ≡ length xs
length-backwards [] = refl
length-backwards (x ∷ xs) =
    omega (arith, length-append (backwards xs) (x ∷ []), length-backwards xs)

get_or-append_left :
    (xs ys : U16String) (k : ℕ) → k < length xs → get_or (xs ++ ys) k 0 ≡ get_or xs k 0
get_or-append_left [] ys k h = absurd (omega (arith, h))
get_or-append_left (x ∷ xs) ys zero h = refl
get_or-append_left (x ∷ xs) ys (suc k) h = get_or-append_left xs ys k (omega (arith, h))

get_or-append_last : (xs : U16String) (y : ℕ) → get_or (xs ++ (y ∷ [])) (length xs) 0 ≡ y
get_or-append_last [] y = refl
get_or-append_last (x ∷ xs) y = get_or-append_last xs y

pub get_or-backwards :
    (xs : U16String) (k j : ℕ) → j + suc k ≡ length xs → get_or (backwards xs) k 0 ≡ get_or xs j 0
get_or-backwards [] k j h = absurd (omega (arith, h))
get_or-backwards (x ∷ xs) k zero h =
    let last : k ≡ length (backwards xs) = omega (arith, h, length-backwards xs) in
    ap (λ i. get_or (backwards xs ++ (x ∷ [])) i 0) last ∙ get_or-append_last (backwards xs) x
get_or-backwards (x ∷ xs) k (suc j) h =
    get_or-append_left (backwards xs) (x ∷ []) k (omega (arith, h, length-backwards xs))
    ∙ get_or-backwards xs k j (omega (arith, h))

eq_of_units :
    (xs ys : U16String)
    → length xs ≡ length ys
    → ((k : ℕ) → k < length xs → get_or xs k 0 ≡ get_or ys k 0)
    → xs ≡ ys
eq_of_units [] [] h e = refl
eq_of_units [] (y ∷ ys) h e = absurd (omega (arith, h))
eq_of_units (x ∷ xs) [] h e = absurd (omega (arith, h))
eq_of_units (x ∷ xs) (y ∷ ys) h e =
    ap₂ (λ a t. a ∷ t) (e zero (omega arith))
      (eq_of_units xs ys (omega (arith, h)) (λ k less. e (suc k) (omega (arith, less))))

get_or-set :
    (xs : U16String) (i j v : ℕ)
    → i < length xs
    → get_or (set xs i v) j 0 ≡ (if j == i then v else get_or xs j 0)
get_or-set xs i j v h = elim (Bool-cases (j == i)) [
  | inl e ↦
      let same : j ≡ i = ground (arith, e) in
      ap (λ k. get_or (set xs i v) k 0) same ∙ ground (arith, get_or-set_self xs i v 0 h, e)
  | inr e ↦ ground (arith, get_or-set_ne xs i j v 0 (λ same. ground (arith, e, same)), e)
]

module _ (utf16 : Utf16) where
  length-swap_loop :
      (r n : ℕ) (b : Bool) (v : U16String) → length ((swap_loop utf16 r n b v).0) ≡ length v
  unfolding swap_loop
  length-swap_loop zero n b v = refl
  length-swap_loop (suc j) n b v =
      length-swap_loop j n _ _
      ∙ length-set (set v j (get_or v (n - j) 0)) (n - j) (get_or v j 0)
      ∙ length-set v j (get_or v (n - j) 0)

  -- One round.
  get_or-swap :
      (v : U16String) (j n k : ℕ)
      → j < n - j
      → n < length v
      → get_or (set (set v j (get_or v (n - j) 0)) (n - j) (get_or v j 0)) k 0 ≡ (
          if k == (n - j)
          then get_or v j 0
          else if k == j
          then get_or v (n - j) 0
          else get_or v k 0)
  get_or-swap v j n k h room =
      let t2 = get_or v (n - j) 0 in
      let inside : n - j < length (set v j t2) = omega (arith, h, room, length-set v j t2) in
      let outer = get_or-set (set v j t2) (n - j) k (get_or v j 0) inside in
      let inner = get_or-set v j k t2 (omega (arith, h, room)) in ground (arith, outer, inner)

  get_or-swap_loop :
      (r n : ℕ) (b : Bool) (v : U16String) (k : ℕ)
      → r + r ≤ n + 1
      → n < length v
      → k ≤ n
      → get_or ((swap_loop utf16 r n b v).0) k 0
        ≡ (if ltb k r || ltb (n - k) r then get_or v (n - k) 0 else get_or v k 0)
  unfolding swap_loop
  get_or-swap_loop zero n b v k h room le = ground arith
  get_or-swap_loop (suc j) n b v k h room le =
      let t2 = get_or v (n - j) 0 in
      let t1 = get_or v j 0 in
      let w : U16String = set (set v j t2) (n - j) t1 in
      let flag : Bool = if not b then utf16.is_surrogate t1 || utf16.is_surrogate t2 else b in
      let same_length : length w ≡ length v =
        length-set (set v j t2) (n - j) t1 ∙ length-set v j t2 in
      let later =
        get_or-swap_loop j n flag w k (omega (arith, h)) (omega (arith, room, same_length)) le in
      let here = get_or-swap v j n k (omega (arith, h)) room in
      let there = get_or-swap v j n (n - k) (omega (arith, h)) room in
      elim (Bool-cases (k == j)) [
        | inl e ↦
            let far = ap (λ t. get_or v (n - t) 0) {x = k} {y = j} (ground (arith, e)) in
            ground (arith, later, here, there, e, far, h, le)
        | inr e ↦ elim (Bool-cases ((n - k) == j)) [
          | inl e' ↦
              let far = ap (λ t. get_or v t 0) {x = n - k} {y = j} (ground (arith, e')) in
              ground (arith, later, here, there, e, e', far, h, le)
          | inr e' ↦ ground (arith, later, here, there, e, e', h, le)
        ]
      ]

  pub swap_loop-backwards :
      (b : Bool) (v : U16String)
      → (swap_loop utf16 (length v / 2) (length v - 1) b v).0 ≡ backwards v
  swap_loop-backwards b v =
      let w = (swap_loop utf16 (length v / 2) (length v - 1) b v).0 in
      let same_length : length w ≡ length v = length-swap_loop (length v / 2) (length v - 1) b v in
      eq_of_units w (backwards v) (same_length ∙ sym (length-backwards v)) (λ k less.
        let at =
          get_or-swap_loop (length v / 2) (length v - 1) b v k (omega arith)
            (omega (arith, less, same_length)) (omega (arith, less, same_length)) in
        let back = get_or-backwards v k (length v - 1 - k) (omega (arith, less, same_length)) in
        elim (Bool-cases (ltb k (length v / 2) || ltb (length v - 1 - k) (length v / 2))) [
          | inl e ↦ ground (arith, at, back, e)
          | inr e ↦
              let middle : k ≡ length v - 1 - k = ground (arith, e, less, same_length) in
              ground (arith, at, back, e, ap (λ t. get_or v t 0) middle)
        ])

  -- Without a surrogate, each unit but one in the middle is none.
  pub no_surrogate :
      (r n : ℕ) (b : Bool) (v : U16String)
      → r + r ≤ n + 1
      → n < length v
      → (swap_loop utf16 r n b v).1 ≡ false
      → (b ≡ false)
        × ((k : ℕ)
            → k < r
            → (utf16.is_surrogate (get_or v k 0) ≡ false)
              × (utf16.is_surrogate (get_or v (n - k) 0) ≡ false))
  unfolding swap_loop
  no_surrogate zero n b v h room e = (e, λ k less. absurd (omega (arith, less)))
  no_surrogate (suc j) n b v h room e =
      let t2 = get_or v (n - j) 0 in
      let t1 = get_or v j 0 in
      let w : U16String = set (set v j t2) (n - j) t1 in
      let flag : Bool = if not b then utf16.is_surrogate t1 || utf16.is_surrogate t2 else b in
      let same_length : length w ≡ length v =
        length-set (set v j t2) (n - j) t1 ∙ length-set v j t2 in
      let (flag_e, later) =
        no_surrogate j n flag w (omega (arith, h)) (omega (arith, room, same_length)) e in
      (
        ground (arith, flag_e),
        λ k less. elim (Bool-cases (k == j)) [
          | inl same ↦
              let same : k ≡ j = ground (arith, same) in
              (
                ap (λ t. utf16.is_surrogate (get_or v t 0)) same ∙ ground (arith, flag_e),
                ap (λ t. utf16.is_surrogate (get_or v (n - t) 0)) same ∙ ground (arith, flag_e),
              )
          | inr other ↦
              let near : k < j = ground (arith, other, less) in
              let here = get_or-swap v j n k (omega (arith, h)) room in
              let there = get_or-swap v j n (n - k) (omega (arith, h)) room in
              (
                ap utf16.is_surrogate {x = get_or v k 0} {y = get_or w k 0}
                      (ground (arith, here, h, near, other))
                    ∙ (later k near).0,
                ap utf16.is_surrogate {x = get_or v (n - k) 0} {y = get_or w (n - k) 0}
                      (ground (arith, there, h, near, other))
                    ∙ (later k near).1,
              )
        ],
      )
