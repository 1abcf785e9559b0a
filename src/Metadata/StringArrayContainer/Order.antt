-- ===== src/Metadata/StringArrayContainer/Order.antt =====
-- The order of the strings: compare of the standard strings, and sorted lists.
use Prim.Native.Nat.{Ordering}
use inflection.Prelude.{ℕ, zero, suc, ◌<◌, some, List, [], ◌∷◌, ◌≡◌, refl, arith, All, get_elem?}
use inflection.Prelude.Strings.{U16String}
use inflection.Metadata.StringArrayContainer.{compare_strings}

abbrev pub Less : U16String → U16String → Type 0
Less a b = compare_strings a b ≡ Ordering.lt

pub Less-trans : (a b c : U16String) → Less a b → Less b c → Less a c
unfolding compare_strings
Less-trans [] [] c h k = absurd (ground (arith, h))
Less-trans [] (y ∷ b) [] h k = absurd (ground (arith, k))
Less-trans [] (y ∷ b) (z ∷ c) h k = refl
Less-trans (x ∷ a) [] c h k = absurd (ground (arith, h))
Less-trans (x ∷ a) (y ∷ b) [] h k = absurd (ground (arith, k))
Less-trans (x ∷ a) (y ∷ b) (z ∷ c) h k = ground (arith, Less-trans a b c)

pub eq_of_compare : (a b : U16String) → compare_strings a b ≡ Ordering.eq → a ≡ b
unfolding compare_strings
eq_of_compare [] [] h = refl
eq_of_compare [] (y ∷ b) h = absurd (ground (arith, h))
eq_of_compare (x ∷ a) [] h = absurd (ground (arith, h))
eq_of_compare (x ∷ a) (y ∷ b) h = ground (arith, eq_of_compare a b)

pub compare_swap : (a b : U16String) → compare_strings a b ≡ Ordering.gt → Less b a
unfolding compare_strings
compare_swap [] [] h = absurd (ground (arith, h))
compare_swap [] (y ∷ b) h = absurd (ground (arith, h))
compare_swap (x ∷ a) [] h = refl
compare_swap (x ∷ a) (y ∷ b) h = ground (arith, compare_swap a b)

pub Less-irrefl : (a : U16String) → Less a a → ⊥
unfolding compare_strings
Less-irrefl [] h = ground (arith, h)
Less-irrefl (x ∷ a) h = ground (arith, h, Less-irrefl a)

-- The strings of a std::set: in order, and each once.
abbrev pub Sorted : List U16String → Type 0
Sorted [] = Unit
Sorted (s ∷ strings) = All (λ t. Less s t) strings × Sorted strings

All-get :
    (s : U16String) (strings : List U16String) (i : ℕ) (t : U16String)
    → All (λ t. Less s t) strings
    → get_elem? strings i ≡ some t
    → Less s t
All-get s [] i t h e = absurd (ground (arith, e))
All-get s (u ∷ strings) zero t (h, rest) e = ground (arith, e, h)
All-get s (u ∷ strings) (suc i) t (h, rest) e = All-get s strings i t rest e

pub Sorted-Less :
    (strings : List U16String) (i j : ℕ) (s t : U16String)
    → Sorted strings
    → i < j
    → get_elem? strings i ≡ some s
    → get_elem? strings j ≡ some t
    → Less s t
Sorted-Less [] i j s t h lt e f = absurd (ground (arith, e))
Sorted-Less (u ∷ strings) i zero s t h lt e f = absurd (omega (arith, lt))
Sorted-Less (u ∷ strings) zero (suc j) s t (all, h) lt e f =
    let first : u ≡ s = ground (arith, e) in ground (arith, first, All-get u strings j t all f)
Sorted-Less (u ∷ strings) (suc i) (suc j) s t (all, h) lt e f =
    Sorted-Less strings i j s t h (omega (arith, lt)) e f
