-- ===== src/Prelude/Strings.antt =====
-- UTF-16 strings as lists of code units.
use Prim.Native.Char.{code}
use Prim.Native.String.{String}
use mathlib.Core.Bool.{Bool, true, false, ◌&&◌}
use mathlib.Core.List.{List, [], ◌∷◌}
use mathlib.Core.Logic.{◌↔◌}
use mathlib.Core.Path.{◌≡◌}
use native.Mathlib.Omega.{arith}
use Prim.Native.Nat.{ℕ, ◌-◌}
use inflection.Prelude.Tests.{◌==◌, leb}
use inflection.Prelude.Lists.{length, drop}

-- std::u16string and std::u16string_view.
abbrev pub U16String : Type 0
U16String = List ℕ

-- The code points of a literal; its code units, as every literal used is in the BMP.
abbrev pub codes : String → U16String
codes String.[] = []
codes (String.◌∷◌ c s) = code c ∷ codes s

abbrev pub is_empty {ℓ} : {A : Type ℓ} → List A → Bool
is_empty [] = true
is_empty (x ∷ xs) = false

-- `==` on strings.
unfoldable pub equals : U16String → U16String → Bool
equals [] [] = true
equals [] (y ∷ ys) = false
equals (x ∷ xs) [] = false
equals (x ∷ xs) (y ∷ ys) = x == y && equals xs ys

pub equals_iff : (xs ys : U16String) → (equals xs ys ≡ true) ↔ (xs ≡ ys)
unfolding equals
equals_iff [] [] = ground arith
equals_iff [] (y ∷ ys) = ground arith
equals_iff (x ∷ xs) [] = ground arith
equals_iff (x ∷ xs) (y ∷ ys) = ground (arith, equals_iff xs ys)

-- `starts_with` and `ends_with` of the standard strings.
unfoldable pub starts_with : U16String → U16String → Bool
starts_with s [] = true
starts_with [] (p ∷ ps) = false
starts_with (x ∷ s) (p ∷ ps) = x == p && starts_with s ps

unfoldable pub ends_with : U16String → U16String → Bool
ends_with s suffix =
    leb (length suffix) (length s) && equals (drop (length s - length suffix) s) suffix
