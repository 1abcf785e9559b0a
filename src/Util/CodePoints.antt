-- ===== src/Util/CodePoints.antt =====
-- The functions on code points: StringUtils.cpp (appendCodePoint, reverse), codePointAt of
-- StringViewUtils.cpp, and UnicodeSetUtils.cpp, all in src/inflection/util. The macros of ICU's utf16.h
-- are arguments.
pub mod Swaps
pub mod Reverse
mod Tests
use inflection.Prelude.{
  ℕ, zero, suc, ◌+◌, ◌-◌, ◌/◌, ◌%◌, ◌^◌, Bool, true, false, not, ◌&&◌, ◌||◌, List, [], ◌∷◌, ◌++◌,
  if◌then◌else◌, ltb, ◌==◌, length, get_or, set, Option, none, some, Outcome, ok, throws, ◌>>=◌,
  index_out_of_bounds, ℤ, pos, negsuc,
}
use inflection.Prelude.Strings.{U16String, is_empty}

-- What utf16.h says of code units and code points.
pub record Utf16 : Type 0 where
  -- U16_GET(str, 0, index, length, cp)
  pub get : U16String → ℕ → ℕ
  -- U16_LENGTH
  pub len : ℕ → ℕ
  -- U16_LEAD and U16_TRAIL
  pub lead : ℕ → ℕ
  pub trail : ℕ → ℕ
  -- U_IS_LEAD and U_IS_TRAIL, and U_IS_SURROGATE
  pub is_lead : ℕ → Bool
  pub is_trail : ℕ → Bool
  pub is_surrogate : ℕ → Bool

module _ (utf16 : Utf16) where
  unfoldable pub append_code_point : U16String → ℕ → U16String
  append_code_point dest code_point =
      if utf16.len code_point == 1
      then dest ++ (code_point % 2 ^ 16 ∷ [])
      else (dest ++ (utf16.lead code_point ∷ [])) ++ (utf16.trail code_point ∷ [])

  unfoldable pub code_point_at : U16String → ℤ → Outcome ℕ
  code_point_at str (negsuc _) = throws index_out_of_bounds
  code_point_at str (pos index) =
      if ltb index (length str) then ok (utf16.get str index) else throws index_out_of_bounds

  -- The loop of replaceSetFromString from index i on, with what is in dest.
  unfoldable pub replace_set_loop :
      (ℕ → Bool) → U16String → U16String → ℕ → ℕ → U16String → Outcome (Option U16String)
  replace_set_loop set_to_match str replacement zero i dest = ok none
  replace_set_loop set_to_match str replacement (suc fuel) i dest = elim (ltb i (length str)) [
    | false ↦ ok (some dest)
    | true ↦ code_point_at str (pos i) >>= λ cp.
        let next =
          if set_to_match cp
          then (if not (is_empty replacement) then dest ++ replacement else dest)
          else append_code_point dest cp in
        replace_set_loop set_to_match str replacement fuel (i + utf16.len cp) next
  ]

  -- none says that the fuel was not enough.
  unfoldable pub replace_set_from_string :
      (ℕ → Bool) → U16String → U16String → Outcome (Option U16String)
  replace_set_from_string set_to_match str replacement =
      replace_set_loop set_to_match str replacement (suc (length str)) 0 []

  unfoldable pub remove_set_from_string : (ℕ → Bool) → U16String → Outcome (Option U16String)
  remove_set_from_string set_to_remove str = replace_set_from_string set_to_remove str []

  -- The first loop of reverse: j from `rounds - 1` down to 0. It says whether a surrogate was seen.
  unfoldable pub swap_loop : ℕ → ℕ → Bool → U16String → U16String × Bool
  swap_loop zero n has_surrogate value = (value, has_surrogate)
  swap_loop (suc j) n has_surrogate value =
      let temp = get_or value j 0 in
      let temp2 = get_or value (n - j) 0 in
      swap_loop j n
        (if not has_surrogate
          then utf16.is_surrogate temp || utf16.is_surrogate temp2
          else has_surrogate)
        (set (set value j temp2) (n - j) temp)

  -- The second loop, from i on: the units of a pair are put back in their order.
  unfoldable pub restore_pairs : U16String → U16String
  restore_pairs [] = []
  restore_pairs (c2 ∷ []) = c2 ∷ []
  restore_pairs (c2 ∷ (c1 ∷ rest)) = elim (utf16.is_trail c2 && utf16.is_lead c1) [
    | true ↦ c1 ∷ (c2 ∷ restore_pairs rest)
    | false ↦ c2 ∷ restore_pairs (c1 ∷ rest)
  ]

  -- Of n + 1 units, j starts at (n - 1) >> 1; for fewer than two there is no round.
  unfoldable pub reverse : U16String → U16String
  reverse value =
      let (swapped, has_surrogate) = swap_loop (length value / 2) (length value - 1) false value in
      if has_surrogate then restore_pairs swapped else swapped
