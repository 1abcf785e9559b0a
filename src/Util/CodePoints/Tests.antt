-- ===== src/Util/CodePoints/Tests.antt =====
-- Tests and examples of the functions on code points.
use inflection.Prelude.{
  ℕ, ◌+◌, ◌-◌, ◌*◌, ◌/◌, ◌%◌, Bool, ◌&&◌, ◌||◌, [], ◌∷◌, if◌then◌else◌, ltb, leb, get_or, ◌≡◌, refl,
  arith, ok, some,
}
use inflection.Prelude.Strings.{U16String}
use inflection.Util.CodePoints.{
  Utf16, reverse, swap_loop, restore_pairs, remove_set_from_string, replace_set_from_string,
  replace_set_loop, code_point_at, append_code_point,
}
use inflection.Util.CodePoints.Reverse.{IsUtf16, code_points_backwards, reverse_lem}

abbrev lead_unit : ℕ → Bool
lead_unit c = leb 55296 c && ltb c 56320

abbrev trail_unit : ℕ → Bool
trail_unit c = leb 56320 c && ltb c 57344

-- The macros, for strings without an unpaired surrogate.
abbrev macros : Utf16
macros = record {
  get = λ str index.
      let c = get_or str index 0 in
      if lead_unit c then (c - 55296) * 1024 + (get_or str (index + 1) 0 - 56320) + 65536 else c;
  len = λ cp. if ltb cp 65536 then 1 else 2;
  lead = λ cp. (cp - 65536) / 1024 + 55296;
  trail = λ cp. (cp - 65536) % 1024 + 56320;
  is_lead = lead_unit;
  is_trail = trail_unit;
  is_surrogate = λ c. lead_unit c || trail_unit c;
}

macros-IsUtf16 : IsUtf16 macros
macros-IsUtf16 = record { disjoint = λ c h. ground (arith, h); surrogate = λ c. refl }

-- An `a`, a pair, and a `b`.
abbrev with_pair : U16String
with_pair = 97 ∷ 55357 ∷ 56832 ∷ 98 ∷ []

reverse_lem_example : reverse macros with_pair ≡ code_points_backwards macros with_pair
reverse_lem_example = reverse_lem macros with_pair macros-IsUtf16

test_reverse : reverse macros with_pair ≡ 98 ∷ 55357 ∷ 56832 ∷ 97 ∷ []
unfolding reverse swap_loop restore_pairs
test_reverse = refl

test_remove :
    remove_set_from_string macros (λ cp. leb 97 cp && ltb cp 98) with_pair
    ≡ ok (some (55357 ∷ 56832 ∷ 98 ∷ []))
unfolding remove_set_from_string replace_set_from_string replace_set_loop code_point_at
    append_code_point
test_remove = refl
