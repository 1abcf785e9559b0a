-- ===== src/Util/Tests.antt =====
-- Tests and examples of the functions on strings.
use inflection.Prelude.{suc, List, [], ◌∷◌, ◌++◌, ◌≡◌, ◌≢◌, refl, some, none, ok, length, ◌⊎◌}
use inflection.Prelude.Strings.{U16String, codes, starts_with}
use inflection.Util.StringViewUtils.{
  find, split, split_loop, join, replace, replace_loop, trim, leading, trailing, is_space,
}
use inflection.Util.StringViewUtils.Splitting.{split_lem, join-split, IsSplit, split_loop-empty}
use inflection.Util.StringViewUtils.Trimming.{trim_lem, Spaces, IsTrimmed}
use inflection.Util.DelimitedStringIterator.{construct, collect, get_next, has_next, increment}
use inflection.Util.DelimitedStringIterator.Parts.{collect-split, shown}

abbrev comma : U16String
comma = codes ", "

comma-IsNonempty : comma ≢ []
comma-IsNonempty e = cc

test_split : split (codes "a, b, ") comma ≡ some (codes "a" ∷ codes "b" ∷ codes "" ∷ [])
unfolding split split_loop find starts_with
test_split = refl

test_replace : replace [] (codes "x, y") comma (codes "-") ≡ some (codes "x-y")
unfolding replace replace_loop find starts_with
test_replace = refl

test_trim : trim (codes "  a b ") ≡ some (codes "a b")
unfolding trim leading trailing is_space
test_trim = refl

test_trim_blank : trim (codes "  ") ≡ some []
unfolding trim leading trailing is_space
test_trim_blank = refl

test_collect :
    collect 9 (construct (codes "a, b, , ") comma) ≡ ok (some (codes "a" ∷ codes "b" ∷ []))
unfolding collect construct get_next has_next increment find starts_with
test_collect = refl

split_lem_example :
    (parts : List U16String) × (split (codes "a, b") comma ≡ some parts)
    × IsSplit (codes "a, b") comma parts
split_lem_example = split_lem (codes "a, b") comma comma-IsNonempty

join-split_example :
    (parts : List U16String) × (split (codes "a, b") comma ≡ some parts)
    × (join parts comma ≡ codes "a, b")
unfolding starts_with
join-split_example = join-split (codes "a, b") comma comma-IsNonempty refl

split_loop-empty_example : split_loop 5 (codes "ab") [] ≡ none
split_loop-empty_example = split_loop-empty 5 (codes "ab")

collect-split_example :
    (parts : List U16String) × (split (codes "a, ") comma ≡ some parts)
    × (collect (suc (suc (length (codes "a, ")))) (construct (codes "a, ") comma)
        ≡ ok (some (shown parts)))
collect-split_example = collect-split (codes "a, ") comma comma-IsNonempty

trim_lem_example :
    (pre middle post : U16String) × (trim (codes " a b ") ≡ some middle)
    × (codes " a b " ≡ pre ++ (middle ++ post))
    × Spaces pre
    × Spaces post
    × ((middle ≡ []) ⊎ IsTrimmed middle)
trim_lem_example = trim_lem (codes " a b ")
