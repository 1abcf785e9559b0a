-- ===== src/Util/StringViewUtils.antt =====
-- src/inflection/util/StringViewUtils.cpp: replace, trim, split and join. A loop that `find` drives
-- runs on fuel, and none says that the fuel was not enough; the loops of `replace` and `split` get
-- one unit more than the string is long, which is enough for every pattern that is not empty.
pub mod Splitting
pub mod Trimming
use inflection.Prelude.{
  ℕ, zero, suc, ◌+◌, ◌-◌, Bool, true, false, not, Option, none, some, List, [], ◌∷◌, ◌++◌, leb, ltb,
  if◌then◌else◌, length, take, drop, get_elem?,
}
use inflection.Prelude.Strings.{U16String, is_empty, starts_with}

-- `find` of the standard strings, from the place where `s` starts.
unfoldable pub find : U16String → U16String → Option ℕ
find pattern [] = if is_empty pattern then some 0 else none
find pattern (x ∷ s) =
    if starts_with (x ∷ s) pattern
    then some 0
    else elim (find pattern s) [ none ↦ none | some i ↦ some (suc i) ]

-- The loop of split, on the string from lastIdx on.
unfoldable pub split_loop : ℕ → U16String → U16String → Option (List U16String)
split_loop zero s delimiter = none
split_loop (suc fuel) s delimiter = elim (find delimiter s) [
  | none ↦ some (s ∷ [])
  | some i ↦ elim (split_loop fuel (drop (i + length delimiter) s) delimiter) [
    | none ↦ none
    | some results ↦ some (take i s ∷ results)
  ]
]

unfoldable pub split : U16String → U16String → Option (List U16String)
split s delimiter = split_loop (suc (length s)) s delimiter

-- The loop of join, with the text that is there already.
unfoldable pub join_loop : U16String → List U16String → U16String → U16String
join_loop result [] delimiter = result
join_loop result (string ∷ strings) delimiter =
    if not (is_empty result)
    then join_loop ((result ++ delimiter) ++ string) strings delimiter
    else join_loop (result ++ string) strings delimiter

unfoldable pub join : List U16String → U16String → U16String
join strings delimiter = join_loop [] strings delimiter

-- The loop of replace, on the string from lastEndPos on and the text that is there already.
unfoldable pub replace_loop : ℕ → U16String → U16String → U16String → U16String → Option U16String
replace_loop zero dest s pattern replacement = none
replace_loop (suc fuel) dest s pattern replacement = elim (find pattern s) [
  | none ↦ some (dest ++ s)
  | some i ↦
      replace_loop fuel ((dest ++ take i s) ++ replacement) (drop (i + length pattern) s) pattern
        replacement
]

unfoldable pub replace : U16String → U16String → U16String → U16String → Option U16String
replace dest s pattern replacement = replace_loop (suc (length s)) dest s pattern replacement

-- `string[i] <= u' '`
unfoldable pub is_space : ℕ → Bool
is_space c = leb c 32

-- The first loop of trim: st, from the place where `s` starts.
unfoldable pub leading : U16String → ℕ
leading [] = 0
leading (c ∷ s) = if is_space c then suc (leading s) else 0

-- The second loop of trim: len, going down while string[len - 1] is a space. It does not test that
-- len is positive, so below 0 there is nothing to read: none.
unfoldable pub trailing : ℕ → U16String → Option ℕ
trailing zero s = none
trailing (suc len) s = elim (get_elem? s len) [
  | none ↦ none
  | some c ↦ if is_space c then trailing len s else some (suc len)
]

-- substr(st, len - st)
unfoldable pub trim : U16String → Option U16String
trim s =
    if ltb (leading s) (length s)
    then elim (trailing (length s) s) [
      | none ↦ none
      | some len ↦ some (take (len - leading s) (drop (leading s) s))
    ]
    else some (take (length s - leading s) (drop (leading s) s))
