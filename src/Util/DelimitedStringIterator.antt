-- ===== src/Util/DelimitedStringIterator.antt =====
-- src/inflection/util/DelimitedStringIterator.cpp: the parts of a string at a delimiter, one at a
-- time. `collect` is a loop of a client, which reads the string and steps on while there is one.
pub mod Parts
use inflection.Prelude.{
  ℕ, zero, suc, ◌+◌, ◌-◌, Bool, true, false, not, ◌||◌, Option, none, some, List, [], ◌∷◌, leb, ltb,
  if◌then◌else◌, length, take, drop, Outcome, ok, throws, index_out_of_bounds, ◌>>=◌,
}
use inflection.Prelude.Strings.{U16String, is_empty}
use inflection.Util.StringViewUtils.{find}

pub record Iterator : Type 0 where
  pub delimiter_string : U16String
  pub original_string : U16String
  pub current_string : U16String
  pub current_index : ℕ

unfoldable pub has_next : Iterator → Bool
has_next it = ltb it.current_index (length it.original_string) || not (is_empty it.current_string)

unfoldable pub get_next : Iterator → Iterator
get_next it =
    let rest = drop it.current_index it.original_string in
    if leb (length it.original_string) it.current_index
    then record it { current_string = [] }
    else elim (find it.delimiter_string rest) [
      | some i ↦ record it {
        current_string = take i rest;
        current_index = it.current_index + i + length it.delimiter_string;
      }
      | none ↦ record it { current_string = rest; current_index = length it.original_string }
    ]

-- The constructor.
unfoldable pub construct : U16String → U16String → Iterator
unfolding has_next get_next
construct str delimiter_string =
    let it : Iterator = record {
      delimiter_string = delimiter_string;
      original_string = str;
      current_string = [];
      current_index = 0;
    } in
    if has_next it then get_next it else it

-- operator++
unfoldable pub increment : Iterator → Outcome Iterator
unfolding has_next get_next
increment it = if not (has_next it) then throws index_out_of_bounds else ok (get_next it)

unfoldable pub collect : ℕ → Iterator → Outcome (Option (List U16String))
unfolding has_next increment
collect zero it = ok none
collect (suc fuel) it =
    if has_next it
    then (do
      next ← increment it
      strings ← collect fuel next
      ok (elim strings [ none ↦ none | some rest ↦ some (it.current_string ∷ rest) ]))
    else ok (some [])
