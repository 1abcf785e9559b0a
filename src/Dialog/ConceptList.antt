-- ===== src/Dialog/ConceptList.antt =====
-- src/inflection/dialog/SemanticConceptList.cpp: a list of concepts that is printed with text
-- before, between, after and around its items. The virtual functions of an item are the record
-- `ConceptOps` over the item's state; those of the list, which its subclasses replace, are `Hooks`,
-- with the base class's in `base_hooks`. As every item is an own clone, an item's pointer is told
-- by its place in the vector. Features are told apart by their names.
pub mod Shape
pub mod Copies
use inflection.Prelude.{
  ℕ, suc, ◌+◌, Bool, true, false, not, ◌&&◌, ◌||◌, Option, none, some, List, [], ◌∷◌, ◌++◌, map,
  if◌then◌else◌, ◌==◌, length, get_elem?,
}
use inflection.Prelude.Strings.{U16String, codes, starts_with, ends_with, is_empty as is_nil}
use inflection.Dialog.Constraints.{FeatureMap, put, erase}
use inflection.Dialog.SpeakableString.{SpeakableString, of_print, append, is_empty, copy}

-- The operations of SemanticFeatureConceptBase that the list calls, for an item's state `C`.
pub record ConceptOps (C : Type 0) : Type 0 where
  pub clone : C → C
  pub put_constraint : U16String → U16String → C → C
  pub clear_constraint : U16String → C → C
  pub reset : C → C
  pub feature_value : U16String → C → Option SpeakableString
  pub to_speakable_string : C → Option SpeakableString

pub record ConceptList (C : Type 0) : Type 0 where
  pub concepts : List C
  pub constraints : FeatureMap
  pub before_first : SpeakableString
  pub after_first : SpeakableString
  pub item_delimiter : SpeakableString
  pub before_last : SpeakableString
  pub after_last : SpeakableString
  pub item_prefix : SpeakableString
  pub item_suffix : SpeakableString
  pub avoid_affix_redundancy : Bool

-- The virtual functions of the list. A function of two items takes them with their texts.
pub record Hooks (C : Type 0) : Type 0 where
  pub get_before_first : C → SpeakableString → SpeakableString
  pub get_after_first : C → SpeakableString → C → SpeakableString → SpeakableString
  pub get_item_delimiter : C → SpeakableString → C → SpeakableString → SpeakableString
  pub get_before_last : C → SpeakableString → C → SpeakableString → SpeakableString
  pub get_after_last : C → SpeakableString → SpeakableString
  pub get_item_prefix : C → SpeakableString → SpeakableString
  pub get_item_suffix : C → SpeakableString → SpeakableString

-- `x.isEmpty() ? hook : x`
abbrev pub or_hook : SpeakableString → SpeakableString → SpeakableString
or_hook own hook = if is_empty own then hook else own

-- An item that was printed: its place, its state and its text.
pub record Printed (C : Type 0) : Type 0 where
  pub place : ℕ
  pub item : C
  pub text : SpeakableString

module _ {C : Type 0} where
  -- The base class returns its own members.
  abbrev pub base_hooks : ConceptList C → Hooks C
  base_hooks l = record {
    get_before_first = λ _ _. l.before_first;
    get_after_first = λ _ _ _ _. l.after_first;
    get_item_delimiter = λ _ _ _ _. l.item_delimiter;
    get_before_last = λ _ _ _ _. l.before_last;
    get_after_last = λ _ _. l.after_last;
    get_item_prefix = λ _ _. l.item_prefix;
    get_item_suffix = λ _ _. l.item_suffix;
  }

module _ {C : Type 0} (hooks : Hooks C) (l : ConceptList C) where
  -- What stands before the first item, and the text displayed so far.
  opening : Printed C → SpeakableString → SpeakableString
  opening this display =
      if this.place == 0
      then append display (or_hook l.before_first (hooks.get_before_first this.item this.text))
      else display

  -- `currentItemDelimiter` behind the item printed before.
  delimiter_after : Printed C → Printed C → SpeakableString
  delimiter_after previous this =
      let empty = of_print [] in
      let first =
        if previous.place == 0
        then append empty (
            or_hook l.after_first
              (hooks.get_after_first previous.item previous.text this.item this.text))
        else empty in
      if this.place + 1 == length l.concepts
      then append first (
          or_hook l.before_last
            (hooks.get_before_last previous.item previous.text this.item this.text))
      else first

  -- The delimiter is written between items only: not before the first place, and in no list of one.
  separated : Option (Printed C) → Printed C → SpeakableString → SpeakableString
  unfolding delimiter_after
  separated none this display = display
  separated (some previous) this display =
      let delimiter = delimiter_after previous this in
      if not (length l.concepts == 1) && not (this.place == 0)
      then if is_empty delimiter
        then append display (
            or_hook l.item_delimiter
              (hooks.get_item_delimiter previous.item previous.text this.item this.text))
        else append display delimiter
      else display

  -- The item between its prefix and its suffix, each left out if the text has it already.
  affixed : Printed C → SpeakableString → SpeakableString
  affixed this display =
      let prefix = or_hook l.item_prefix (hooks.get_item_prefix this.item this.text) in
      let suffix = or_hook l.item_suffix (hooks.get_item_suffix this.item this.text) in
      let before =
        if not l.avoid_affix_redundancy || not (starts_with this.text.print prefix.print)
        then append display prefix
        else display in
      let written = append before this.text in
      if not l.avoid_affix_redundancy || not (ends_with this.text.print suffix.print)
      then append written suffix
      else written

  closing : Printed C → SpeakableString → SpeakableString
  closing this display =
      if this.place + 1 == length l.concepts
      then append display (or_hook l.after_last (hooks.get_after_last this.item this.text))
      else display

  -- One round of the loop for an item with a text.
  print_item : Option (Printed C) → Printed C → SpeakableString → SpeakableString
  unfolding opening separated affixed closing
  print_item previous this display =
      closing this (affixed this (separated previous this (opening this display)))

  -- An item without a text is passed over, and does not become the previous one.
  print_items :
      (C → Option SpeakableString)
      → ℕ
      → Option (Printed C)
      → SpeakableString
      → List C
      → SpeakableString
  unfolding print_item
  print_items value place previous display [] = display
  print_items value place previous display (item ∷ items) = elim (value item) [
    | none ↦ print_items value (suc place) previous display items
    | some text ↦
        let this : Printed C = record { place = place; item = item; text = text } in
        let skip = print_items value (suc place) previous display items in
        let go =
          print_items value (suc place) (some this) (print_item previous this display) items in
        if is_empty text then skip else go
  ]

  display_items : (C → Option SpeakableString) → List C → Option SpeakableString
  display_items value [] = none
  display_items value (item ∷ items) = some (print_items value 0 none (of_print []) (item ∷ items))

  -- toSpeakableString(feature), where `value` is the call on an item.
  pub display : (C → Option SpeakableString) → Option SpeakableString
  display value = display_items value l.concepts

module _ {C : Type 0} (ops : ConceptOps C) where
  -- SemanticConceptList(model, values): clones of the values that are not null.
  clones : List (Option C) → List C
  clones [] = []
  clones (none ∷ values) = clones values
  clones (some value ∷ values) = ops.clone value ∷ clones values

  pub of_values : List (Option C) → ConceptList C
  unfolding clones of_print
  of_values values = record {
    concepts = clones values;
    constraints = [];
    before_first = of_print [];
    after_first = of_print [];
    item_delimiter = of_print [];
    before_last = of_print [];
    after_last = of_print [];
    item_prefix = of_print [];
    item_suffix = of_print [];
    avoid_affix_redundancy = true;
  }

  -- SemanticConceptList(other), and so clone(): avoidAffixRedundancy is not in the list of members,
  -- and takes its default.
  pub copy_list : ConceptList C → ConceptList C
  unfolding copy
  copy_list other = record {
    concepts = map ops.clone other.concepts;
    constraints = other.constraints;
    before_first = copy other.before_first;
    after_first = copy other.after_first;
    item_delimiter = copy other.item_delimiter;
    before_last = copy other.before_last;
    after_last = copy other.after_last;
    item_prefix = copy other.item_prefix;
    item_suffix = copy other.item_suffix;
    avoid_affix_redundancy = true;
  }

  pub put_constraint : U16String → U16String → ConceptList C → ConceptList C
  put_constraint feature value l = record l {
    concepts = map (ops.put_constraint feature value) l.concepts;
    constraints = put feature value l.constraints;
  }

  pub clear_constraint : U16String → ConceptList C → ConceptList C
  clear_constraint feature l = record l {
    concepts = map (ops.clear_constraint feature) l.concepts;
    constraints = erase feature l.constraints;
  }

  pub reset : ConceptList C → ConceptList C
  reset l = record l { concepts = map ops.reset l.concepts; constraints = [] }

  -- toSpeakableString()
  pub to_speakable_string : Hooks C → ConceptList C → Option SpeakableString
  unfolding display
  to_speakable_string hooks l = display hooks l ops.to_speakable_string

  -- A feature that is no grammatical category of the locale is asked of every item, a category of
  -- the first alone.
  pub get_feature_value :
      Hooks C → (U16String → Bool) → U16String → ConceptList C → Option SpeakableString
  unfolding display
  get_feature_value hooks is_category feature l = elim l.concepts [
    | [] ↦ none
    | first ∷ _ ↦
        if is_category feature
        then ops.feature_value feature first
        else display hooks l (ops.feature_value feature)
  ]

  join_commas : Bool → SpeakableString → List C → SpeakableString
  unfolding of_print append
  join_commas started display [] = display
  join_commas started display (item ∷ items) =
      let comma = if started then append display (of_print (codes ", ")) else display in
      join_commas true
        (elim (ops.to_speakable_string item) [ none ↦ comma | some text ↦ append comma text ]) items

  pub to_string : ConceptList C → U16String
  unfolding join_commas
  to_string l = codes "[" ++ ((join_commas false (of_print []) l.concepts).print ++ codes "]")

module _ {C : Type 0} (l : ConceptList C) where
  pub get_size : ℕ
  get_size = length l.concepts

  -- get(index) and operator[]: vector::at throws std::out_of_range, told as none.
  pub get : ℕ → Option C
  get index = get_elem? l.concepts index

  pub is_exists : Bool
  is_exists = not (is_nil l.concepts)

-- The setters, which copy the text that they are given.
unfoldable pub set_before_first : {C : Type 0} → SpeakableString → ConceptList C → ConceptList C
unfolding copy
set_before_first value l = record l { before_first = copy value }

unfoldable pub set_after_first : {C : Type 0} → SpeakableString → ConceptList C → ConceptList C
unfolding copy
set_after_first value l = record l { after_first = copy value }

unfoldable pub set_item_delimiter : {C : Type 0} → SpeakableString → ConceptList C → ConceptList C
unfolding copy
set_item_delimiter value l = record l { item_delimiter = copy value }

unfoldable pub set_before_last : {C : Type 0} → SpeakableString → ConceptList C → ConceptList C
unfolding copy
set_before_last value l = record l { before_last = copy value }

unfoldable pub set_after_last : {C : Type 0} → SpeakableString → ConceptList C → ConceptList C
unfolding copy
set_after_last value l = record l { after_last = copy value }

unfoldable pub set_item_prefix : {C : Type 0} → SpeakableString → ConceptList C → ConceptList C
unfolding copy
set_item_prefix value l = record l { item_prefix = copy value }

unfoldable pub set_item_suffix : {C : Type 0} → SpeakableString → ConceptList C → ConceptList C
unfolding copy
set_item_suffix value l = record l { item_suffix = copy value }

unfoldable pub set_avoid_item_affix_redundancy : {C : Type 0} → Bool → ConceptList C → ConceptList C
set_avoid_item_affix_redundancy value l = record l { avoid_affix_redundancy = value }
