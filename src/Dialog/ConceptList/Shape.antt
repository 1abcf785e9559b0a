-- ===== src/Dialog/ConceptList/Shape.antt =====
-- What a list of the base class displays, described without its loop.
use inflection.Prelude.{
  ℕ, zero, suc, ◌+◌, ◌≤◌, Bool, true, false, not, ◌&&◌, ◌||◌, Option, none, some, List, [], ◌∷◌,
  ◌++◌, ◌≡◌, refl, sym, ap, ◌∙◌, arith, if◌then◌else◌, ◌==◌, length, append_assoc, append-nil, All,
  Bool-cases, inl, inr,
}
use inflection.Prelude.Strings.{U16String, starts_with, ends_with}
use inflection.Dialog.SpeakableString.{SpeakableString, of_print, append, is_empty}
use inflection.Dialog.SpeakableString.Laws.{
  said, said-append, said_nothing, is_empty-append, is_empty_nothing,
}
use inflection.Dialog.ConceptList.{
  ConceptList, Printed, base_hooks, opening, separated, affixed, closing, print_item, print_items,
  display, display_items,
}

module _ {C : Type 0} (l : ConceptList C) where
  -- What stands before the item at a place of a list of `n`: the list's opening before the first;
  -- before the second and the last their own delimiters, if they have a text; else the item delimiter.
  pub junction : ℕ → ℕ → List SpeakableString
  junction n zero = l.before_first ∷ []
  junction n (suc p) =
      let first = if p == 0 then l.after_first ∷ [] else [] in
      let last = if p + 2 == n then l.before_last ∷ [] else [] in
      if (p == 0 && not (is_empty l.after_first)) || (p + 2 == n && not (is_empty l.before_last))
      then first ++ last
      else l.item_delimiter ∷ []

  lacks_prefix : SpeakableString → Bool
  lacks_prefix text =
      not l.avoid_affix_redundancy || not (starts_with text.print l.item_prefix.print)

  lacks_suffix : SpeakableString → Bool
  lacks_suffix text = not l.avoid_affix_redundancy || not (ends_with text.print l.item_suffix.print)

  -- An item between the prefix and the suffix that it does not have yet.
  pub around : SpeakableString → List SpeakableString
  unfolding lacks_prefix lacks_suffix
  around text =
      (if lacks_prefix text then l.item_prefix ∷ [] else [])
      ++ (text ∷ (if lacks_suffix text then l.item_suffix ∷ [] else []))

  pub pieces : (C → SpeakableString) → ℕ → ℕ → List C → List SpeakableString
  pieces text n place [] = l.after_last ∷ []
  pieces text n place (item ∷ items) =
      junction n place ++ (around (text item) ++ pieces text n (suc place) items)

-- All the texts, one after the other.
pub all_said : Bool → List SpeakableString → U16String
all_said b [] = []
all_said b (s ∷ rest) = said b s ++ all_said b rest

all_said-append :
    (b : Bool) (xs ys : List SpeakableString)
    → all_said b (xs ++ ys) ≡ all_said b xs ++ all_said b ys
unfolding all_said
all_said-append b [] ys = refl
all_said-append b (x ∷ xs) ys =
    ap (λ (t : U16String). said b x ++ t) (all_said-append b xs ys)
    ∙ sym (append_assoc (said b x) _ _)

if_same : (c : Bool) (x : SpeakableString) → (if c then x else x) ≡ x
if_same true x = refl
if_same false x = refl

module _ {C : Type 0} (l : ConceptList C) (b : Bool) where
  said-affixed :
      (this : Printed C) (d : SpeakableString)
      → said b (affixed (base_hooks l) l this d) ≡ said b d ++ all_said b (around l this.text)
  unfolding affixed around all_said
  said-affixed this d = elim (Bool-cases (lacks_prefix l this.text)) [
    | inl p ↦ elim (Bool-cases (lacks_suffix l this.text)) [
      | inl q ↦ simp (if_same, p, q, said-append, append_assoc, append-nil)
      | inr q ↦ simp (if_same, p, q, said-append, append_assoc, append-nil)
    ]
    | inr p ↦ elim (Bool-cases (lacks_suffix l this.text)) [
      | inl q ↦ simp (if_same, p, q, said-append, append_assoc, append-nil)
      | inr q ↦ simp (if_same, p, q, said-append, append_assoc, append-nil)
    ]
  ]

  said-opening :
      (this : Printed C) (d : SpeakableString)
      → this.place ≡ 0
      → said b (opening (base_hooks l) l this d)
        ≡ said b d ++ all_said b (junction l (length l.concepts) 0)
  unfolding opening junction all_said
  said-opening this d e = simp (if_same, e, said-append, append-nil)

-- The delimiter that is gathered for an item, against the list of its parts.
gathered : Bool → Bool → SpeakableString → SpeakableString → SpeakableString
gathered first last after_first before_last =
    let start = if first then append (of_print []) after_first else of_print [] in
    if last then append start before_last else start

parts : Bool → Bool → SpeakableString → SpeakableString → List SpeakableString
parts first last after_first before_last =
    (if first then after_first ∷ [] else []) ++ (if last then before_last ∷ [] else [])

said-gathered :
    (b first last : Bool) (x y : SpeakableString)
    → said b (gathered first last x y) ≡ all_said b (parts first last x y)
unfolding gathered parts all_said
said-gathered b true true x y = simp (said-append, said_nothing, append-nil)
said-gathered b true false x y = simp (said-append, said_nothing, append-nil)
said-gathered b false true x y = simp (said-append, said_nothing, append-nil)
said-gathered b false false x y = said_nothing b

is_empty-gathered :
    (first last : Bool) (x y : SpeakableString)
    → is_empty (gathered first last x y)
      ≡ not ((first && not (is_empty x)) || (last && not (is_empty y)))
unfolding gathered
is_empty-gathered true true x y = simp (is_empty-append, is_empty_nothing) (ground arith)
is_empty-gathered true false x y = simp (is_empty-append, is_empty_nothing) (ground arith)
is_empty-gathered false true x y = simp (is_empty-append, is_empty_nothing) (ground arith)
is_empty-gathered false false x y = is_empty_nothing

said-delimiter :
    (b first last : Bool) (x y item d : SpeakableString)
    → said b (
        if is_empty (gathered first last x y)
        then append d item
        else append d (gathered first last x y))
      ≡ said b d
        ++ all_said b (
            if (first && not (is_empty x)) || (last && not (is_empty y))
            then parts first last x y
            else item ∷ [])
said-delimiter b first last x y item d =
    elim (Bool-cases ((first && not (is_empty x)) || (last && not (is_empty y)))) [
      | inl some_text ↦
          rw (is_empty-gathered, some_text)
            (said-append b d _
              ∙ ap (λ (t : U16String). said b d ++ t) (said-gathered b first last x y))
      | inr no_text ↦
          rw (is_empty-gathered, no_text)
            (unfold all_said in
              (said-append b d item
                ∙ ap (λ (t : U16String). said b d ++ t) (sym (append-nil (said b item)))))
    ]

module _ {C : Type 0} (l : ConceptList C) (b : Bool) where
  said-separated :
      (previous this : Printed C) (d : SpeakableString) (p : ℕ)
      → previous.place ≡ p
      → this.place ≡ suc p
      → p + 2 ≤ length l.concepts
      → said b (separated (base_hooks l) l (some previous) this d)
        ≡ said b d ++ all_said b (junction l (length l.concepts) (suc p))
  unfolding separated junction
  said-separated previous this d p e e' h =
      let many : length l.concepts == 1 ≡ false = ground arith in
      let later : suc p == 0 ≡ false = ground arith in
      let count : suc p + 1 ≡ p + 2 = omega arith in
      simp (if_same, e, e', many, later, count)
        (unfold gathered parts in
          said-delimiter b (p == 0) (p + 2 == length l.concepts) l.after_first l.before_last
            l.item_delimiter d)

  said-closing :
      (this : Printed C) (d : SpeakableString)
      → said b (closing (base_hooks l) l this d)
        ≡ said b d ++ (if this.place + 1 == length l.concepts then said b l.after_last else [])
  unfolding closing
  said-closing this d = elim (Bool-cases (this.place + 1 == length l.concepts)) [
    | inl e ↦ simp (if_same, e, said-append)
    | inr e ↦ simp (e, append-nil)
  ]

one_piece : (b : Bool) (s : SpeakableString) → all_said b (s ∷ []) ≡ said b s
unfolding all_said
one_piece b s = append-nil (said b s)

-- The item printed before stands one place before.
abbrev Follows : {C : Type 0} → Option (Printed C) → ℕ → Type 0
Follows none place = place ≡ 0
Follows (some previous) place = suc previous.place ≡ place

module _ {C : Type 0} (l : ConceptList C) (b : Bool) where
  said-print_item :
      (previous : Option (Printed C)) (this : Printed C) (d : SpeakableString)
      → Follows previous this.place
      → suc this.place ≤ length l.concepts
      → said b (print_item (base_hooks l) l previous this d)
        ≡ ((said b d ++ all_said b (junction l (length l.concepts) this.place))
            ++ all_said b (around l this.text))
          ++ (if this.place + 1 == length l.concepts then said b l.after_last else [])
  unfolding print_item
  said-print_item none this d e h =
      rw (said-closing l b this, said-affixed l b this, said-opening l b this d e)
        (ap
          (λ (n : ℕ).
            ((said b d ++ all_said b (junction l (length l.concepts) n))
              ++ all_said b (around l this.text))
            ++ (if this.place + 1 == length l.concepts then said b l.after_last else []))
          (sym e))
  said-print_item (some previous) this d e h =
      let not_first : this.place == 0 ≡ false = ground arith in
      let unopened : opening (base_hooks l) l this d ≡ d = unfold opening in rw not_first refl in
      rw
        (
          said-closing l b this,
          said-affixed l b this,
          unopened,
          said-separated l b previous this d previous.place refl (sym e) (omega (arith, h, e)),
        )
        (ap
          (λ (n : ℕ).
            ((said b d ++ all_said b (junction l (length l.concepts) n))
              ++ all_said b (around l this.text))
            ++ (if this.place + 1 == length l.concepts then said b l.after_last else []))
          e)

  said-print_items :
      (text : C → SpeakableString) (place : ℕ) (previous : Option (Printed C)) (d : SpeakableString)
      (item : C) (items : List C)
      → Follows previous place
      → place + length (item ∷ items) ≡ length l.concepts
      → All (λ x. is_empty (text x) ≡ false) (item ∷ items)
      → said b (print_items (base_hooks l) l (λ x. some (text x)) place previous d (item ∷ items))
        ≡ said b d ++ all_said b (pieces l text (length l.concepts) place (item ∷ items))
  unfolding print_items pieces
  said-print_items text place previous d item [] f e (usable, rest) =
      let last : place + 1 == length l.concepts ≡ true = ground arith in
      rw usable (
        said-print_item previous (record { place = place; item = item; text = text item }) d f
          (omega arith)
        ∙ rw last (simp (one_piece, all_said-append, append_assoc)))
  said-print_items text place previous d item (next ∷ items) f e (usable, rest) =
      let last : place + 1 == length l.concepts ≡ false = ground arith in
      let this : Printed C = record { place = place; item = item; text = text item } in
      rw usable (
        said-print_items text (suc place) (some this) (print_item (base_hooks l) l previous this d)
          next items refl (omega arith) rest
        ∙ rw (said-print_item previous this d f (omega arith), last)
            (simp (all_said-append, append_assoc, append-nil)))

display_printed :
    {C : Type 0} (l : ConceptList C) (text : C → SpeakableString) (item : C) (items : List C)
    → l.concepts ≡ item ∷ items
    → display (base_hooks l) l (λ x. some (text x))
      ≡ some (print_items (base_hooks l) l (λ x. some (text x)) 0 none (of_print []) (item ∷ items))
unfolding display display_items
display_printed l text item items e = ap (display_items (base_hooks l) l (λ x. some (text x))) e

-- A list with at least one item, each of which has a text that is not empty, is displayed by the
-- base class as its pieces in order: the printed and the spoken text are those of the pieces.
pub display-pieces :
    {C : Type 0} (l : ConceptList C) (text : C → SpeakableString) (item : C) (items : List C)
    → l.concepts ≡ item ∷ items
    → All (λ x. is_empty (text x) ≡ false) (item ∷ items)
    → (s : SpeakableString) × (display (base_hooks l) l (λ x. some (text x)) ≡ some s)
      × ((b : Bool) → said b s ≡ all_said b (pieces l text (length l.concepts) 0 (item ∷ items)))
display-pieces l text item items e usable = (
  print_items (base_hooks l) l (λ x. some (text x)) 0 none (of_print []) (item ∷ items),
  display_printed l text item items e,
  λ b.
      said-print_items l b text 0 none (of_print []) item items refl (rw e (omega arith)) usable
      ∙ rw (said_nothing b),
)
