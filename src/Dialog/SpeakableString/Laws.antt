-- ===== src/Dialog/SpeakableString/Laws.antt =====
-- A SpeakableString is a pair of a printed and a spoken text, kept in a normal form.
use inflection.Prelude.{
  Bool, true, false, ◌&&◌, Option, none, some, [], ◌++◌, ◌≡◌, ◌≢◌, ◌↔◌, refl, sym, ◌∙◌, arith,
  append_assoc as list_assoc,
}
use inflection.Prelude.Strings.{U16String, equals, equals_iff}
use inflection.Dialog.SpeakableString.{
  SpeakableString, of_print, make, copy, get_print, get_speak, append, eq, same_speak, is_empty,
}

-- The spoken text is stored only where it differs from the printed one.
abbrev pub IsNormal : SpeakableString → Type 0
IsNormal s = s.speak ≢ some s.print

pub get-make :
    (print speak : U16String)
    → (get_print (make print speak) ≡ print) × (get_speak (make print speak) ≡ speak)
unfolding make get_print get_speak
get-make print speak = ground (arith, equals_iff print speak)

make-IsNormal : (print speak : U16String) → IsNormal (make print speak)
unfolding make
make-IsNormal print speak = ground (arith, equals_iff print speak)

-- `+` is the constructor applied to the two concatenations, on every branch.
pub append-eq-make :
    (a b : SpeakableString)
    → append a b ≡ make (get_print a ++ get_print b) (get_speak a ++ get_speak b)
unfolding append make get_print get_speak
append-eq-make a b = ground (arith, equals_iff (a.print ++ b.print) (a.print ++ b.print))

-- Both texts of a sum are the concatenations of the texts.
get-append :
    (a b : SpeakableString)
    → (get_print (append a b) ≡ get_print a ++ get_print b)
      × (get_speak (append a b) ≡ get_speak a ++ get_speak b)
get-append a b = rw append-eq-make (get-make _ _)

-- A sum is in normal form, whatever its parts.
pub append-IsNormal : (a b : SpeakableString) → IsNormal (append a b)
append-IsNormal a b = rw append-eq-make (make-IsNormal _ _)

print-append : (a b : SpeakableString) → get_print (append a b) ≡ get_print a ++ get_print b
print-append a b = (get-append a b).0

speak-append : (a b : SpeakableString) → get_speak (append a b) ≡ get_speak a ++ get_speak b
speak-append a b = (get-append a b).1

-- Sums may be bracketed in any way.
append_assoc : (a b c : SpeakableString) → append (append a b) c ≡ append a (append b c)
append_assoc a b c =
    append-eq-make (append a b) c
    ∙ simp (print-append, speak-append, list_assoc)
        (sym (append-eq-make a (append b c) ∙ simp (print-append, speak-append)))

same_texts :
    (p q : U16String) (s t : Option U16String)
    → s ≢ some p
    → t ≢ some q
    → ((equals p q && same_speak s t) ≡ true)
      ↔ (p ≡ q) × (elim s [ none ↦ p | some x ↦ x ] ≡ elim t [ none ↦ q | some x ↦ x ])
unfolding same_speak
same_texts p q none none ns nt = ground (arith, equals_iff p q)
same_texts p q none (some t) ns nt = ground (arith, equals_iff p q)
same_texts p q (some s) none ns nt = ground (arith, equals_iff p q)
same_texts p q (some s) (some t) ns nt = ground (arith, equals_iff p q, equals_iff s t)

-- Of strings in normal form `==` says exactly that both texts agree.
pub eq_iff :
    (a b : SpeakableString)
    → IsNormal a
    → IsNormal b
    → (eq a b ≡ true) ↔ (get_print a ≡ get_print b) × (get_speak a ≡ get_speak b)
unfolding eq get_print get_speak
eq_iff a b na nb = same_texts a.print b.print a.speak b.speak na nb

-- `isEmpty` says that neither text has a character.
pub is_empty_iff :
    (s : SpeakableString) → (is_empty s ≡ true) ↔ (get_print s ≡ []) × (get_speak s ≡ [])
unfolding is_empty get_print get_speak
is_empty_iff s = ground arith

pub copy_lem : (s : SpeakableString) → copy s ≡ s
unfolding copy
copy_lem s = ground arith

-- A sum is empty exactly if its parts are.
pub is_empty-append : (a b : SpeakableString) → is_empty (append a b) ≡ (is_empty a && is_empty b)
unfolding is_empty append of_print make
is_empty-append a b = ground (arith, equals_iff (a.print ++ b.print) (get_speak a ++ get_speak b))

-- The text that is printed, or the one that is spoken.
unfoldable pub said : Bool → SpeakableString → U16String
said false s = get_print s
said true s = get_speak s

pub said-append : (b : Bool) (x y : SpeakableString) → said b (append x y) ≡ said b x ++ said b y
unfolding said
said-append false x y = print-append x y
said-append true x y = speak-append x y

pub said_nothing : (b : Bool) → said b (of_print []) ≡ []
unfolding said get_print get_speak of_print
said_nothing false = refl
said_nothing true = refl

pub is_empty_nothing : is_empty (of_print []) ≡ true
unfolding is_empty of_print
is_empty_nothing = refl
