-- ===== src/Metadata/StringArrayContainer/Build.antt =====
-- The constructor of StringArrayContainer, and getString of what it builds.
use inflection.Prelude.{
  ℕ, zero, suc, ◌+◌, ◌*◌, ◌/◌, ◌^◌, ◌≤◌, ◌<◌, bit_and, bit_or, true, some, List, [], ◌∷◌, ◌++◌, ltb,
  length, take, drop, get_elem?, ok, pos, ◌≡◌, refl, arith, ap, ◌∙◌, sym, subst, append_assoc,
  length-append, Bool-cases, append-nil, bind-ok, inl, inr, ap₂, replicate, get_elem?-lt,
}
use inflection.Prelude.Strings.{U16String}
use inflection.Metadata.StringArrayContainer.{
  StringArrayContainer, Mapping, Buffer, add_string, add_strings, build, string_at, get_string,
  length_mask, shifts_back, padding_size,
}
use inflection.Metadata.StringArrayContainer.Entries.{shifts_back_lem, entry-length, entry-offset}

-- The entry says where the string stands in the text.
abbrev pub Stored : ℕ → U16String → U16String → Type 0
Stored value text string =
    (pre post : U16String) × (text ≡ pre ++ (string ++ post))
    × (value ≡ bit_or (length pre * 2 ^ 8) (length string))
    × (length pre < 2 ^ 23)
    × (length string < 2 ^ 8)

Stored-append :
    (value : ℕ) (text string more : U16String)
    → Stored value text string
    → Stored value (text ++ more) string
Stored-append value text string more (pre, post, e, value_e, small, short) = (
  pre,
  post ++ more,
  ap (λ t. t ++ more) e
      ∙ append_assoc pre (string ++ post) more
      ∙ ap (λ t. pre ++ t) (append_assoc string post more),
  value_e,
  small,
  short,
)

abbrev pub AllStored : List ℕ → U16String → List U16String → Type 0
AllStored [] text [] = Unit
AllStored [] text (s ∷ strings) = ⊥
AllStored (v ∷ values) text [] = ⊥
AllStored (v ∷ values) text (s ∷ strings) = Stored v text s × AllStored values text strings

AllStored-snoc :
    (values : List ℕ) (text more : U16String) (strings : List U16String) (v : ℕ) (s : U16String)
    → AllStored values text strings
    → Stored v (text ++ more) s
    → AllStored (values ++ (v ∷ [])) (text ++ more) (strings ++ (s ∷ []))
AllStored-snoc [] text more [] v s h k = (k, tt)
AllStored-snoc [] text more (t ∷ strings) v s h k = absurd h
AllStored-snoc (u ∷ values) text more [] v s h k = absurd h
AllStored-snoc (u ∷ values) text more (t ∷ strings) v s (here, h) k =
    (Stored-append u text t more here, AllStored-snoc values text more strings v s h k)

AllStored-append :
    (values : List ℕ) (text more : U16String) (strings : List U16String)
    → AllStored values text strings
    → AllStored values (text ++ more) strings
AllStored-append [] text more [] h = tt
AllStored-append [] text more (t ∷ strings) h = absurd h
AllStored-append (u ∷ values) text more [] h = absurd h
AllStored-append (u ∷ values) text more (t ∷ strings) (here, h) =
    (Stored-append u text t more here, AllStored-append values text more strings h)

AllStored-get :
    (values : List ℕ) (text : U16String) (strings : List U16String) (i : ℕ) (s : U16String)
    → AllStored values text strings
    → get_elem? strings i ≡ some s
    → (v : ℕ) × (get_elem? values i ≡ some v) × Stored v text s
AllStored-get [] text [] i s h e = absurd (ground (arith, e))
AllStored-get [] text (t ∷ strings) i s h e = absurd h
AllStored-get (u ∷ values) text [] i s h e = absurd h
AllStored-get (u ∷ values) text (t ∷ strings) zero s (here, h) e =
    let same : t ≡ s = ground (arith, e) in (u, refl, subst (Stored u text) same here)
AllStored-get (u ∷ values) text (t ∷ strings) (suc i) s (here, h) e =
    AllStored-get values text strings i s h e

-- What add_string does where it does not throw.
add_string_ok :
    (s : U16String) (b c : Buffer)
    → add_string s b ≡ ok c
    → (length s < 2 ^ 8)
      × (shifts_back (length b.text) ≡ true)
      × (c.entries ≡ b.entries ++ (bit_or (length b.text * 2 ^ 8) (length s) ∷ []))
      × (c.text ≡ b.text ++ (s ++ (0 ∷ [])))
unfolding add_string
add_string_ok s b c e = elim (Bool-cases (ltb 255 (length s))) [
  | inl long ↦ absurd (ground (arith, e, long))
  | inr short ↦ elim (Bool-cases (shifts_back (length b.text))) [
    | inr far ↦ absurd (ground (arith, e, short, far))
    | inl near ↦ (
      ground (arith, short),
      near,
      ground (arith, e, short, near),
      ground (arith, e, short, near),
    )
  ]
]

add_string_lem :
    (s : U16String) (b c : Buffer) (strings : List U16String)
    → AllStored b.entries b.text strings
    → length b.text ≤ 2 ^ 24
    → add_string s b ≡ ok c
    → AllStored c.entries c.text (strings ++ (s ∷ [])) × (length c.text ≤ 2 ^ 24)
add_string_lem s b c strings h small e =
    let (short, near, entries_e, text_e) = add_string_ok s b c e in
    let offset = shifts_back_lem (length b.text) (omega (arith, small)) near in
    let value = bit_or (length b.text * 2 ^ 8) (length s) in
    let here : Stored value (b.text ++ (s ++ (0 ∷ []))) s =
      (b.text, 0 ∷ [], refl, refl, offset, short) in
    let all = AllStored-snoc b.entries b.text (s ++ (0 ∷ [])) strings value s h here in
    (
      subst (λ t. AllStored t c.text (strings ++ (s ∷ []))) (sym entries_e)
          (subst (λ t. AllStored (b.entries ++ (value ∷ [])) t (strings ++ (s ∷ []))) (sym text_e)
            all),
      omega (
        arith,
        ap length text_e,
        length-append b.text (s ++ (0 ∷ [])),
        length-append s (0 ∷ []),
        offset,
        short,
      ),
    )

add_strings_lem :
    (strings done : List U16String) (b c : Buffer)
    → AllStored b.entries b.text done
    → length b.text ≤ 2 ^ 24
    → add_strings strings b ≡ ok c
    → AllStored c.entries c.text (done ++ strings)
unfolding add_strings
add_strings_lem [] done b c h small e =
    let same : b ≡ c = ground (arith, e) in
    subst (λ t. AllStored t.entries t.text (done ++ [])) same
      (subst (λ t. AllStored b.entries b.text t) (sym (append-nil done)) h)
add_strings_lem (s ∷ strings) done b c h small e =
    let (d, d_e, rest_e) = bind-ok (add_string s b) (add_strings strings) c e in
    let (all, size) = add_string_lem s b d done h small d_e in
    subst (AllStored c.entries c.text) (append_assoc done (s ∷ []) strings)
      (add_strings_lem strings (done ++ (s ∷ [])) d c all size rest_e)

-- What the container has, when the constructor does not throw.
abbrev pub HoldsStrings : StringArrayContainer → List U16String → Type 0
HoldsStrings c strings =
    AllStored c.string_indexes_with_len c.all_strings strings
    × (c.array_size ≡ length strings)
    × (c.all_strings_size ≡ length c.all_strings)

abbrev empty : Buffer
empty = record { entries = []; text = []; mapping = [] }

pub build-HoldsStrings :
    (strings : List U16String) (c : StringArrayContainer) (mapping : Mapping)
    → build strings [] ≡ ok (c, mapping)
    → HoldsStrings c strings
unfolding build
build-HoldsStrings strings c mapping e =
    let (b, b_e, rest_e) = bind-ok (add_strings strings empty) _ (c, mapping) e in
    let padding : U16String = replicate (padding_size (length strings) (length b.text)) 0 in
    let all = add_strings_lem strings [] empty b tt (omega arith) b_e in
    let entries_e : b.entries ≡ c.string_indexes_with_len = ground (arith, rest_e) in
    let text_e : b.text ++ padding ≡ c.all_strings = ground (arith, rest_e) in
    let size_e : length (b.text ++ padding) ≡ c.all_strings_size = ground (arith, rest_e) in
    (
      subst (λ t. AllStored t c.all_strings strings) entries_e
          (subst (λ t. AllStored b.entries t strings) text_e
            (AllStored-append b.entries b.text padding strings all)),
      ground (arith, rest_e),
      sym size_e ∙ ap length text_e,
    )

drop-append : (xs ys : U16String) → drop (length xs) (xs ++ ys) ≡ ys
drop-append [] ys = refl
drop-append (x ∷ xs) ys = drop-append xs ys

take-append : (xs ys : U16String) → take (length xs) (xs ++ ys) ≡ xs
take-append [] ys = refl
take-append (x ∷ xs) ys = ap (λ t. x ∷ t) (take-append xs ys)

read_entry :
    (c : StringArrayContainer) (i v len start : ℕ)
    → get_elem? c.string_indexes_with_len i ≡ some v
    → bit_and length_mask v ≡ len
    → v / 2 ^ 8 ≡ start
    → start + len ≤ c.all_strings_size
    → string_at i c ≡ ok (take len (drop start c.all_strings))
unfolding string_at
read_entry c i v len start v_e len_e start_e le =
    ground (
      arith,
      v_e,
      len_e,
      start_e,
      le,
      ap₂ (λ (n m : ℕ). take n (drop m c.all_strings)) len_e start_e,
    )

pub string_at_lem :
    (c : StringArrayContainer) (strings : List U16String) (i : ℕ) (s : U16String)
    → HoldsStrings c strings
    → get_elem? strings i ≡ some s
    → string_at i c ≡ ok s
unfolding string_at
string_at_lem c strings i s (all, size, text_size) e =
    let (v, v_e, (pre, post, text_e, value_e, small, short)) =
      AllStored-get c.string_indexes_with_len c.all_strings strings i s all e in
    let len_e = ap (bit_and length_mask) value_e ∙ entry-length (length pre) (length s) short in
    let offset_e =
      ap (λ (n : ℕ). n / 2 ^ 8) value_e ∙ entry-offset (length pre) (length s) small short in
    let cut =
      ap (λ t. take (length s) (drop (length pre) t)) text_e
      ∙ ap (take (length s)) (drop-append pre (s ++ post))
      ∙ take-append s post in
    let sizes : length pre + length s ≤ c.all_strings_size =
      omega
        (arith, text_size, ap length text_e, length-append pre (s ++ post), length-append s post) in
    read_entry c i v (length s) (length pre) v_e len_e offset_e sizes ∙ ap ok cut

-- For a set of strings that the constructor accepts, with an empty mapping: getString of the number
-- of each string returns that string.
pub get_string-build :
    (strings : List U16String) (c : StringArrayContainer) (mapping : Mapping) (i : ℕ)
    (s : U16String)
    → build strings [] ≡ ok (c, mapping)
    → get_elem? strings i ≡ some s
    → get_string (pos i) c ≡ ok s
unfolding get_string
get_string-build strings c mapping i s e at =
    let (all, size, text_size) = build-HoldsStrings strings c mapping e in
    let stored = string_at_lem c strings i s (all, size, text_size) at in
    ground (arith, size, get_elem?-lt strings i s at, stored)
