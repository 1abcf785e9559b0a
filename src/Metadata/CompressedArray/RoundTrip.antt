-- ===== src/Metadata/CompressedArray/RoundTrip.antt =====
-- Reading back what was written, slot by slot.
use inflection.Prelude.{
  ℕ, ◌+◌, ◌-◌, ◌*◌, ◌^◌, ◌≤◌, ◌<◌, ◌≡◌, sym, ◌∙◌, ap, bit_or, ◌==◌, if◌then◌else◌, arith, ok, ◌>>=◌,
  pos,
}
use native.Mathlib.Nat.{le_trans, pow-le-pow_right}
use inflection.Prelude.Bits.{bit, bit-bit_or, eq_of_bits, bit_of_lt}
use inflection.Metadata.CompressedArray.{CompressedArray, read, write}
use inflection.Metadata.CompressedArray.Layout.{bit_at}
use inflection.Metadata.CompressedArray.Slots.{
  IsValid, IsInside, value_at, read-value_at, value_at_lt, bit_or_lt, bit-value_at, stored,
  write-stored, bit_at-stored, stored-IsValid, length-stored,
}

-- The array holds the number `table j` in slot `j`, for every slot.
abbrev pub Holds : CompressedArray → (ℕ → ℕ) → Type 0
Holds c table =
    (j k : ℕ) → k < c.word_width → bit_at c.words (j * c.word_width + k) ≡ bit (table j) k

-- A slot that holds a number is read as that number.
pub read-Holds :
    (c : CompressedArray) (table : ℕ → ℕ) (index : ℕ)
    → IsValid c
    → IsInside c index
    → Holds c table
    → table index < 2 ^ c.word_width
    → read c (pos index) ≡ ok (table index)
read-Holds c table index v h holds fits =
    read-value_at c index v h
    ∙ ap ok (
        eq_of_bits c.word_width (value_at c index) (table index) (value_at_lt c index v) fits
          (λ k lt. bit-value_at c index k v lt ∙ holds index k lt))

-- The slots apart from `index` end before it or begin behind it.
apart : (i j w : ℕ) → i < j → i * w + w ≤ j * w
apart i j w h = grind arith

abbrev pub update : (ℕ → ℕ) → ℕ → ℕ → ℕ → ℕ
update table index value j = if j == index then value else table j

-- A write adds the bits of the value to its slot and leaves the other slots alone.
pub stored-Holds :
    (c : CompressedArray) (table : ℕ → ℕ) (index value : ℕ)
    → IsValid c
    → IsInside c index
    → value < 2 ^ c.word_width
    → Holds c table
    → Holds
        (record c { words = stored c index value })
        (update table index (bit_or (table index) value))
stored-Holds c table index value v h fits holds j k lt =
    bit_at-stored c index value (j * c.word_width + k) v h fits
    ∙ ground (
      arith,
      holds j k lt,
      apart index j c.word_width,
      apart j index c.word_width,
      bit-bit_or (table index) value k,
      bit_of_lt c.word_width value (j * c.word_width + k - index * c.word_width) fits,
    )

Holds-value_at : (c : CompressedArray) → IsValid c → Holds c (value_at c)
Holds-value_at c v j k lt = sym (bit-value_at c j k v lt)

pub below_word :
    (c : CompressedArray) (value : ℕ) → IsValid c → value < 2 ^ c.word_width → value < 2 ^ 64
below_word c value v h =
    le_trans h (pow-le-pow_right (omega arith) {j = 64} (omega (arith, v.narrow)))

-- After a write inside a well-formed array the slot is read as its old value or-ed with the new
-- one, and every other slot as before; in particular a slot that held 0 is read as the value.
pub read-write :
    (c : CompressedArray) (index j value : ℕ)
    → IsValid c
    → IsInside c index
    → IsInside c j
    → value < 2 ^ c.word_width
    → (write c (pos index) value >>= λ c'. read c' (pos j)) ≡ (
        if j == index
        then (read c (pos index) >>= λ old. ok (bit_or old value))
        else read c (pos j))
read-write c index j value v h hj fits =
    rw (write-stored c index value v h, read-value_at c index v h, read-value_at c j v hj)
      (read-Holds (record c { words = stored c index value })
          (update (value_at c) index (bit_or (value_at c index) value)) j
          (stored-IsValid c index value v (below_word c value v fits))
          (record {
            inside = rw (length-stored c index value) hj.inside;
            addressable = hj.addressable;
          })
          (stored-Holds c (value_at c) index value v h fits (Holds-value_at c v))
          (ground (
            arith,
            value_at_lt c j v,
            bit_or_lt c.word_width (value_at c index) value (value_at_lt c index v) fits,
          ))
        ∙ ground arith)
