-- ===== src/Analysis/Comparisons.antt =====
-- Comparisons of values in general, one after the other as
-- src/inflection/analysis/MorphologicalAnalyzer.cpp and dialog/DictionaryLookupInflector.cpp make them.
use inflection.Prelude.{ℕ, Bool, true, false, ℤ, pos, negsuc, ◌≡◌, arith}
use inflection.Prelude.Choice.{IsStrict}
use inflection.Dictionary.Inflector.{same_id}
use inflection.Dictionary.PropertyMaps.{is_below}
use inflection.Analysis.MorphologicalAnalyzer.{
  Comparison, before, same, after, then_by, compare_index,
}
use inflection.Analysis.InflectionOrder.{compare_scores}

unfoldable pub flip : Comparison → Comparison
flip before = after
flip same = same
flip after = before

-- A comparison that agrees with itself both ways, and can be chained.
pub record IsOrdering {ℓ} {A : Type ℓ} (c : A → A → Comparison) : Type ℓ where
  pub flipped : (a b : A) → c b a ≡ flip (c a b)
  pub through : (a b d : A) → c a b ≡ before → c b d ≡ before → c a d ≡ before
  pub alike : (a b d : A) → c a b ≡ same → c a d ≡ c b d

pub then_by-IsOrdering {ℓ} :
    {A : Type ℓ} (c e : A → A → Comparison)
    → IsOrdering c
    → IsOrdering e
    → IsOrdering (λ a b. then_by (c a b) (e a b))
unfolding then_by flip
then_by-IsOrdering c e hc he = record {
  flipped = λ a b. ground (arith, hc.flipped a b, he.flipped a b);
  through = λ a b d h k. ground (
    arith,
    h,
    k,
    hc.through a b d,
    hc.alike a b d,
    hc.alike d b a,
    hc.flipped b d,
    hc.flipped a b,
    hc.flipped d a,
    he.through a b d,
  );
  alike = λ a b d h. ground (arith, h, hc.alike a b d, he.alike a b d);
}

-- What an order puts first.
abbrev pub is_first : Comparison → Bool
is_first before = true
is_first same = false
is_first after = false

abbrev pub first_of {ℓ} : {A : Type ℓ} → (A → A → Comparison) → A → A → Bool
first_of c a b = is_first (c a b)

pub first_of-IsStrict {ℓ} :
    {A : Type ℓ} (c : A → A → Comparison) → IsOrdering c → IsStrict (first_of c)
unfolding flip
first_of-IsStrict c h = record {
  asymmetric = λ a b e. ground (arith, e, h.flipped a b);
  negatively_transitive = λ a b d e k. ground (
    arith,
    e,
    k,
    h.alike a b d,
    h.through d b a,
    h.alike d b a,
    h.flipped a b,
    h.flipped b d,
    h.flipped a d,
  );
}

-- By a number, the lower one first.
abbrev pub by_number {ℓ} : {A : Type ℓ} → (A → ℕ) → A → A → Comparison
by_number f a b = compare_index (f a) (f b)

pub by_number-IsOrdering {ℓ} : {A : Type ℓ} (f : A → ℕ) → IsOrdering (by_number f)
unfolding compare_index flip
by_number-IsOrdering f = record {
  flipped = λ a b. ground arith;
  through = λ a b d h k. ground (arith, h, k);
  alike = λ a b d h. ground (arith, h);
}

-- By an integer, the higher one first.
abbrev pub by_integer {ℓ} : {A : Type ℓ} → (A → ℤ) → A → A → Comparison
by_integer f a b = compare_scores (f a) (f b)

integers :
    (i j k : ℤ)
    → (compare_scores j i ≡ flip (compare_scores i j))
      × ((compare_scores i j ≡ before)
          → (compare_scores j k ≡ before)
          → compare_scores i k ≡ before)
      × ((compare_scores i j ≡ same) → compare_scores i k ≡ compare_scores j k)
unfolding compare_scores same_id is_below flip
integers (pos i) (pos j) (pos k) =
    (ground arith, (λ h e. ground (arith, h, e)), (λ h. ground (arith, h)))
integers (pos i) (pos j) (negsuc k) =
    (ground arith, (λ h e. ground (arith, h, e)), (λ h. ground (arith, h)))
integers (pos i) (negsuc j) (pos k) =
    (ground arith, (λ h e. ground (arith, h, e)), (λ h. ground (arith, h)))
integers (pos i) (negsuc j) (negsuc k) =
    (ground arith, (λ h e. ground (arith, h, e)), (λ h. ground (arith, h)))
integers (negsuc i) (pos j) (pos k) =
    (ground arith, (λ h e. ground (arith, h, e)), (λ h. ground (arith, h)))
integers (negsuc i) (pos j) (negsuc k) =
    (ground arith, (λ h e. ground (arith, h, e)), (λ h. ground (arith, h)))
integers (negsuc i) (negsuc j) (pos k) =
    (ground arith, (λ h e. ground (arith, h, e)), (λ h. ground (arith, h)))
integers (negsuc i) (negsuc j) (negsuc k) =
    (ground arith, (λ h e. ground (arith, h, e)), (λ h. ground (arith, h)))

pub by_integer-IsOrdering {ℓ} : {A : Type ℓ} (f : A → ℤ) → IsOrdering (by_integer f)
by_integer-IsOrdering f = record {
  flipped = λ a b. (integers (f a) (f b) (f b)).0;
  through = λ a b d. (integers (f a) (f b) (f d)).1;
  alike = λ a b d. (integers (f a) (f b) (f d)).2;
}

-- The order of what they are made of.
pub on-IsOrdering {ℓ κ} :
    {A : Type ℓ} {B : Type κ} (f : A → B) (c : B → B → Comparison)
    → IsOrdering c
    → IsOrdering (λ a b. c (f a) (f b))
on-IsOrdering f c h = record {
  flipped = λ a b. h.flipped (f a) (f b);
  through = λ a b d. h.through (f a) (f b) (f d);
  alike = λ a b d. h.alike (f a) (f b) (f d);
}
