-- ===== src/Prelude/Bits.antt =====
-- Binary digits of the native numbers, and how `|`, shifts and remainders act on them.
use Prim.Native.Nat.{
  ℕ, zero, suc, ◌+◌, ◌-◌, ◌*◌, ◌/◌, ◌%◌, ◌^◌, ◌≤◌, ◌<◌, min, max, bit_and, bit_or, digits,
  bit_and-bitwise, bit_or-bitwise,
}
use mathlib.Core.Path.{◌≡◌, refl, sym, ap, ap₂, ◌∙◌}
use mathlib.Core.Logic.{◌≢◌, ◌↔◌, inl, inr}
use inflection.Prelude.Tests.{◌==◌, Bool-cases}
use native.Mathlib.Nat.{
  le_refl, pow-suc, div-div-eq-div-mul, one-le-pow, mod-lt, mod-eq_of_lt, mod-add-div, div-one,
  mul-one, add-zero, add-mul-mod_self_left,
}
use native.Mathlib.Omega.{arith}

-- The digit of weight 2 ^ k.
pub bit : ℕ → ℕ → ℕ
bit a zero = a % 2
bit a (suc k) = bit (a / 2) k

pub bit-le-one : (a k : ℕ) → bit a k ≤ 1
unfolding bit
bit-le-one a zero = omega arith
bit-le-one a (suc k) = bit-le-one (a / 2) k

pub bit-zero : (k : ℕ) → bit 0 k ≡ 0
unfolding bit
bit-zero zero = refl
bit-zero (suc k) = bit-zero k

-- A number is determined by its digits.
pub eq_of_bits : (n a b : ℕ) → a < 2 ^ n → b < 2 ^ n → ((k : ℕ) → k < n → bit a k ≡ bit b k) → a ≡ b
unfolding bit
eq_of_bits zero a b ha hb h = omega arith
eq_of_bits (suc n) a b ha hb h = omega (
  arith,
  pow-suc 2 n,
  h 0 (omega arith),
  eq_of_bits n (a / 2) (b / 2) (omega (arith, pow-suc 2 n)) (omega (arith, pow-suc 2 n))
      (λ k lt. h (suc k) (omega arith)),
)

-- The digits of `a | b`, from the recursion that the native operation stands for.
bit-digits : (n a b k : ℕ) → a ≤ n → bit (digits (λ c. c) max n a b) k ≡ max (bit a k) (bit b k)
unfolding bit
bit-digits zero zero b k h = omega (arith, bit-zero k)
bit-digits zero (suc a) b k h = absurd (omega arith)
bit-digits (suc n) zero b k h = omega (arith, bit-zero k)
bit-digits (suc n) (suc a) b zero h = omega arith
bit-digits (suc n) (suc a) b (suc k) h =
    let rest = digits (λ c. c) max n (suc a / 2) (b / 2) in
    let half : (rest * 2 + max (suc a % 2) (b % 2)) / 2 ≡ rest = omega arith in
    ap (λ (t : ℕ). bit t k) half ∙ bit-digits n (suc a / 2) (b / 2) k (omega arith)

pub bit-bit_or : (a b k : ℕ) → bit (bit_or a b) k ≡ max (bit a k) (bit b k)
bit-bit_or a b k = ap (λ (t : ℕ). bit t k) (bit_or-bitwise a b) ∙ bit-digits a a b k (le_refl a)

bit_and-digits : (n a b k : ℕ) → a ≤ n → bit (digits (λ _. 0) min n a b) k ≡ min (bit a k) (bit b k)
unfolding bit
bit_and-digits zero zero b k h = omega (arith, bit-zero k)
bit_and-digits zero (suc a) b k h = absurd (omega arith)
bit_and-digits (suc n) zero b k h = omega (arith, bit-zero k)
bit_and-digits (suc n) (suc a) b zero h = omega arith
bit_and-digits (suc n) (suc a) b (suc k) h =
    let rest = digits (λ _. 0) min n (suc a / 2) (b / 2) in
    let half : (rest * 2 + min (suc a % 2) (b % 2)) / 2 ≡ rest = omega arith in
    ap (λ (t : ℕ). bit t k) half ∙ bit_and-digits n (suc a / 2) (b / 2) k (omega arith)

pub bit-bit_and : (a b k : ℕ) → bit (bit_and a b) k ≡ min (bit a k) (bit b k)
bit-bit_and a b k =
    ap (λ (t : ℕ). bit t k) (bit_and-bitwise a b) ∙ bit_and-digits a a b k (le_refl a)

double_half : (a s : ℕ) → a * 2 ^ suc s / 2 ≡ a * 2 ^ s
double_half a s = omega (arith, ap (λ (t : ℕ). a * t) (pow-suc 2 s))

bit-halve : (s a k : ℕ) → bit (a / 2 ^ suc s) k ≡ bit (a / 2 ^ s) (suc k)
unfolding bit
bit-halve s a k =
    ap (λ (t : ℕ). bit t k)
      (ap (λ (t : ℕ). a / t) (pow-suc 2 s) ∙ sym (div-div-eq-div-mul a (2 ^ s) 2))

-- a >> s.
pub bit-shift_right : (s a k : ℕ) → bit (a / 2 ^ s) k ≡ bit a (k + s)
bit-shift_right zero a k = ap₂ bit (div-one a) (sym (add-zero k))
bit-shift_right (suc s) a k =
    let up : suc k + s ≡ k + suc s = omega arith in
    bit-halve s a k ∙ bit-shift_right s a (suc k) ∙ ap (bit a) up

bit-double : (s a k : ℕ) → bit (a * 2 ^ suc s) (suc k) ≡ bit (a * 2 ^ s) k
unfolding bit
bit-double s a k = ap (λ (t : ℕ). bit t k) (double_half a s)

-- a << s.
pub bit-shift_left : (s a k : ℕ) → bit (a * 2 ^ s) (k + s) ≡ bit a k
bit-shift_left zero a k = ap₂ bit (mul-one a) (add-zero k)
bit-shift_left (suc s) a k =
    let up : k + suc s ≡ suc (k + s) = omega arith in
    ap (bit (a * 2 ^ suc s)) up ∙ bit-double s a (k + s) ∙ bit-shift_left s a k

pub bit-shift_left_low : (s a k : ℕ) → k < s → bit (a * 2 ^ s) k ≡ 0
unfolding bit
bit-shift_left_low zero a k h = absurd (omega arith)
bit-shift_left_low (suc s) a zero h = omega (arith, ap (λ (t : ℕ). a * t) (pow-suc 2 s))
bit-shift_left_low (suc s) a (suc k) h =
    ap (λ (t : ℕ). bit t k) (double_half a s) ∙ bit-shift_left_low s a k (omega arith)

half_mod : (n a : ℕ) → a % 2 ^ suc n / 2 ≡ a / 2 % 2 ^ n
half_mod n a = ground (
  arith,
  pow-suc 2 n,
  mod-add-div a (2 ^ suc n),
  mod-lt a {m = 2 ^ suc n} (one-le-pow (suc n) 2 (omega arith)),
  add-mul-mod_self_left (a % 2 ^ suc n / 2) (2 ^ n) (a / 2 ^ suc n),
  mod-eq_of_lt {n = a % 2 ^ suc n / 2} {m = 2 ^ n},
  ap (λ (t : ℕ). t * (a / 2 ^ suc n)) (pow-suc 2 n),
)

mod_even : (n a : ℕ) → a % 2 ^ suc n % 2 ≡ a % 2
mod_even n a =
    ground (arith, mod-add-div a (2 ^ suc n), ap (λ (t : ℕ). t * (a / 2 ^ suc n)) (pow-suc 2 n))

pub bit-mod : (n a k : ℕ) → k < n → bit (a % 2 ^ n) k ≡ bit a k
unfolding bit
bit-mod zero a k h = absurd (omega arith)
bit-mod (suc n) a zero h = mod_even n a
bit-mod (suc n) a (suc k) h =
    ap (λ (t : ℕ). bit t k) (half_mod n a) ∙ bit-mod n (a / 2) k (omega arith)

pub bit_of_lt : (n a k : ℕ) → a < 2 ^ n → n ≤ k → bit a k ≡ 0
unfolding bit
bit_of_lt zero a k h le = ap (λ (t : ℕ). bit t k) (omega arith) ∙ bit-zero k
bit_of_lt (suc n) a zero h le = absurd (omega arith)
bit_of_lt (suc n) a (suc k) h le = bit_of_lt n (a / 2) k (omega (arith, pow-suc 2 n)) (omega arith)

-- The mask 2 ^ w - 1 has ones below w.
half_mask : (w : ℕ) → (2 ^ suc w - 1) / 2 ≡ 2 ^ w - 1
half_mask w = omega (arith, pow-suc 2 w)

bit-mask : (w k : ℕ) → k < w → bit (2 ^ w - 1) k ≡ 1
unfolding bit
bit-mask zero k h = absurd (omega arith)
bit-mask (suc w) zero h = omega (arith, pow-suc 2 w, one-le-pow w 2 (omega arith))
bit-mask (suc w) (suc k) h = ap (λ (t : ℕ). bit t k) (half_mask w) ∙ bit-mask w k (omega arith)

-- `mask & a` keeps the w low digits of a.
pub bit-masked : (w a k : ℕ) → k < w → bit (bit_and (2 ^ w - 1) a) k ≡ bit a k
bit-masked w a k h = omega (arith, bit-bit_and (2 ^ w - 1) a k, bit-mask w k h, bit-le-one a k)

zero_of_bits : (fuel a : ℕ) → a ≤ fuel → ((k : ℕ) → bit a k ≡ 0) → a ≡ 0
unfolding bit
zero_of_bits zero a le h = omega arith
zero_of_bits (suc fuel) a le h =
    omega (arith, h 0, zero_of_bits fuel (a / 2) (omega (arith, h 0)) (λ k. h (suc k)))

-- A number with no digit from `m` on is below 2 ^ m.
pub lt_of_bits : (m a : ℕ) → ((k : ℕ) → m ≤ k → bit a k ≡ 0) → a < 2 ^ m
unfolding bit
lt_of_bits zero a h = omega (arith, zero_of_bits a a (le_refl a) (λ k. h k (omega arith)))
lt_of_bits (suc m) a h =
    omega (arith, pow-suc 2 m, lt_of_bits m (a / 2) (λ k le. h (suc k) (omega arith)))

half_power : (i : ℕ) → 2 ^ suc i / 2 ≡ 2 ^ i
half_power i = omega (arith, pow-suc 2 i)

-- A power of two has one digit.
pub bit-power_self : (i : ℕ) → bit (2 ^ i) i ≡ 1
unfolding bit
bit-power_self zero = refl
bit-power_self (suc i) = ap (λ (t : ℕ). bit t i) (half_power i) ∙ bit-power_self i

pub bit-power_ne : (i k : ℕ) → i ≢ k → bit (2 ^ i) k ≡ 0
unfolding bit
bit-power_ne zero zero h = absurd (h refl)
bit-power_ne zero (suc k) h = bit-zero k
bit-power_ne (suc i) zero h = omega (arith, pow-suc 2 i)
bit-power_ne (suc i) (suc k) h =
    ap (λ (t : ℕ). bit t k) (half_power i) ∙ bit-power_ne i k (λ e. h (ap suc e))

-- `a & b == b` says that a has every digit that b has.
pub bit_and-eq_right : (a b k : ℕ) → bit_and a b ≡ b → bit b k ≤ bit a k
bit_and-eq_right a b k e = omega (arith, bit-bit_and a b k, ap (λ (t : ℕ). bit t k) e)

pub bit_and_of_bits : (n a b : ℕ) → b < 2 ^ n → ((k : ℕ) → bit b k ≤ bit a k) → bit_and a b ≡ b
bit_and_of_bits n a b h le =
    eq_of_bits n (bit_and a b) b
      (lt_of_bits n (bit_and a b)
        (λ k far. omega (arith, bit-bit_and a b k, bit_of_lt n b k h far)))
      h (λ k _. omega (arith, bit-bit_and a b k, le k))

-- A power of two is in a number if the number has its digit.
power_le : (a i : ℕ) → bit a i ≡ 1 → (k : ℕ) → bit (2 ^ i) k ≤ bit a k
power_le a i e k = elim (Bool-cases (i == k)) [
  | inl same ↦
      let i_e : i ≡ k = ground (arith, same) in
      omega (arith, e, ap (bit a) i_e, bit-le-one (2 ^ i) k)
  | inr other ↦ omega (arith, bit-power_ne i k (ground (arith, other)))
]

pub bit_and-power : (a i : ℕ) → (bit_and a (2 ^ i) ≡ 2 ^ i) ↔ (bit a i ≡ 1)
bit_and-power a i = (
  λ e. omega (arith, bit_and-eq_right a (2 ^ i) i e, bit-power_self i, bit-le-one a i),
  λ e.
      bit_and_of_bits (suc i) a (2 ^ i) (omega (arith, pow-suc 2 i, one-le-pow i 2 (omega arith)))
        (power_le a i e),
)

-- The low bits under a mask.
pub bit_and-mask : (n v : ℕ) → bit_and v (2 ^ n - 1) ≡ v % 2 ^ n
bit_and-mask n v =
    let small : v % 2 ^ n < 2 ^ n = mod-lt v (one-le-pow n 2 (omega arith)) in
    let below : 2 ^ n - 1 < 2 ^ n = omega (arith, one-le-pow n 2 (omega arith)) in
    eq_of_bits n (bit_and v (2 ^ n - 1)) (v % 2 ^ n)
      (lt_of_bits n (bit_and v (2 ^ n - 1))
        (λ k far. omega (arith, bit-bit_and v (2 ^ n - 1) k, bit_of_lt n (2 ^ n - 1) k below far)))
      small
      (λ k near.
        omega (
          arith,
          bit-bit_and v (2 ^ n - 1) k,
          bit-mask n k near,
          bit-le-one v k,
          bit-mod n v k near,
        ))

pub bit_and-power_zero : (a i : ℕ) → bit a i ≡ 0 → bit_and a (2 ^ i) ≡ 0
bit_and-power_zero a i h =
    zero_of_bits (bit_and a (2 ^ i)) (bit_and a (2 ^ i)) (le_refl (bit_and a (2 ^ i))) (λ k.
      elim (Bool-cases (i == k)) [
        | inl e ↦
            let same : bit a k ≡ 0 = ap (bit a) {x = k} {y = i} (ground (arith, e)) ∙ h in
            omega (arith, bit-bit_and a (2 ^ i) k, same)
        | inr e ↦
            omega
              (arith, bit-bit_and a (2 ^ i) k, bit-power_ne i k (λ same. ground (arith, e, same)))
      ])

pub bit_or-zero : (a : ℕ) → bit_or 0 a ≡ a
bit_or-zero a = bit_or-bitwise 0 a
