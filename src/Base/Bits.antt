-- ===== src/Base/Bits.antt =====
-- One step of the bitwise operations on the last binary digit, and their effect on one bit of a
-- number. The native operations compute at numerals only; these laws serve at variables.
use Prim.Native.Nat.{
  ℕ, zero, suc, ◌+◌, ◌-◌, ◌*◌, ◌/◌, ◌%◌, ◌^◌, ◌≤◌, ◌<◌, min, max, differ, digits, bit_and, bit_or,
  bit_xor, bit_and-bitwise, bit_or-bitwise, bit_xor-bitwise,
}
use mathlib.Core.Path.{◌≡◌, refl}
use native.Mathlib.Nat.{pow-suc, one-le-pow}
use native.Mathlib.Omega.{arith}

-- Any two amounts of fuel that are no less than the number give the same digits.
module _ (end : ℕ → ℕ) (op : ℕ → ℕ → ℕ) where
  digits_agree : (j k x y : ℕ) → x ≤ j → x ≤ k → digits end op j x y ≡ digits end op k x y
  digits_agree zero zero x y h g = refl
  digits_agree zero (suc k) zero y h g = refl
  digits_agree zero (suc k) (suc x) y h g = absurd (omega arith)
  digits_agree (suc j) zero zero y h g = refl
  digits_agree (suc j) zero (suc x) y h g = absurd (omega arith)
  digits_agree (suc j) (suc k) zero y h g = refl
  digits_agree (suc j) (suc k) (suc x) y h g =
      rw (digits_agree j k (suc x / 2) (y / 2) (omega arith) (omega arith))

  digits_step :
      (x y : ℕ)
      → digits end op (suc x) (suc x) y
        ≡ digits end op (suc x / 2) (suc x / 2) (y / 2) * 2 + op (suc x % 2) (y % 2)
  digits_step x y = rw (digits_agree x (suc x / 2) (suc x / 2) (y / 2) (omega arith) (omega arith))

bit_and_halves : (x y : ℕ) → bit_and x y ≡ bit_and (x / 2) (y / 2) * 2 + min (x % 2) (y % 2)
bit_and_halves zero y = simp bit_and-bitwise (omega arith)
bit_and_halves (suc n) y = simp bit_and-bitwise (digits_step (λ t. 0) min n y)

bit_xor_halves : (x y : ℕ) → bit_xor x y ≡ bit_xor (x / 2) (y / 2) * 2 + differ (x % 2) (y % 2)
bit_xor_halves zero y = simp bit_xor-bitwise (omega arith)
bit_xor_halves (suc n) y = simp bit_xor-bitwise (digits_step (λ t. t) differ n y)

bit_or_halves : (x y : ℕ) → bit_or x y ≡ bit_or (x / 2) (y / 2) * 2 + max (x % 2) (y % 2)
bit_or_halves zero y = simp bit_or-bitwise (omega arith)
bit_or_halves (suc n) y = simp bit_or-bitwise (digits_step (λ t. t) max n y)

-- The operations on numbers of which the last digit is split off.
module _ {x y : ℕ} (a b r s : ℕ) (ex : x ≡ 2 * a + r) (ey : y ≡ 2 * b + s) (hr : r < 2)
    (hs : s < 2) where
  pub bit_xor_digits : bit_xor x y ≡ bit_xor a b * 2 + differ r s
  bit_xor_digits =
      let hx : x / 2 ≡ a = omega arith in
      let hy : y / 2 ≡ b = omega arith in
      let dx : x % 2 ≡ r = omega arith in
      let dy : y % 2 ≡ s = omega arith in rw (← hx, ← hy, ← dx, ← dy) (bit_xor_halves x y)

  pub bit_or_digits : bit_or x y ≡ bit_or a b * 2 + max r s
  bit_or_digits =
      let hx : x / 2 ≡ a = omega arith in
      let hy : y / 2 ≡ b = omega arith in
      let dx : x % 2 ≡ r = omega arith in
      let dy : y % 2 ≡ s = omega arith in rw (← hx, ← hy, ← dx, ← dy) (bit_or_halves x y)

  pub bit_and_digits : bit_and x y ≡ bit_and a b * 2 + min r s
  bit_and_digits =
      let hx : x / 2 ≡ a = omega arith in
      let hy : y / 2 ≡ b = omega arith in
      let dx : x % 2 ≡ r = omega arith in
      let dy : y % 2 ≡ s = omega arith in rw (← hx, ← hy, ← dx, ← dy) (bit_and_halves x y)

differ-zero : (r : ℕ) → differ r 0 ≡ r
differ-zero zero = refl
differ-zero (suc r) = refl

bit_xor-zero_below : (n a : ℕ) → a ≤ n → bit_xor a 0 ≡ a
bit_xor-zero_below n zero h = refl
bit_xor-zero_below zero (suc a) h = absurd (omega arith)
bit_xor-zero_below (suc n) (suc a) h = omega (
  arith,
  bit_xor_halves (suc a) 0,
  differ-zero (suc a % 2),
  bit_xor-zero_below n (suc a / 2) (omega arith),
)

pub bit_xor-zero : (a : ℕ) → bit_xor a 0 ≡ a
bit_xor-zero a = bit_xor-zero_below a a (omega arith)

bit_or-zero_below : (n a : ℕ) → a ≤ n → bit_or a 0 ≡ a
bit_or-zero_below n zero h = refl
bit_or-zero_below zero (suc a) h = absurd (omega arith)
bit_or-zero_below (suc n) (suc a) h =
    omega (arith, bit_or_halves (suc a) 0, bit_or-zero_below n (suc a / 2) (omega arith))

pub bit_or-zero : (a : ℕ) → bit_or a 0 ≡ a
bit_or-zero a = bit_or-zero_below a a (omega arith)

-- A mask of `w` ones keeps a number of `w` digits.
pub bit_and_ones : (w a : ℕ) → a < 2 ^ w → bit_and a (2 ^ w - 1) ≡ a
bit_and_ones zero zero h = refl
bit_and_ones zero (suc a) h = absurd (omega arith)
bit_and_ones (suc w) a h =
    let double = pow-suc 2 w in
    let some_bit = one-le-pow w 2 (omega arith) in
    omega (
      arith,
      bit_and_digits {x = a} {y = 2 ^ suc w - 1} (a / 2) (2 ^ w - 1) (a % 2) 1 (omega arith)
          (omega arith) (omega arith) (omega arith),
      bit_and_ones w (a / 2) (omega arith),
    )
