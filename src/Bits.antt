-- ===== src/Bits.antt =====
-- Masks and shifts as arithmetic: an `and` with 2^k - 1 takes a remainder, an `or` of numbers
-- whose digits do not meet is their sum, and the byte masks of a varint.
use Prim.Native.Nat.{digits, max, bit_and, bit_or, bit_and-bitwise, bit_or-bitwise}
use scry.Prelude.{
  ℕ, zero, suc, ◌+◌, ◌-◌, ◌*◌, ◌/◌, ◌%◌, ◌^◌, ◌<◌, ◌≤◌, ◌≡◌, refl, arith, min, Bool, true, ◌&&◌,
  ◌==◌, ap, sym, ◌∙◌,
}
use native.Mathlib.Nat.{
  pow-suc, one-le-pow, div-div-eq-div-mul, add-mul-mod_self_right, mod-eq_of_lt, mod-lt,
  div-add-mod',
}

-- The fuel of the digit recursion does not matter once it reaches the first number.
module _ (z : ℕ → ℕ) (f : ℕ → ℕ → ℕ) where
  digits_enough : (n m a b : ℕ) → a ≤ n → a ≤ m → digits z f n a b ≡ digits z f m a b
  digits_enough zero zero a b p q = refl
  digits_enough zero (suc m) zero b p q = refl
  digits_enough zero (suc m) (suc a) b p q = absurd (omega arith)
  digits_enough (suc n) zero zero b p q = refl
  digits_enough (suc n) zero (suc a) b p q = absurd (omega arith)
  digits_enough (suc n) (suc m) zero b p q = refl
  digits_enough (suc n) (suc m) (suc a) b p q =
      omega (arith, digits_enough n m (suc a / 2) (b / 2) (omega arith) (omega arith))

zero-bit_and : (b : ℕ) → bit_and 0 b ≡ 0
zero-bit_and b = bit_and-bitwise 0 b

pub zero-bit_or : (b : ℕ) → bit_or 0 b ≡ b
zero-bit_or b = bit_or-bitwise 0 b

-- One digit at a time.
bit_and_digit : (a b : ℕ) → bit_and a b ≡ bit_and (a / 2) (b / 2) * 2 + min (a % 2) (b % 2)
bit_and_digit zero b = omega (arith, zero-bit_and b, zero-bit_and (b / 2))
bit_and_digit (suc a) b = omega (
  arith,
  bit_and-bitwise (suc a) b,
  bit_and-bitwise (suc a / 2) (b / 2),
  digits_enough (λ b. 0) min a (suc a / 2) (suc a / 2) (b / 2) (omega arith) (omega arith),
)

bit_or_digit : (a b : ℕ) → bit_or a b ≡ bit_or (a / 2) (b / 2) * 2 + max (a % 2) (b % 2)
bit_or_digit zero b = omega (arith, zero-bit_or b, zero-bit_or (b / 2))
bit_or_digit (suc a) b = omega (
  arith,
  bit_or-bitwise (suc a) b,
  bit_or-bitwise (suc a / 2) (b / 2),
  digits_enough (λ b. b) max a (suc a / 2) (suc a / 2) (b / 2) (omega arith) (omega arith),
)

-- `x & (2^k - 1)` is `x % 2^k`: proved with the mask as a variable.
bit_and-zero_below : (n a : ℕ) → a ≤ n → bit_and a 0 ≡ 0
bit_and-zero_below n zero h = refl
bit_and-zero_below zero (suc a) h = absurd (omega arith)
bit_and-zero_below (suc n) (suc a) h =
    omega (arith, bit_and_digit (suc a) 0, bit_and-zero_below n (suc a / 2) (omega arith))

mod_double : (a p : ℕ) → 0 < p → a % (p * 2) ≡ a / 2 % p * 2 + a % 2
mod_double a p h =
    ap (λ (t : ℕ). t % (p * 2)) split
    ∙ add-mul-mod_self_right (a / 2 % p * 2 + a % 2) (a / 2 / p) (p * 2)
    ∙ mod-eq_of_lt (omega (arith, mod-lt (a / 2) h))
  where
    split : a ≡ (a / 2 % p * 2 + a % 2) + a / 2 / p * (p * 2)
    split = omega (arith, div-add-mod' (a / 2) p)

bit_and-mask_eq : (k a m : ℕ) → m + 1 ≡ 2 ^ k → bit_and a m ≡ a % 2 ^ k
bit_and-mask_eq zero a m h =
    let e : m ≡ 0 = omega arith in rw e (omega (arith, bit_and-zero_below a a))
bit_and-mask_eq (suc k) a m h =
    let e : m + 1 ≡ 2 ^ k * 2 = omega (arith, pow-suc 2 k) in
    rw (pow-suc, mod_double a (2 ^ k) (one-le-pow k 2 (omega arith)))
      (omega (arith, bit_and_digit a m, bit_and-mask_eq k (a / 2) (m / 2) (omega arith)))

pub bit_and-mask : (k a : ℕ) → bit_and a (2 ^ k - 1) ≡ a % 2 ^ k
bit_and-mask k a = bit_and-mask_eq k a (2 ^ k - 1) (omega (arith, one-le-pow k 2 (omega arith)))

-- `x & !(2^k - 1)`, with the ones of the mask above bit `k`, clears the low bits.
pub bit_and-high : (k a m : ℕ) → bit_and a (m * 2 ^ k) ≡ bit_and (a / 2 ^ k) m * 2 ^ k
bit_and-high zero a m =
    omega (arith, ap (λ (t : ℕ). bit_and t m) one, ap (λ (t : ℕ). bit_and a t) two)
  where
    one : a / 1 ≡ a
    one = omega arith

    two : m * 1 ≡ m
    two = omega arith
bit_and-high (suc k) a m =
    rw (pow-suc, ← div-div-eq-div-mul)
      (omega (
        arith,
        bit_and_digit a (m * (2 ^ k * 2)),
        halves,
        bit_and-high k (a / 2) m,
        ap (λ (t : ℕ). bit_and t m * 2 ^ k) (swap_div a k),
      ))
  where
    halves : bit_and (a / 2) (m * (2 ^ k * 2) / 2) ≡ bit_and (a / 2) (m * 2 ^ k)
    halves = ap (λ (t : ℕ). bit_and (a / 2) t) (omega arith)

    swap_div : (a k : ℕ) → a / 2 / 2 ^ k ≡ a / 2 ^ k / 2
    swap_div a k =
        div-div-eq-div-mul a 2 (2 ^ k)
        ∙ ap (λ (t : ℕ). a / t) (omega arith)
        ∙ sym (div-div-eq-div-mul a (2 ^ k) 2)

-- `x | (y << k)` is a sum if `x` has only `k` bits.
pub bit_or-shifted : (k x y : ℕ) → x < 2 ^ k → bit_or x (y * 2 ^ k) ≡ x + y * 2 ^ k
bit_or-shifted zero x y h = let e : x ≡ 0 = omega arith in rw e (omega (arith, zero-bit_or (y * 1)))
bit_or-shifted (suc k) x y h =
    let p : y * 2 ^ suc k ≡ y * 2 ^ k * 2 = omega (arith, ap (λ (t : ℕ). y * t) (pow-suc 2 k)) in
    rw p (
      omega (
        arith,
        bit_or_digit x (y * 2 ^ k * 2),
        ap (λ (t : ℕ). bit_or (x / 2) t) (half_double (y * 2 ^ k)),
        bit_or-shifted k (x / 2) y (omega (arith, pow-suc 2 k)),
      ))
  where
    half_double : (t : ℕ) → t * 2 / 2 ≡ t
    half_double t = omega arith

-- The masks of one byte.
module _ (f g : ℕ → ℕ) where
  agree_below : ℕ → Bool
  agree_below zero = true
  agree_below (suc n) = (f n == g n) && agree_below n

  agree_below→eq : (n : ℕ) → agree_below n ≡ true → (i : ℕ) → i < n → f i ≡ g i
  unfolding agree_below
  agree_below→eq zero e i h = absurd (omega arith)
  agree_below→eq (suc n) e i h = ground (arith, agree_below→eq n (ground arith) i)

pub bit_or-top : (b : ℕ) → b < 256 → bit_or b 0x80 ≡ b % 128 + 128
unfolding agree_below
bit_or-top = agree_below→eq _ _ 256 refl

pub bit_and-low : (b : ℕ) → b < 256 → bit_and b 0x7f ≡ b % 128
unfolding agree_below
bit_and-low = agree_below→eq _ _ 256 refl

pub bit_and-top : (b : ℕ) → b < 256 → bit_and b 0x80 ≡ b / 128 * 128
unfolding agree_below
bit_and-top = agree_below→eq _ _ 256 refl

-- The tag byte of a length-delimited field.
pub bit_or-delimited : (b : ℕ) → b < 256 → bit_or (b / 8 * 8) 2 ≡ b / 8 * 8 + 2
unfolding agree_below
bit_or-delimited = agree_below→eq _ _ 256 refl
