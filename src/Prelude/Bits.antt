-- ===== src/Prelude/Bits.antt =====
-- The two laws of bit operations that the sources rely on: a mask of ones is a remainder, and fields
-- that do not overlap are joined by their sum.
use Prim.Native.Nat.{
  ℕ, zero, suc, ◌+◌, ◌-◌, ◌*◌, ◌/◌, ◌%◌, ◌^◌, ◌≤◌, ◌<◌, min, max, digits, bit_and, bit_or,
  bit_or-bitwise, bit_and-bitwise,
}
use mathlib.Core.Logic.{◌⊎◌, inl, inr}
use mathlib.Core.Path.{◌≡◌, refl, ap, subst, ◌∙◌}
use native.Mathlib.Nat.{pow-suc, one-le-pow, div-add-mod, mod-lt, mul_comm}
use native.Mathlib.Omega.{arith}

split_le : (a n : ℕ) → a ≤ suc n → (a ≤ n) ⊎ (suc n ≡ a)
split_le a n h = ground arith

-- Digit by digit, for any operation on digits and any rest.
module _ (rest : ℕ → ℕ) (op : ℕ → ℕ → ℕ) where
  spare : (n a b : ℕ) → a ≤ n → digits rest op (suc n) a b ≡ digits rest op n a b
  spare zero zero b h = refl
  spare (suc n) zero b h = refl
  spare zero (suc a) b h = absurd (omega arith)
  spare (suc n) (suc a) b h =
      ap (λ high. high * 2 + op (suc a % 2) (b % 2)) (spare n (suc a / 2) (b / 2) (omega arith))

  settled : (n a b : ℕ) → a ≤ n → digits rest op n a b ≡ digits rest op a a b
  settled zero zero b h = refl
  settled zero (suc a) b h = absurd (omega arith)
  settled (suc n) a b h = elim (split_le a n h) [
    | inl below ↦ spare n a b below ∙ settled n a b below
    | inr same ↦ subst (λ m. digits rest op (suc n) a b ≡ digits rest op m a b) same refl
  ]

  lowest_digit :
      (a b : ℕ)
      → digits rest op (suc a) (suc a) b
        ≡ digits rest op (suc a / 2) (suc a / 2) (b / 2) * 2 + op (suc a % 2) (b % 2)
  lowest_digit a b =
      ap (λ high. high * 2 + op (suc a % 2) (b % 2)) (settled a (suc a / 2) (b / 2) (omega arith))

and_nothing : (n a : ℕ) → digits (λ b. 0) min n a 0 ≡ 0
and_nothing zero a = refl
and_nothing (suc n) zero = refl
and_nothing (suc n) (suc a) = omega (arith, and_nothing n (suc a / 2))

or_nothing : (n a : ℕ) → a ≤ n → digits (λ b. b) max n a 0 ≡ a
or_nothing zero a h = omega arith
or_nothing (suc n) zero h = refl
or_nothing (suc n) (suc a) h = omega (arith, or_nothing n (suc a / 2) (omega arith))

and_halves : (a b : ℕ) → bit_and a b ≡ bit_and (a / 2) (b / 2) * 2 + min (a % 2) (b % 2)
and_halves zero b = omega (arith, bit_and-bitwise 0 b, bit_and-bitwise 0 (b / 2))
and_halves (suc a) b = omega (
  arith,
  lowest_digit (λ b. 0) min a b,
  bit_and-bitwise (suc a / 2) (b / 2),
  bit_and-bitwise (suc a) b,
)

or_halves : (a b : ℕ) → bit_or a b ≡ bit_or (a / 2) (b / 2) * 2 + max (a % 2) (b % 2)
or_halves zero b = omega (arith, bit_or-bitwise 0 b, bit_or-bitwise 0 (b / 2))
or_halves (suc a) b = omega (
  arith,
  lowest_digit (λ b. b) max a b,
  bit_or-bitwise (suc a / 2) (b / 2),
  bit_or-bitwise (suc a) b,
)

-- Masking a number that is given by its quotient and remainder.
masked : (k q r a : ℕ) → a ≡ q * 2 ^ k + r → r < 2 ^ k → bit_and a (2 ^ k - 1) ≡ r
masked zero q r a e h = omega (arith, bit_and-bitwise a 0, and_nothing a a)
masked (suc k) q r a e h =
    let double : 2 ^ suc k ≡ 2 ^ k * 2 = pow-suc 2 k in
    let some_bit : 0 < 2 ^ k = one-le-pow k 2 (omega arith) in
    let value : a ≡ q * (2 ^ k * 2) + r = e ∙ ap (λ p. q * p + r) double in
    let high = masked k q (r / 2) (a / 2) (omega (arith, value)) (omega (arith, double)) in
    let ones : (2 ^ suc k - 1) / 2 ≡ 2 ^ k - 1 = omega (arith, double, some_bit) in
    omega (
      arith,
      and_halves a (2 ^ suc k - 1),
      ap (bit_and (a / 2)) ones,
      high,
      double,
      some_bit,
      value,
    )

-- A mask of `k` ones keeps the remainder by `2 ^ k`, which is the slot that `x & (N - 1)` names.
pub bit_and-mask : (k a : ℕ) → bit_and a (2 ^ k - 1) ≡ a % 2 ^ k
bit_and-mask k a =
    masked k (a / 2 ^ k) (a % 2 ^ k) a
      (omega (arith, div-add-mod a (2 ^ k), mul_comm (2 ^ k) (a / 2 ^ k)))
      (mod-lt a (one-le-pow k 2 (omega arith)))

-- A field above bit `k` joins a field of `k` bits as their sum.
pub bit_or-shifted : (k a b : ℕ) → b < 2 ^ k → bit_or (a * 2 ^ k) b ≡ a * 2 ^ k + b
bit_or-shifted zero a b h =
    let empty : b ≡ 0 = omega arith in
    ap (bit_or (a * 1)) empty
    ∙ bit_or-bitwise (a * 1) 0
    ∙ or_nothing (a * 1) (a * 1) (omega arith)
    ∙ omega (arith, empty)
bit_or-shifted (suc k) a b h =
    let double : 2 ^ suc k ≡ 2 ^ k * 2 = pow-suc 2 k in
    let high = bit_or-shifted k a (b / 2) (omega (arith, double)) in
    let whole : a * 2 ^ suc k ≡ a * 2 ^ k * 2 = omega (arith, ap (λ p. a * p) double) in
    let halved : a * 2 ^ suc k / 2 ≡ a * 2 ^ k = omega (arith, whole) in
    omega (arith, or_halves (a * 2 ^ suc k) b, ap (λ x. bit_or x (b / 2)) halved, high, whole)
