-- ===== src/Prelude/Counts.antt =====
-- How often a number stands in a list, and the list without one occurrence of it.
use ras_pi_zero_cam.Prelude.Tests.{◌==◌, leb, ltb, if◌then◌else◌, Bool-cases, ==_iff}
use ras_pi_zero_cam.Prelude.Lists.{length, get_or, set}
use Prim.Native.Nat.{ℕ, zero, suc, ◌+◌, ◌≤◌, ◌<◌}
use mathlib.Core.Path.{◌≡◌, refl, ap}
use mathlib.Core.Logic.{inl, inr}
use mathlib.Core.Bool.{Bool, true, false, ◌||◌, ◌&&◌}
use mathlib.Core.Option.{Option, none, some}
use mathlib.Core.List.{List, [], ◌∷◌, ◌++◌}
use native.Mathlib.Omega.{arith}

abbrev pub once : ℕ → ℕ → ℕ
once n k = if k == n then 1 else 0

abbrev pub count : ℕ → List ℕ → ℕ
count n [] = 0
count n (x ∷ xs) = once n x + count n xs

abbrev pub count_some : ℕ → Option ℕ → ℕ
count_some n none = 0
count_some n (some x) = once n x

abbrev pub is_in : ℕ → List ℕ → Bool
is_in n [] = false
is_in n (x ∷ xs) = (x == n) || is_in n xs

unfoldable pub erase : ℕ → List ℕ → List ℕ
erase n [] = []
erase n (x ∷ xs) = let rest = erase n xs in if x == n then xs else x ∷ rest

pub count-append : (n : ℕ) (xs ys : List ℕ) → count n (xs ++ ys) ≡ count n xs + count n ys
count-append n [] ys = omega arith
count-append n (x ∷ xs) ys = omega (arith, count-append n xs ys)

absent : ¬ (false ≡ true)
absent e = cc

once_same : (m n k : ℕ) → m ≡ n → once k m ≡ once k n
once_same m n k e = ground arith

pub count-erase :
    (k n : ℕ) (xs : List ℕ) → is_in n xs ≡ true → count k (erase n xs) + once k n ≡ count k xs
unfolding erase
count-erase k n [] h = absurd (absent h)
count-erase k n (x ∷ xs) h = elim (Bool-cases (x == n)) [
  | inl e ↦ rw e (omega (arith, once_same x n k ((==_iff x n).0 e)))
  | inr e ↦ rw e (omega (arith, count-erase k n xs (rw e at h)))
]

pub length-erase : (n : ℕ) (xs : List ℕ) → is_in n xs ≡ true → length (erase n xs) + 1 ≡ length xs
unfolding erase
length-erase n [] h = absurd (absent h)
length-erase n (x ∷ xs) h = elim (Bool-cases (x == n)) [
  | inl e ↦ rw e (omega arith)
  | inr e ↦ rw e (omega (arith, length-erase n xs (rw e at h)))
]

pub once_self : (n : ℕ) → once n n ≡ 1
once_self n = ground arith

pub once-le : (n k : ℕ) → once n k ≤ 1
once-le n k = ground arith

-- A list that holds a number counts it.
pub count_of_is_in : (n : ℕ) (xs : List ℕ) → is_in n xs ≡ true → 1 ≤ count n xs
count_of_is_in n [] h = absurd (absent h)
count_of_is_in n (x ∷ xs) h = elim (Bool-cases (x == n)) [
  | inl e ↦ rw e (omega arith)
  | inr e ↦ omega (arith, count_of_is_in n xs (rw e at h))
]

-- How often a number stands in an array of slots.
abbrev pub count_slots : ℕ → List (Option ℕ) → ℕ
count_slots n [] = 0
count_slots n (o ∷ os) = count_some n o + count_slots n os

pub count_slots-set :
    (n i : ℕ) (os : List (Option ℕ)) (o : Option ℕ)
    → i < length os
    → count_slots n (set os i o) + count_some n (get_or os i none)
      ≡ count_slots n os + count_some n o
count_slots-set n i [] o h = absurd (omega arith)
count_slots-set n zero (p ∷ os) o h = omega arith
count_slots-set n (suc i) (p ∷ os) o h = omega (arith, count_slots-set n i os o (omega arith))

-- 0, 1, …, n - 1.
abbrev pub indices_from : ℕ → ℕ → List ℕ
indices_from first zero = []
indices_from first (suc n) = first ∷ indices_from (first + 1) n

pub count-indices_from :
    (i first n : ℕ)
    → count i (indices_from first n) ≡ (if leb first i && ltb i (first + n) then 1 else 0)
count-indices_from i first zero = ground arith
count-indices_from i first (suc n) = ground (arith, count-indices_from i (first + 1) n)

pub length-indices_from : (first n : ℕ) → length (indices_from first n) ≡ n
length-indices_from first zero = refl
length-indices_from first (suc n) = ap suc (length-indices_from (first + 1) n)
