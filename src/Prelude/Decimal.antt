-- ===== src/Prelude/Decimal.antt =====
-- Decimal numerals: what `operator<<` writes for a number, and reading it back.
use Prim.Native.Nat.{ℕ, zero, suc, ◌+◌, ◌-◌, ◌*◌, ◌/◌, ◌%◌, ◌^◌, ◌≤◌, ◌<◌}
use mathlib.Core.Path.{◌≡◌, refl, sym, ap, ◌∙◌}
use mathlib.Core.Logic.{◌≢◌}
use mathlib.Core.Bool.{Bool, false, ◌&&◌}
use mathlib.Core.Option.{Option, none, some}
use mathlib.Core.List.{[], ◌∷◌, ◌++◌, append-nil}
use native.Mathlib.Omega.{arith}
use native.Mathlib.Nat.{pow-suc}
use ras_pi_zero_cam.Prelude.Lists.{length}
use ras_pi_zero_cam.Prelude.Tests.{ltb, leb, ◌==◌, if◌then◌else◌}
use ras_pi_zero_cam.Prelude.Text.{Bytes, codes, any}

-- The digits of `n` before `out`; `n < fuel` is enough.
unfoldable pub emit : ℕ → ℕ → Bytes → Bytes
emit zero n out = out
emit (suc fuel) n out =
    let more = emit fuel (n / 10) ((48 + n % 10) ∷ out) in if ltb n 10 then (48 + n) ∷ out else more

unfoldable pub print : ℕ → Bytes
unfolding emit
print n = emit (suc n) n []

abbrev pub is_digit : ℕ → Bool
is_digit c = leb 48 c && leb c 57

unfoldable pub scan : ℕ → Bytes → Option ℕ
scan n [] = some n
scan n (c ∷ s) = let rest = scan (n * 10 + (c - 48)) s in if is_digit c then rest else none

-- One digit or more.
unfoldable pub read : Bytes → Option ℕ
unfolding scan
read [] = none
read (c ∷ s) = scan 0 (c ∷ s)

scan-emit : (fuel n : ℕ) (out : Bytes) → n < fuel → scan 0 (emit fuel n out) ≡ scan n out
unfolding emit scan
scan-emit zero n out h = absurd (omega arith)
scan-emit (suc fuel) n out h = ground (arith, scan-emit fuel (n / 10) ((48 + n % 10) ∷ out))

emit-ne-nil : (fuel n : ℕ) (out : Bytes) → out ≢ [] → emit fuel n out ≢ []
unfolding emit
emit-ne-nil zero n out h = h
emit-ne-nil (suc fuel) n out h = ground (arith, emit-ne-nil fuel (n / 10) ((48 + n % 10) ∷ out))

read-scan : (s : Bytes) → s ≢ [] → read s ≡ scan 0 s
unfolding read
read-scan [] h = absurd (h refl)
read-scan (c ∷ s) h = refl

print-ne-nil : (n : ℕ) → print n ≢ []
unfolding print emit
print-ne-nil n = ground (arith, emit-ne-nil n (n / 10) ((48 + n % 10) ∷ []))

pub read-print : (n : ℕ) → read (print n) ≡ some n
unfolding print
read-print n =
    read-scan (print n) (print-ne-nil n) ∙ scan-emit (suc n) n [] (omega arith) ∙ nothing_left n
  where
    nothing_left : (n : ℕ) → scan n [] ≡ some n
    nothing_left n = unfold scan in refl

-- As the last piece of a part.
pub read-print_end : (n : ℕ) → read (print n ++ []) ≡ some n
read-print_end n = ap read (append-nil (print n)) ∙ read-print n

module _ (p : ℕ → Bool) (no_digit : (d : ℕ) → d < 10 → p (48 + d) ≡ false) where
  any-emit : (fuel n : ℕ) (out : Bytes) → any p (emit fuel n out) ≡ any p out
  unfolding emit
  any-emit zero n out = refl
  any-emit (suc fuel) n out = ground (
    arith,
    no_digit n,
    no_digit (n % 10) (omega arith),
    any-emit fuel (n / 10) ((48 + n % 10) ∷ out),
  )

  -- A numeral holds digits only.
  pub any_digits : (n : ℕ) → any p (print n) ≡ false
  unfolding print
  any_digits n = any-emit (suc n) n []

pub any-print : (c n : ℕ) → is_digit c ≡ false → any (λ x. x == c) (print n) ≡ false
any-print c n h = any_digits (λ x. x == c) (λ d lt. ground arith) n

emit-append : (fuel n : ℕ) (out rest : Bytes) → emit fuel n (out ++ rest) ≡ emit fuel n out ++ rest
unfolding emit
emit-append zero n out rest = refl
emit-append (suc fuel) n out rest =
    ground (arith, emit-append fuel (n / 10) ((48 + n % 10) ∷ out) rest)

-- Reading goes on behind a numeral.
pub scan-print : (n : ℕ) (rest : Bytes) → scan 0 (print n ++ rest) ≡ scan n rest
unfolding print
scan-print n rest =
    ap (scan 0) (sym (emit-append (suc n) n [] rest)) ∙ scan-emit (suc n) n rest (omega arith)

length-emit :
    (k fuel n : ℕ) (out : Bytes) → n < 10 ^ suc k → length (emit fuel n out) ≤ suc k + length out
unfolding emit
length-emit k zero n out h = omega arith
length-emit zero (suc fuel) n out h = ground (arith, h)
length-emit (suc k) (suc fuel) n out h =
    ground (arith, length-emit k fuel (n / 10) ((48 + n % 10) ∷ out) (tenth k n h))
  where
    tenth : (k n : ℕ) → n < 10 ^ suc (suc k) → n / 10 < 10 ^ suc k
    tenth k n h = omega (arith, pow-suc 10 (suc k))

-- A number below a power of ten has at most that many digits.
pub length-print : (k n : ℕ) → n < 10 ^ suc k → length (print n) ≤ suc k
unfolding print
length-print k n h = omega (arith, length-emit k (suc n) n [] h)

print_640 : print 640 ≡ codes "640"
unfolding print
print_640 = refl

read_not_digits : read (codes "6a") ≡ none
unfolding read
read_not_digits = refl
