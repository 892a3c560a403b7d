-- ===== src/Prelude/Strftime.antt =====
-- What `strftime` of the C library writes for the conversions that the program uses: the year, and
-- month, day, hour, minute and second with two digits each.
use Prim.Native.Nat.{ℕ, ◌+◌, ◌*◌, ◌/◌, ◌%◌, ◌≤◌, ◌<◌}
use mathlib.Core.Path.{◌≡◌, ap, ◌∙◌}
use mathlib.Core.Bool.{Bool, false}
use mathlib.Core.Option.{some}
use mathlib.Core.List.{[], ◌∷◌, ◌++◌}
use native.Mathlib.Omega.{arith}
use ras_pi_zero_cam.Prelude.Tests.{◌==◌, if◌then◌else◌}
use ras_pi_zero_cam.Prelude.Text.{Bytes, any, any-append}
use ras_pi_zero_cam.Prelude.Decimal.{print, scan, any_digits, scan-print}

pub record Tm : Type 0 where
  pub tm_year : ℕ
  pub tm_mon : ℕ
  pub tm_mday : ℕ
  pub tm_hour : ℕ
  pub tm_min : ℕ
  pub tm_sec : ℕ

-- What `localtime_r` gives; a second may be a leap second.
pub record IsTm (tm : Tm) : Type 0 where
  pub mon : tm.tm_mon ≤ 11
  pub mday : tm.tm_mday ≤ 31
  pub hour : tm.tm_hour ≤ 23
  pub minute : tm.tm_min ≤ 59
  pub second : tm.tm_sec ≤ 60

abbrev pub two : ℕ → Bytes
two n = (48 + n / 10 % 10) ∷ (48 + n % 10) ∷ []

abbrev conversion : ℕ → Tm → Bytes
conversion c tm =
    if c == b'Y'
    then print (tm.tm_year + 1900)
    else if c == b'm'
    then two (tm.tm_mon + 1)
    else if c == b'd'
    then two tm.tm_mday
    else if c == b'H'
    then two tm.tm_hour
    else if c == b'M'
    then two tm.tm_min
    else if c == b'S'
    then two tm.tm_sec
    else b'%' ∷ c ∷ []

abbrev pub strftime : Bytes → Tm → Bytes
strftime [] tm = []
strftime (c ∷ []) tm = c ∷ []
strftime (c ∷ d ∷ fmt) tm =
    let converted = conversion d tm ++ strftime fmt tm in
    let copied = c ∷ strftime (d ∷ fmt) tm in if c == b'%' then converted else copied

-- `%Y%m%d` and `%H%M%S`.
abbrev pub date : Tm → Bytes
date tm = print (tm.tm_year + 1900) ++ (two (tm.tm_mon + 1) ++ two tm.tm_mday)

abbrev pub time : Tm → Bytes
time tm = two tm.tm_hour ++ (two tm.tm_min ++ two tm.tm_sec)

module _ (p : ℕ → Bool) (no_digit : (d : ℕ) → d < 10 → p (48 + d) ≡ false) (tm : Tm) where
  pub any-time : any p (time tm) ≡ false
  any-time = ground (
    arith,
    no_digit (tm.tm_hour / 10 % 10) (omega arith),
    no_digit (tm.tm_hour % 10) (omega arith),
    no_digit (tm.tm_min / 10 % 10) (omega arith),
    no_digit (tm.tm_min % 10) (omega arith),
    no_digit (tm.tm_sec / 10 % 10) (omega arith),
    no_digit (tm.tm_sec % 10) (omega arith),
  )

  pub any-date : any p (date tm) ≡ false
  any-date =
      any-append p (print (tm.tm_year + 1900)) (two (tm.tm_mon + 1) ++ two tm.tm_mday)
      ∙ ground (
        arith,
        any_digits p no_digit (tm.tm_year + 1900),
        no_digit ((tm.tm_mon + 1) / 10 % 10) (omega arith),
        no_digit ((tm.tm_mon + 1) % 10) (omega arith),
        no_digit (tm.tm_mday / 10 % 10) (omega arith),
        no_digit (tm.tm_mday % 10) (omega arith),
      )

-- The numbers that the two texts spell.
scan-two : (n m : ℕ) (rest : Bytes) → m < 100 → scan n (two m ++ rest) ≡ scan (n * 100 + m) rest
unfolding scan
scan-two n m rest h = ground arith

module _ (tm : Tm) (h : IsTm tm) where
  pub scan-date :
      scan 0 (date tm) ≡ some ((((tm.tm_year + 1900) * 100 + (tm.tm_mon + 1)) * 100) + tm.tm_mday)
  unfolding scan
  scan-date =
      scan-print (tm.tm_year + 1900) (two (tm.tm_mon + 1) ++ two tm.tm_mday)
      ∙ scan-two (tm.tm_year + 1900) (tm.tm_mon + 1) (two tm.tm_mday) (omega arith)
      ∙ scan-two ((tm.tm_year + 1900) * 100 + (tm.tm_mon + 1)) tm.tm_mday [] (omega arith)

  pub scan-time : scan 0 (time tm) ≡ some ((tm.tm_hour * 100 + tm.tm_min) * 100 + tm.tm_sec)
  unfolding scan
  scan-time =
      scan-two 0 tm.tm_hour (two tm.tm_min ++ two tm.tm_sec) (omega arith)
      ∙ scan-two (0 * 100 + tm.tm_hour) tm.tm_min (two tm.tm_sec) (omega arith)
      ∙ scan-two ((0 * 100 + tm.tm_hour) * 100 + tm.tm_min) tm.tm_sec [] (omega arith)
      ∙ ap (λ n. some ((n * 100 + tm.tm_min) * 100 + tm.tm_sec)) (omega arith)
