-- ===== src/Main/Names/Stamps.antt =====
-- What the time-stamped names of src/main.cpp and src/record/recorder.cpp tell: the second that they
-- were made in, and their length.
use Prim.Native.String.{String}
use mathlib.Core.List.{append_assoc, append_cancel_left, append-nil}
use ras_pi_zero_cam.Prelude.{
  ℕ, ◌+◌, ◌*◌, ◌≤◌, ◌<◌, ◌^◌, ◌≡◌, sym, ap, ◌∙◌, Bool, true, false, ◌||◌, Option, none, some, List,
  [], ◌∷◌, ◌++◌, map, ◌==◌, arith,
}
use ras_pi_zero_cam.Prelude.Text
use ras_pi_zero_cam.Prelude.Text.{
  Bytes, codes, Piece, lit, val, write, split_by, glue_all, any, any-append,
}
use ras_pi_zero_cam.Prelude.Decimal.{scan}
use ras_pi_zero_cam.Prelude.Strftime.{
  two, Tm, IsTm, strftime, date, time, any-date, any-time, scan-date, scan-time,
}
use ras_pi_zero_cam.Prelude.{length, length-append}
use ras_pi_zero_cam.Prelude.Text.{glue_all}
use ras_pi_zero_cam.Prelude.Decimal.{print, length-print}
use ras_pi_zero_cam.Main.Names.{
  next_name, format, pieces, pieces_recording, pieces_snapshot, stem_recording, stem_snapshot, stem,
}

abbrev is_separator : ℕ → Bool
is_separator c = (c == b'_') || (c == b'.')

-- The date and the time that a name shows.
abbrev stamp_in : List Bytes → Option ℕ × Option ℕ
stamp_in (a ∷ d ∷ t ∷ e ∷ []) = (scan 0 d, scan 0 t)
stamp_in parts = (none, none)

abbrev pub read_stamp : Bytes → Option ℕ × Option ℕ
read_stamp name = stamp_in (split_by is_separator name)

abbrev pub date_number : Tm → ℕ
date_number tm = ((tm.tm_year + 1900) * 100 + (tm.tm_mon + 1)) * 100 + tm.tm_mday

abbrev pub time_number : Tm → ℕ
time_number tm = (tm.tm_hour * 100 + tm.tm_min) * 100 + tm.tm_sec

stamp-write :
    (prefix extension : String) (tm : Tm)
    → split_by is_separator (write (pieces prefix extension tm))
      ≡ glue_all (map (Text.cut is_separator) (pieces prefix extension tm))
stamp-write prefix extension tm = Text.split_by-write is_separator (pieces prefix extension tm) (
  any-date is_separator (λ d lt. ground arith) tm,
  (any-time is_separator (λ d lt. ground arith) tm, tt),
)

numbers_of :
    (tm : Tm)
    → IsTm tm
    → ◌≡◌ {A = Option ℕ × Option ℕ}
        (scan 0 (date tm ++ []), scan 0 (time tm))
        (some (date_number tm), some (time_number tm))
numbers_of tm h = λ i. ((ap (scan 0) (append-nil (date tm)) ∙ scan-date tm h) i, scan-time tm h i)

-- The name of a recording or a snapshot reads back as the date and the time.
read_stamp-name :
    (recording : Bool) (tm : Tm)
    → IsTm tm
    → read_stamp (strftime (format recording) tm) ≡ (some (date_number tm), some (time_number tm))
read_stamp-name true tm h =
    ap read_stamp (pieces_recording tm)
    ∙ ap stamp_in (stamp-write "rec_" ".mp4" tm)
    ∙ numbers_of tm h
read_stamp-name false tm h =
    ap read_stamp (pieces_snapshot tm)
    ∙ ap stamp_in (stamp-write "snap_" ".jpg" tm)
    ∙ numbers_of tm h

some_number : {m n : ℕ} → some m ≡ some n → m ≡ n
some_number e = cc

-- Two names of one kind in one directory are equal only when the two local times agree in all six
-- fields, from the year to the second.
pub next_name-injective :
    (recording : Bool) (dir : Bytes) (tm tm' : Tm)
    → IsTm tm
    → IsTm tm'
    → next_name dir (format recording) tm ≡ next_name dir (format recording) tm'
    → (tm.tm_year ≡ tm'.tm_year)
      × (tm.tm_mon ≡ tm'.tm_mon)
      × (tm.tm_mday ≡ tm'.tm_mday)
      × (tm.tm_hour ≡ tm'.tm_hour)
      × (tm.tm_min ≡ tm'.tm_min)
      × (tm.tm_sec ≡ tm'.tm_sec)
unfolding next_name
next_name-injective recording dir tm tm' h h' e =
    let names =
      append_cancel_left (dir ++ codes "/") (strftime (format recording) tm)
        (strftime (format recording) tm')
        (append_assoc dir (codes "/") (strftime (format recording) tm)
          ∙ e
          ∙ sym (append_assoc dir (codes "/") (strftime (format recording) tm'))) in
    let stamps =
      sym (read_stamp-name recording tm h)
      ∙ ap read_stamp names
      ∙ read_stamp-name recording tm' h' in
    let dates : date_number tm ≡ date_number tm' = some_number (ap (λ s. s.0) stamps) in
    let times : time_number tm ≡ time_number tm' = some_number (ap (λ s. s.1) stamps) in
    (omega arith, omega arith, omega arith, omega arith, omega arith, omega arith)

date_length : (tm : Tm) → tm.tm_year < 2 ^ 31 → length (date tm) ≤ 14
date_length tm h = omega (
  arith,
  length-append (print (tm.tm_year + 1900)) (two (tm.tm_mon + 1) ++ two tm.tm_mday),
  length-print 9 (tm.tm_year + 1900) (omega arith),
)

stem_length :
    (prefix : String) (tm : Tm)
    → tm.tm_year < 2 ^ 31
    → length (stem prefix tm) ≤ length (codes prefix) + 21
stem_length prefix tm h = omega (
  arith,
  length-append (codes prefix) (date tm ++ (codes "_" ++ time tm)),
  length-append (date tm) (codes "_" ++ time tm),
  date_length tm h,
)

-- The text that `strftime` writes for a name is shorter than its buffer of 64 bytes, for a year that
-- fits the `int` of `struct tm`.
pub name_fits_buffer :
    (recording : Bool) (tm : Tm)
    → tm.tm_year < 2 ^ 31
    → length (strftime (format recording) tm) < 64
name_fits_buffer true tm h = omega (
  arith,
  ap length (stem_recording tm),
  length-append (stem "rec_" tm) (codes ".mp4"),
  stem_length "rec_" tm h,
)
name_fits_buffer false tm h = omega (
  arith,
  ap length (stem_snapshot tm),
  length-append (stem "snap_" tm) (codes ".jpg"),
  stem_length "snap_" tm h,
)
