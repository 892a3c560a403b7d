-- ===== src/Main/Names.antt =====
-- The time-stamped names: `next_name` of src/main.cpp, and `Recorder::next_filename` of
-- src/record/recorder.cpp. The local time is an argument.
pub mod Stamps
use Prim.Native.String.{String}
use mathlib.Core.List.{append_assoc}
use ras_pi_zero_cam.Prelude.{
  ℕ, ◌+◌, ◌<◌, ◌≡◌, refl, ap, ◌∙◌, Bool, true, false, not, ◌||◌, ◌&&◌, Option, none, some, List, [],
  ◌∷◌, ◌++◌, ◌==◌, if◌then◌else◌, arith,
}
use ras_pi_zero_cam.Prelude.Text.{Bytes, codes, Piece, lit, val, write, any, any-append}
use ras_pi_zero_cam.Prelude.Strftime.{Tm, strftime, date, time, any-date, any-time}
use ras_pi_zero_cam.Gst.{is_space}
use ras_pi_zero_cam.Main.Files.{
  FileSystem, is_slash, has_slash, has_dots, refused, delete_recording_file,
}

unfoldable pub next_name : Bytes → Bytes → Tm → Bytes
next_name dir fmt tm = dir ++ (codes "/" ++ strftime fmt tm)

abbrev pub recording_format : Bytes
recording_format = codes "rec_%Y%m%d_%H%M%S.mp4"

abbrev pub snapshot_format : Bytes
snapshot_format = codes "snap_%Y%m%d_%H%M%S.jpg"

unfoldable pub next_filename : Bytes → Tm → Bytes
next_filename recordings_dir tm = recordings_dir ++ (codes "/" ++ strftime recording_format tm)

-- The format of a recording, or else of a snapshot.
abbrev pub format : Bool → Bytes
format recording = if recording then recording_format else snapshot_format

-- A name with the time stamp between a prefix and an extension.
abbrev pub pieces : String → String → Tm → List Piece
pieces prefix extension tm =
    lit prefix ∷ val (date tm) ∷ lit "_" ∷ val (time tm) ∷ lit extension ∷ []

abbrev pub stem : String → Tm → Bytes
stem prefix tm = codes prefix ++ (date tm ++ (codes "_" ++ time tm))

stem_recording : (tm : Tm) → strftime recording_format tm ≡ stem "rec_" tm ++ codes ".mp4"
stem_recording tm = simp append_assoc

stem_snapshot : (tm : Tm) → strftime snapshot_format tm ≡ stem "snap_" tm ++ codes ".jpg"
stem_snapshot tm = simp append_assoc

pieces_recording : (tm : Tm) → strftime recording_format tm ≡ write (pieces "rec_" ".mp4" tm)
pieces_recording tm = simp append_assoc

pieces_snapshot : (tm : Tm) → strftime snapshot_format tm ≡ write (pieces "snap_" ".jpg" tm)
pieces_snapshot tm = simp append_assoc

abbrev is_dot : ℕ → Bool
is_dot c = c == b'.'

has_dots-append : (xs ys : Bytes) → any is_dot xs ≡ false → has_dots (xs ++ ys) ≡ has_dots ys
unfolding has_dots
has_dots-append [] ys h = refl
has_dots-append (x ∷ []) [] h = refl
has_dots-append (x ∷ []) (y ∷ ys) h = ground arith
has_dots-append (x ∷ x' ∷ xs) ys h = ground (arith, has_dots-append (x' ∷ xs) ys)

-- A test that fails on digits, and on the prefix and `_`, fails on the stem.
module _ (p : ℕ → Bool) (no_digit : (d : ℕ) → d < 10 → p (48 + d) ≡ false) where
  any-body : (tm : Tm) → p b'_' ≡ false → any p (date tm ++ (codes "_" ++ time tm)) ≡ false
  any-body tm h =
      any-append p (date tm) (codes "_" ++ time tm)
      ∙ (λ i. any-date p no_digit tm i || (h i || any-time p no_digit tm i))

dots_in_name :
    (prefix extension : String) (tm : Tm)
    → any is_dot (codes prefix) ≡ false
    → has_dots (stem prefix tm ++ codes extension) ≡ has_dots (codes extension)
dots_in_name prefix extension tm h = has_dots-append (stem prefix tm) (codes extension) (
    any-append is_dot (codes prefix) (date tm ++ (codes "_" ++ time tm))
    ∙ (λ i. h i || any-body is_dot (λ d lt. ground arith) tm refl i))

-- No slash and no space.
module _ (p : ℕ → Bool) (no_digit : (d : ℕ) → d < 10 → p (48 + d) ≡ false) where
  any-name :
      (prefix extension : String) (tm : Tm)
      → any p (codes prefix) ≡ false
      → p b'_' ≡ false
      → any p (codes extension) ≡ false
      → any p (stem prefix tm ++ codes extension) ≡ false
  any-name prefix extension tm a b c =
      any-append p (stem prefix tm) (codes extension)
      ∙ (λ i.
          any-append p (codes prefix) (date tm ++ (codes "_" ++ time tm)) i
          || any p (codes extension))
      ∙ (λ i. (a i || any-body p no_digit tm b i) || c i)

plain_name : (recording : Bool) (tm : Tm) → refused (strftime (format recording) tm) ≡ false
unfolding refused has_slash has_dots
plain_name true tm = ground (
  arith,
  ap has_dots (stem_recording tm) ∙ dots_in_name "rec_" ".mp4" tm refl,
  ap (any is_slash) (stem_recording tm)
      ∙ any-name is_slash (λ d lt. ground arith) "rec_" ".mp4" tm refl refl refl,
)
plain_name false tm = ground (
  arith,
  ap has_dots (stem_snapshot tm) ∙ dots_in_name "snap_" ".jpg" tm refl,
  ap (any is_slash) (stem_snapshot tm)
      ∙ any-name is_slash (λ d lt. ground arith) "snap_" ".jpg" tm refl refl refl,
)

-- The files that the program names itself can be deleted: `delete_recording_file` on the name of a
-- recording or a snapshot refuses nothing but a missing file, and removes the very path that
-- `next_name` gave. The recorder's own default is the name that `record_start` would give.
pub named_file_is_deletable :
    (fs : FileSystem) (dir : Bytes) (recording : Bool) (tm : Tm)
    → let path = next_name dir (format recording) tm in
      (delete_recording_file fs dir (strftime (format recording) tm) ≡ (
        if fs.exists path && fs.is_regular_file path
        then (fs.remove path, some path)
        else (false, none)))
      × (next_filename dir tm ≡ next_name dir (format true) tm)
unfolding delete_recording_file next_name next_filename
named_file_is_deletable fs dir recording tm = (
  rw (plain_name recording tm) (
      either
        (
          fs.remove (next_name dir (format recording) tm),
          some (next_name dir (format recording) tm),
        )
        (fs.exists (next_name dir (format recording) tm))
        (fs.is_regular_file (next_name dir (format recording) tm))),
  refl,
)
  where
    either :
        (r : Bool × Option (List ℕ)) (x y : Bool)
        → (if not x || not y then (false, none) else r) ≡ (if x && y then r else (false, none))
    either r true true = refl
    either r true false = refl
    either r false y = refl

-- A name with a plain directory is a plain path for a launch line.
pub next_name-plain :
    (recording : Bool) (dir : Bytes) (tm : Tm)
    → any is_space dir ≡ false
    → any is_space (next_name dir (format recording) tm) ≡ false
unfolding next_name
next_name-plain recording dir tm h =
    any-append is_space dir (codes "/" ++ strftime (format recording) tm)
    ∙ (λ i. h i || spaceless recording tm i)
  where
    spaceless : (recording : Bool) (tm : Tm) → any is_space (strftime (format recording) tm) ≡ false
    spaceless true tm =
        ap (any is_space) (stem_recording tm)
        ∙ any-name is_space (λ d lt. ground arith) "rec_" ".mp4" tm refl refl refl
    spaceless false tm =
        ap (any is_space) (stem_snapshot tm)
        ∙ any-name is_space (λ d lt. ground arith) "snap_" ".jpg" tm refl refl refl
