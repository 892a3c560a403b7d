-- ===== src/Main/Recordings.antt =====
-- `list_recordings_json` of src/main.cpp. The entries of the directory, with what the file system
-- says of each, are an argument, and so is `std::sort`. A name is a list of bytes, and a size is in
-- bytes: the program divides it by 1024 * 1024 as a double.
use mathlib.Core.List.{Perm, append_assoc, append-nil}
use ras_pi_zero_cam.Prelude.{
  ℕ, ◌+◌, ◌-◌, ◌/◌, ◌≤◌, ◌≡◌, refl, sym, subst, ◌∙◌, Bool, true, false, Bool-cases, inl, inr,
  Option, none, some, List, [], ◌∷◌, ◌++◌, ltb, not, ◌&&◌, ◌||◌, if◌then◌else◌, arith,
}
use ras_pi_zero_cam.Prelude.Text.{same}
use ras_pi_zero_cam.Main.Files.{FileSystem, delete_recording_file, refused}

-- Times are in nanoseconds: `last_write` and `file_now` on the clock of the file system, counted from
-- any moment before both, and `system_now` since 1970. The last two are the two calls of `now` that
-- the loop makes for this file.
pub record Entry : Type 0 where
  pub name : List ℕ
  pub extension : List ℕ
  pub is_regular_file : Bool
  pub file_size : ℕ
  pub last_write : ℕ
  pub file_now : ℕ
  pub system_now : ℕ

pub record Recording : Type 0 where
  pub name : List ℕ
  pub size : ℕ
  pub modified : ℕ

-- ".mp4" and ".jpg".
abbrev pub mp4 : List ℕ
mp4 = 46 ∷ 109 ∷ 112 ∷ 52 ∷ []

abbrev pub jpg : List ℕ
jpg = 46 ∷ 106 ∷ 112 ∷ 103 ∷ []

-- The two `continue` of the loop.
unfoldable pub skipped : Entry → Bool
skipped e = not e.is_regular_file || (not (same e.extension mp4) && not (same e.extension jpg))

-- The time of the last write moved to the system clock, and cut to seconds by `to_time_t`; it is
-- exact for a file that was written since 1970.
abbrev pub modified_at : Entry → ℕ
modified_at e = (e.last_write + e.system_now - e.file_now) / 1_000_000_000

abbrev pub describe : Entry → Recording
describe e = record { name = e.name; size = e.file_size; modified = modified_at e }

-- The loop, with the array that it fills.
unfoldable pub collect : List Recording → List Entry → List Recording
collect files [] = files
collect files (e ∷ rest) = collect (if skipped e then files else files ++ describe e ∷ []) rest

-- The comparison that `std::sort` gets.
unfoldable pub newer : Recording → Recording → Bool
newer a b = ltb b.modified a.modified

module _ (sort : (Recording → Recording → Bool) → List Recording → List Recording) where
  unfoldable pub list_recordings : Bool → List Entry → List Recording
  unfolding collect newer
  list_recordings exists entries = if not exists then [] else sort newer (collect [] entries)

-- The answers of the two file commands; a message with no file name counts as one with an empty name.
pub data FileReply : Type 0 where
  listed : List Recording → FileReply
  deleted : FileReply
  error : FileReply

unfoldable pub list_command :
    ((Recording → Recording → Bool) → List Recording → List Recording)
    → Bool
    → List Entry
    → FileReply
unfolding list_recordings
list_command sort exists entries = listed (list_recordings sort exists entries)

abbrev name_of : Option (List ℕ) → List ℕ
name_of none = []
name_of (some name) = name

-- The answer, and the path that was handed to `remove`.
unfoldable pub delete_command : FileSystem → List ℕ → Option (List ℕ) → FileReply × Option (List ℕ)
unfolding delete_recording_file
delete_command fs dir filename =
    let (ok, path) = delete_recording_file fs dir (name_of filename) in
    (if ok then deleted else error, path)

error_ne_deleted : ¬ (FileReply.error ≡ deleted)
error_ne_deleted e = cc

removed :
    (fs : FileSystem) (dir name : List ℕ)
    → (delete_recording_file fs dir name).0 ≡ true
    → (path : List ℕ) × ((delete_recording_file fs dir name).1 ≡ some path)
      × (fs.remove path ≡ true)
unfolding delete_recording_file
removed fs dir name h = (dir ++ 47 ∷ name, ground arith, ground arith)

-- A message with no file name deletes nothing, and the answer `deleted` means that `remove` succeeded
-- on the path that it got.
pub delete_command_outcome :
    (fs : FileSystem) (dir : List ℕ) (filename : Option (List ℕ))
    → (delete_command fs dir none ≡ (error, none))
      × ((delete_command fs dir filename).0 ≡ deleted
          → (path : List ℕ) × ((delete_command fs dir filename).1 ≡ some path)
            × (fs.remove path ≡ true))
unfolding delete_command refused
delete_command_outcome fs dir filename = (
  refl,
  λ h. elim (Bool-cases (delete_recording_file fs dir (name_of filename)).0) [
    | inl q ↦ removed fs dir (name_of filename) q
    | inr q ↦ absurd (error_ne_deleted (rw q at h))
  ],
)

-- What `std::sort` asks of a comparison.
pub record IsStrictWeak (less : Recording → Recording → Bool) : Type 0 where
  pub irreflexive : (a : Recording) → less a a ≡ false
  pub transitive : (a b c : Recording) → less a b ≡ true → less b c ≡ true → less a c ≡ true
  pub incomparable :
      (a b c : Recording)
      → less a b ≡ false
      → less b a ≡ false
      → less b c ≡ false
      → less c b ≡ false
      → (less a c ≡ false) × (less c a ≡ false)

-- No element comes before the one that stands next to its left.
abbrev pub Sorted : (Recording → Recording → Bool) → List Recording → Type 0
Sorted less [] = Unit {0}
Sorted less (a ∷ []) = Unit {0}
Sorted less (a ∷ b ∷ rest) = (less b a ≡ false) × Sorted less (b ∷ rest)

abbrev pub NewestFirst : List Recording → Type 0
NewestFirst [] = Unit {0}
NewestFirst (a ∷ []) = Unit {0}
NewestFirst (a ∷ b ∷ rest) = (b.modified ≤ a.modified) × NewestFirst (b ∷ rest)

-- What `std::sort` promises for such a comparison.
pub record StdSort (sort : (Recording → Recording → Bool) → List Recording → List Recording)
    : Type 0 where
  pub permutes :
      (less : Recording → Recording → Bool)
      → IsStrictWeak less
      → (xs : List Recording) → Perm (sort less xs) xs
  pub sorts :
      (less : Recording → Recording → Bool)
      → IsStrictWeak less
      → (xs : List Recording) → Sorted less (sort less xs)

newer-IsStrictWeak : IsStrictWeak newer
unfolding newer
newer-IsStrictWeak = record {
  irreflexive = λ a. ground arith;
  transitive = λ a b c p q. ground (arith, p, q);
  incomparable = λ a b c p q r s. ground (arith, p, q, r, s);
}

-- The files that the listing is about.
abbrev pub recordings : List Entry → List Recording
recordings [] = []
recordings (e ∷ rest) =
    let later = recordings rest in
    if e.is_regular_file && (same e.extension mp4 || same e.extension jpg)
    then describe e ∷ later
    else later

collect-recordings :
    (files : List Recording) (es : List Entry) → collect files es ≡ files ++ recordings es
unfolding collect skipped
collect-recordings files [] = sym (append-nil files)
collect-recordings files (e ∷ rest) =
    collect-recordings (if skipped e then files else files ++ describe e ∷ []) rest
    ∙ go e.is_regular_file (same e.extension mp4) (same e.extension jpg)
  where
    go :
        (regular a b : Bool)
        → (if not regular || (not a && not b) then files else files ++ describe e ∷ [])
            ++ recordings rest
          ≡ files ++ (if regular && (a || b) then describe e ∷ recordings rest else recordings rest)
    go false a b = refl
    go true true b = append_assoc files (describe e ∷ []) (recordings rest)
    go true false true = append_assoc files (describe e ∷ []) (recordings rest)
    go true false false = refl

Sorted-NewestFirst : (xs : List Recording) → Sorted newer xs → NewestFirst xs
unfolding newer
Sorted-NewestFirst [] h = tt
Sorted-NewestFirst (a ∷ []) h = tt
Sorted-NewestFirst (a ∷ b ∷ rest) h = (ground (arith, h.0), Sorted-NewestFirst (b ∷ rest) h.1)

-- When `std::sort` permutes and sorts by every strict weak order, the listing is empty for a missing
-- directory, and otherwise holds each regular file with the extension .mp4 or .jpg as often as the
-- directory does and nothing else, with the second of the last write that it shows (by the two
-- clocks as they are read for each file) never rising along it.
pub list_recordings_outcome :
    (sort : (Recording → Recording → Bool) → List Recording → List Recording)
    → StdSort sort
    → (entries : List Entry)
    → (list_recordings sort false entries ≡ [])
      × Perm (list_recordings sort true entries) (recordings entries)
      × NewestFirst (list_recordings sort true entries)
unfolding list_recordings
list_recordings_outcome sort std entries = (
  refl,
  subst (Perm (sort newer (collect [] entries))) (collect-recordings [] entries)
      (std.permutes newer newer-IsStrictWeak (collect [] entries)),
  Sorted-NewestFirst (sort newer (collect [] entries))
      (std.sorts newer newer-IsStrictWeak (collect [] entries)),
)
