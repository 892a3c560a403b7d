-- ===== src/Main/Files.antt =====
-- `delete_recording_file` and `storage_mb` of src/main.cpp. A path is a list of bytes; the file
-- system is given by what `exists`, `is_regular_file` and `remove` answer for a path.
use ras_pi_zero_cam.Prelude.{
  ℕ, ◌-◌, ◌*◌, ◌/◌, ◌≡◌, ◌≢◌, refl, sym, ap, ◌∙◌, Bool, true, false, Bool-cases, inl, inr, not,
  ◌||◌, ◌&&◌, Option, none, some, List, [], ◌∷◌, ◌++◌, ◌==◌, if◌then◌else◌, arith,
}
use ras_pi_zero_cam.Prelude.Text.{any, split_by, split_by-at, split_by-plain}

-- '/' is 47, and '.' is 46.
abbrev pub is_slash : ℕ → Bool
is_slash c = c == 47

unfoldable pub has_slash : List ℕ → Bool
has_slash name = any is_slash name

unfoldable pub has_dots : List ℕ → Bool
has_dots [] = false
has_dots (a ∷ []) = false
has_dots (a ∷ b ∷ cs) = ((a == 46) && (b == 46)) || has_dots (b ∷ cs)

abbrev pub is_empty : List ℕ → Bool
is_empty [] = true
is_empty (c ∷ cs) = false

unfoldable pub refused : List ℕ → Bool
unfolding has_slash has_dots
refused name = is_empty name || (has_slash name || has_dots name)

pub record FileSystem : Type 0 where
  pub exists : List ℕ → Bool
  pub is_regular_file : List ℕ → Bool
  pub remove : List ℕ → Bool

-- The answer, and the path that was handed to `remove`. The path is joined as for a directory that is
-- not empty and does not end in a slash, which the one of the program is.
unfoldable pub delete_recording_file : FileSystem → List ℕ → List ℕ → Bool × Option (List ℕ)
unfolding refused
delete_recording_file fs dir name =
    let p = dir ++ 47 ∷ name in
    if refused name
    then (false, none)
    else if not (fs.exists p) || not (fs.is_regular_file p)
    then (false, none)
    else (fs.remove p, some p)

-- Block size, free blocks for users, blocks and free blocks, as `statvfs` gives them.
pub record StatVfs : Type 0 where
  pub frsize : ℕ
  pub bavail : ℕ
  pub blocks : ℕ
  pub bfree : ℕ

-- Free and used megabytes, and zeros when `statvfs` fails.
unfoldable pub storage_mb : Option StatVfs → ℕ × ℕ
storage_mb none = (0, 0)
storage_mb (some st) =
    (st.bavail * st.frsize / (1024 * 1024), (st.blocks - st.bfree) * st.frsize / (1024 * 1024))

-- The parts of a path between its slashes.
abbrev pub parts : List ℕ → List (List ℕ)
parts path = split_by is_slash path

-- The parts of a directory and a name are those of the directory and the name.
parts-under :
    (dir name : List ℕ) → has_slash name ≡ false → parts (dir ++ 47 ∷ name) ≡ parts dir ++ name ∷ []
unfolding has_slash
parts-under dir name h =
    split_by-at is_slash dir 47 name refl ∙ ap (◌++◌ (parts dir)) (split_by-plain is_slash name h)

refused-parts :
    (name : List ℕ)
    → refused name ≡ false
    → (has_slash name ≡ false) × ((name ≢ []) × (name ≢ 46 ∷ 46 ∷ []))
unfolding refused has_dots
refused-parts [] h = absurd (no h)
  where
    no : ¬ (true ≡ false)
    no e = cc
refused-parts (c ∷ cs) h = (
  (ground arith),
  ((λ e. cons_ne c cs e), λ e. dots (has_dots (c ∷ cs)) (ap has_dots e) (ground arith)),
)
  where
    cons_ne : (c : ℕ) (cs : List ℕ) → c ∷ cs ≢ []
    cons_ne c cs e = cc

    dots : (b : Bool) → b ≡ true → ¬ (b ≡ false)
    dots b e f = cc

nothing : (path : List ℕ) → ¬ (none ≡ some path)
nothing path e = cc

some_same : (p q : List ℕ) → some p ≡ some q → p ≡ q
some_same p q e = cc

is_regular : (a b : Bool) → (not a || not b) ≡ false → b ≡ true
is_regular true true e = refl
is_regular true false e = sym e
is_regular false b e = absurd (no e)
  where
    no : ¬ (true ≡ false)
    no e = cc

-- Whatever the file system and the name are: a path that is handed to `remove` is the directory's
-- path with exactly one more part, which is the name, is neither empty nor the parent directory, and
-- is a regular file; and the answer is then that of `remove`.
pub delete_stays_in_directory :
    (fs : FileSystem) (dir name path : List ℕ)
    → (delete_recording_file fs dir name).1 ≡ some path
    → (parts path ≡ parts dir ++ name ∷ [])
      × ((name ≢ [])
          × ((name ≢ 46 ∷ 46 ∷ [])
              × ((fs.is_regular_file path ≡ true)
                  × ((delete_recording_file fs dir name).0 ≡ fs.remove path))))
unfolding delete_recording_file
delete_stays_in_directory fs dir name path h =
    let p = dir ++ 47 ∷ name in
    elim (Bool-cases (refused name)) [
      | inl bad ↦ absurd (nothing path (rw bad at h))
      | inr good ↦ elim (Bool-cases (not (fs.exists p) || not (fs.is_regular_file p))) [
        | inl missing ↦ absurd (nothing path (rw (good, missing) at h))
        | inr there ↦
            let same = some_same p path (rw (good, there) at h) in
            let plain = refused-parts name good in
            (
              ap parts (sym same) ∙ parts-under dir name plain.0,
              (
                plain.1.0,
                (
                  plain.1.1,
                  (
                    ap fs.is_regular_file (sym same)
                        ∙ is_regular (fs.exists p) (fs.is_regular_file p) there,
                    rw (good, there) (ap fs.remove same),
                  ),
                ),
              ),
            )
      ]
    ]
