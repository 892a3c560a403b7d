-- ===== src/Main/Loop.antt =====
-- The timers of the main loop of src/main.cpp, in milliseconds of the steady clock. A pass is what
-- one round of the loop sees; the log lists what it broadcasts and prints, with the time.
use ras_pi_zero_cam.Prelude.{
  Bool-cases, inl, inr, ℕ, ◌+◌, ◌<◌, ◌≤◌, subst, Bool, List, [], ◌∷◌, ltb, leb, leb→le, ltb→lt, not,
  ◌&&◌, if◌then◌else◌, arith,
}

pub record Pass : Type 0 where
  pub now : ℕ
  pub recording : Bool
  pub free_mb : ℕ

pub record Timers : Type 0 where
  pub next_rec_push : ℕ
  pub next_storage_check : ℕ
  pub next_stat : ℕ
  pub rec_pushes : List ℕ
  pub storage_warnings : List (ℕ × ℕ)
  pub stats : List ℕ

abbrev pub began : ℕ → Timers
began now = record {
  next_rec_push = now + 1000;
  next_storage_check = now + 10000;
  next_stat = now + 60000;
  rec_pushes = [];
  storage_warnings = [];
  stats = [];
}

-- The latest entry stands first in each log.
unfoldable pub push_status : Timers → Pass → Timers
push_status t p =
    if p.recording && leb t.next_rec_push p.now
    then record t { rec_pushes = p.now ∷ t.rec_pushes; next_rec_push = p.now + 1000 }
    else t

unfoldable pub reset_push : Timers → Pass → Timers
reset_push t p = if not p.recording then record t { next_rec_push = p.now + 1000 } else t

unfoldable pub check_storage : Timers → Pass → Timers
check_storage t p =
    if leb t.next_storage_check p.now
    then (record t {
      storage_warnings =
          if ltb p.free_mb 500 then (p.now, p.free_mb) ∷ t.storage_warnings else t.storage_warnings;
      next_storage_check = p.now + 10000;
    })
    else t

unfoldable pub print_stats : Timers → Pass → Timers
print_stats t p =
    if leb t.next_stat p.now
    then record t { stats = p.now ∷ t.stats; next_stat = p.now + 60000 }
    else t

unfoldable pub pass : Timers → Pass → Timers
unfolding push_status reset_push check_storage print_stats
pass t p = print_stats (check_storage (reset_push (push_status t p) p) p) p

unfoldable pub loop : Timers → List Pass → Timers
unfolding pass
loop t [] = t
loop t (p ∷ ps) = loop (pass t p) ps

-- Times that stand at least `gap` apart, the first of them at least `gap` before `next`.
abbrev pub Spaced : ℕ → ℕ → List ℕ → Type 0
Spaced gap next [] = Unit {0}
Spaced gap next (x ∷ xs) = (x + gap ≤ next) × Spaced gap x xs

-- The same for warnings, each of them with less than 500 MB.
abbrev pub SpacedLow : ℕ → ℕ → List (ℕ × ℕ) → Type 0
SpacedLow gap next [] = Unit {0}
SpacedLow gap next ((x, mb) ∷ xs) = (x + gap ≤ next) × ((mb < 500) × SpacedLow gap x xs)

Spaced-raise : (gap n m : ℕ) (xs : List ℕ) → n ≤ m → Spaced gap n xs → Spaced gap m xs
Spaced-raise gap n m [] h s = tt
Spaced-raise gap n m (x ∷ xs) h s = (omega (arith, s.0), s.1)

SpacedLow-raise :
    (gap n m : ℕ) (xs : List (ℕ × ℕ)) → n ≤ m → SpacedLow gap n xs → SpacedLow gap m xs
SpacedLow-raise gap n m [] h s = tt
SpacedLow-raise gap n m ((x, mb) ∷ xs) h s = (omega (arith, s.0), s.1)

pub record IsPaced (now : ℕ) (t : Timers) : Type 0 where
  pub pushed : Spaced 1000 t.next_rec_push t.rec_pushes
  pub past : Spaced 1000 (now + 1000) t.rec_pushes
  pub warned : SpacedLow 10000 t.next_storage_check t.storage_warnings
  pub printed : Spaced 60000 t.next_stat t.stats

push_status-IsPaced :
    (now : ℕ) (t : Timers) (p : Pass)
    → now ≤ p.now
    → IsPaced now t
    → IsPaced p.now (push_status t p)
unfolding push_status
push_status-IsPaced now t p le v = elim (Bool-cases (p.recording && leb t.next_rec_push p.now)) [
  | inl e ↦
      let due : t.next_rec_push ≤ p.now = ground arith in
      let after : IsPaced p.now
          (record t { rec_pushes = p.now ∷ t.rec_pushes; next_rec_push = p.now + 1000 }) =
        record {
          pushed = (omega arith, Spaced-raise 1000 t.next_rec_push p.now t.rec_pushes due v.pushed);
          past = (omega arith, Spaced-raise 1000 t.next_rec_push p.now t.rec_pushes due v.pushed);
          warned = v.warned;
          printed = v.printed;
        } in
      subst (IsPaced p.now) (rw e) after
  | inr e ↦
      let after : IsPaced p.now t = record {
        pushed = v.pushed;
        past = Spaced-raise 1000 (now + 1000) (p.now + 1000) t.rec_pushes (omega arith) v.past;
        warned = v.warned;
        printed = v.printed;
      } in
      subst (IsPaced p.now) (rw e) after
]

reset_push-IsPaced : (t : Timers) (p : Pass) → IsPaced p.now t → IsPaced p.now (reset_push t p)
unfolding reset_push
reset_push-IsPaced t p v = elim (Bool-cases p.recording) [
  | inl e ↦ rw e v
  | inr e ↦
      let after : IsPaced p.now (record t { next_rec_push = p.now + 1000 }) = record {
        pushed = v.past;
        past = v.past;
        warned = v.warned;
        printed = v.printed;
      } in
      rw e after
]

warned-SpacedLow :
    (t : Timers) (p : Pass)
    → t.next_storage_check ≤ p.now
    → SpacedLow 10000 t.next_storage_check t.storage_warnings
    → SpacedLow 10000
        (p.now + 10000)
        (if ltb p.free_mb 500 then (p.now, p.free_mb) ∷ t.storage_warnings else t.storage_warnings)
warned-SpacedLow t p due v = elim (Bool-cases (ltb p.free_mb 500)) [
  | inl e ↦ rw e (
    omega arith,
    (
      ltb→lt p.free_mb 500 e,
      SpacedLow-raise 10000 t.next_storage_check p.now t.storage_warnings due v,
    ),
  )
  | inr e ↦ rw e (
      SpacedLow-raise 10000 t.next_storage_check (p.now + 10000) t.storage_warnings (omega arith) v)
]

check_storage-IsPaced :
    (t : Timers) (p : Pass) → IsPaced p.now t → IsPaced p.now (check_storage t p)
unfolding check_storage
check_storage-IsPaced t p v = elim (Bool-cases (leb t.next_storage_check p.now)) [
  | inl e ↦
      let warned = warned-SpacedLow t p (leb→le t.next_storage_check p.now e) v.warned in
      rw e (record { pushed = v.pushed; past = v.past; warned = warned; printed = v.printed })
  | inr e ↦ rw e v
]

print_stats-IsPaced : (t : Timers) (p : Pass) → IsPaced p.now t → IsPaced p.now (print_stats t p)
unfolding print_stats
print_stats-IsPaced t p v = elim (Bool-cases (leb t.next_stat p.now)) [
  | inl e ↦
      let printed =
        Spaced-raise 60000 t.next_stat p.now t.stats (leb→le t.next_stat p.now e) v.printed in
      rw e (record {
        pushed = v.pushed;
        past = v.past;
        warned = v.warned;
        printed = (omega arith, printed);
      })
  | inr e ↦ rw e v
]

-- The steady clock does not go back.
abbrev pub Steady : ℕ → List Pass → Type 0
Steady now [] = Unit {0}
Steady now (p ∷ ps) = (now ≤ p.now) × Steady p.now ps

loop-IsPaced :
    (now : ℕ) (t : Timers) (ps : List Pass)
    → Steady now ps
    → IsPaced now t
    → (last : ℕ) × IsPaced last (loop t ps)
unfolding loop pass
loop-IsPaced now t [] h v = (now, v)
loop-IsPaced now t (p ∷ ps) h v =
    loop-IsPaced p.now (print_stats (check_storage (reset_push (push_status t p) p) p) p) ps h.1 (
      print_stats-IsPaced (check_storage (reset_push (push_status t p) p) p) p (
        check_storage-IsPaced (reset_push (push_status t p) p) p
          (reset_push-IsPaced (push_status t p) p (push_status-IsPaced now t p h.0 v))))

-- In any run of the main loop with a steady clock, two recording status messages are at least one
-- second apart, two storage warnings at least ten seconds, and two lines of statistics at least 60
-- seconds, and each storage warning is about less than 500 MB.
pub loop_is_paced :
    (now : ℕ) (ps : List Pass)
    → Steady now ps
    → let t = loop (began now) ps in
      Spaced 1000 t.next_rec_push t.rec_pushes
      × (SpacedLow 10000 t.next_storage_check t.storage_warnings × Spaced 60000 t.next_stat t.stats)
loop_is_paced now ps h =
    let v =
      loop-IsPaced now (began now) ps h
        (record { pushed = tt; past = tt; warned = tt; printed = tt }) in
    (v.1.pushed, (v.1.warned, v.1.printed))
