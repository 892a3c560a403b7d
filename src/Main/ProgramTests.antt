-- ===== src/Main/ProgramTests.antt =====
-- The whole program and the listing of recordings at concrete inputs.
use mathlib.Core.List.{Perm}
use mathlib.Core.List.Perm
use ras_pi_zero_cam.Prelude.{
  ◌≡◌, ◌≢◌, refl, sym, ◌∙◌, true, false, Bool, Bool-cases, inl, inr, List, [], ◌∷◌, ◌++◌,
  if◌then◌else◌,
}
use ras_pi_zero_cam.Stream.Source
use ras_pi_zero_cam.Stream.Source.{BusMessage, Sample}
use ras_pi_zero_cam.Stream.Tests.{built}
use ras_pi_zero_cam.Main.Program.{Event, run, step, launch, goes_on, shut_down}
use ras_pi_zero_cam.Main.Program.Shutdown.{program_shuts_down, lost_pipeline_aborts_program}
use ras_pi_zero_cam.Main.Recordings.{
  Entry, Recording, mp4, list_recordings, IsStrictWeak, Sorted, NewestFirst, StdSort, recordings,
  list_recordings_outcome,
}

abbrev picture : Sample
picture = record { bytes = 255 ∷ 216 ∷ []; maps = true; opens = true }

abbrev session : List Event
session =
    Event.sample_arrives picture
    ∷ Event.bus_message BusMessage.warning
    ∷ Event.set_resolution 640 480 built
    ∷ Event.sample_arrives picture
    ∷ Event.signal
    ∷ []

program_shuts_down_example :
    let p = run (launch true built) session in
    let next = step p (Event.sample_arrives picture) in
    let q = shut_down p in
    (p.app.streamer.published ≡ p.app.gst_cam.delivered)
    × (next.app.streamer.published ≡ p.app.streamer.published ++ picture.bytes ∷ [])
    × (next.app.gst_cam.delivered ≡ p.app.gst_cam.delivered ++ picture.bytes ∷ [])
    × (q.app.gst_cam.running ≡ false)
    × (q.app.gst_cam.recording ≡ false)
    × (q.app.gst_cam.terminated ≡ false)
    × (q.app.streamer.running ≡ false)
    × (q.ws_server.running ≡ false)
    × (q.battery_running ≡ false)
program_shuts_down_example =
    program_shuts_down true built session picture refl (tt, (refl, (tt, (tt, (tt, tt))))) refl

runs : (run (launch true built) []).app.gst_cam.running ≡ true
unfolding run launch Source.start Source.start_threads
runs = refl

not_warning : BusMessage.error ≢ BusMessage.warning
not_warning e = cc

lost_pipeline_aborts_program_example :
    let lost = step (run (launch true built) []) (Event.bus_message BusMessage.error) in
    (goes_on lost ≡ false) × ((shut_down lost).app.gst_cam.terminated ≡ true)
lost_pipeline_aborts_program_example =
    lost_pipeline_aborts_program true built [] BusMessage.error refl tt not_warning runs

-- Insertion by any comparison.
insert : (Recording → Recording → Bool) → Recording → List Recording → List Recording
insert less x [] = x ∷ []
insert less x (y ∷ ys) = let later = insert less x ys in if less y x then y ∷ later else x ∷ y ∷ ys

insertion_sort : (Recording → Recording → Bool) → List Recording → List Recording
insertion_sort less [] = []
insertion_sort less (x ∷ xs) = insert less x (insertion_sort less xs)

insert-perm :
    (less : Recording → Recording → Bool) (x : Recording) (xs : List Recording)
    → Perm (insert less x xs) (x ∷ xs)
unfolding insert
insert-perm less x [] = Perm.rfl
insert-perm less x (y ∷ ys) = elim (Bool-cases (less y x)) [
  | inl e ↦ rw e (Perm.trans (Perm.cons y (insert-perm less x ys)) (Perm.swap x y ys))
  | inr e ↦ rw e Perm.rfl
]

module _ (less : Recording → Recording → Bool) (weak : IsStrictWeak less) where
  asymmetric : (a b : Recording) → less a b ≡ true → less b a ≡ false
  asymmetric a b h = elim (Bool-cases (less b a)) [
    | inl e ↦ absurd (differ (sym (weak.irreflexive a) ∙ weak.transitive a b a h e))
    | inr e ↦ e
  ]
    where
      differ : ¬ (false ≡ true)
      differ e = cc

  -- A smaller head stays in front of an insertion.
  insert_below :
      (y x : Recording) (ys : List Recording)
      → less y x ≡ true
      → Sorted less (y ∷ ys)
      → Sorted less (insert less x ys)
      → Sorted less (y ∷ insert less x ys)
  unfolding insert
  insert_below y x [] h s t = (asymmetric y x h, tt)
  insert_below y x (z ∷ zs) h s t = elim (Bool-cases (less z x)) [
    | inl e ↦ rw e (s.0, rw e at t)
    | inr e ↦ rw e (asymmetric y x h, rw e at t)
  ]

  insert-Sorted :
      (x : Recording) (xs : List Recording) → Sorted less xs → Sorted less (insert less x xs)
  unfolding insert
  insert-Sorted x [] s = tt
  insert-Sorted x (y ∷ ys) s = elim (Bool-cases (less y x)) [
    | inl e ↦ rw e (insert_below y x ys e s (insert-Sorted x ys (tail y ys s)))
    | inr e ↦ rw e (e, s)
  ]
    where
      tail : (y : Recording) (ys : List Recording) → Sorted less (y ∷ ys) → Sorted less ys
      tail y [] h = tt
      tail y (z ∷ zs) h = h.1

insertion_sort-StdSort : StdSort insertion_sort
unfolding insertion_sort
insertion_sort-StdSort = record { permutes = permutes; sorts = sorts }
  where
    permutes :
        (less : Recording → Recording → Bool)
        → IsStrictWeak less
        → (xs : List Recording) → Perm (insertion_sort less xs) xs
    permutes less weak [] = Perm.rfl
    permutes less weak (x ∷ xs) =
        Perm.trans (insert-perm less x (insertion_sort less xs))
          (Perm.cons x (permutes less weak xs))

    sorts :
        (less : Recording → Recording → Bool)
        → IsStrictWeak less
        → (xs : List Recording) → Sorted less (insertion_sort less xs)
    sorts less weak [] = tt
    sorts less weak (x ∷ xs) =
        insert-Sorted less weak x (insertion_sort less xs) (sorts less weak xs)

abbrev entries : List Entry
entries =
    record {
      name = 97 ∷ [];
      extension = mp4;
      is_regular_file = true;
      file_size = 10;
      last_write = 5_200_000_000;
      file_now = 20_000_000_000;
      system_now = 1_700_000_000_000_000_000;
    }
    ∷ record {
      name = 98 ∷ [];
      extension = [];
      is_regular_file = true;
      file_size = 11;
      last_write = 6_200_000_000;
      file_now = 20_000_000_000;
      system_now = 1_700_000_000_000_000_000;
    }
    ∷ record {
      name = 99 ∷ [];
      extension = mp4;
      is_regular_file = true;
      file_size = 12;
      last_write = 7_200_000_000;
      file_now = 20_000_000_000;
      system_now = 1_700_000_000_000_000_000;
    }
    ∷ []

list_recordings_outcome_example :
    (list_recordings insertion_sort false entries ≡ [])
    × Perm (list_recordings insertion_sort true entries) (recordings entries)
    × NewestFirst (list_recordings insertion_sort true entries)
list_recordings_outcome_example =
    list_recordings_outcome insertion_sort insertion_sort-StdSort entries
