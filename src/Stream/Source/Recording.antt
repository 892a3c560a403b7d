-- ===== src/Stream/Source/Recording.antt =====
-- The recording sessions of src/stream/gst_camera_source.cpp over any calls and events.
use Prim.Native.String.{String}
use mathlib.Core.Bool.{false≢true}
use ras_pi_zero_cam.Prelude.{
  ℕ, Option-cases, Bool-cases, inl, inr, subst, ◌≡◌, refl, sym, ◌∙◌, Bool, true, false, Option,
  none, some, List, [], ◌∷◌, ◌++◌, not, ◌&&◌, ◌||◌, if◌then◌else◌, arith,
}
use ras_pi_zero_cam.Camera.Resolution.{ResolutionConfig}
use ras_pi_zero_cam.Camera.Frame.{Frame}
use ras_pi_zero_cam.Record.Recorder
use ras_pi_zero_cam.Record.Recorder.{Recorder, RecorderState, Launch, fresh_recorder}
use ras_pi_zero_cam.Record.Recorder.Outcomes
use ras_pi_zero_cam.Record.Recorder.States.{
  IsConsistent, start-IsConsistent, eos_sent-start, push_frame_keeps,
}
use ras_pi_zero_cam.Stream.Source.{
  Source, Built, Sample, BusMessage, finish, start, stop, set_resolution, start_recording,
  stop_recording, on_jpeg_sample, on_bus_message, drain_sample,
}

-- A session under way: the recorder records and has signalled no end of stream.
abbrev pub Active : Option Recorder → Type 0
Active none = ⊥
Active (some r) = (r.state ≡ RecorderState.recording) × IsConsistent r × (r.eos_sent ≡ 0)

-- Sessions that are over: the end of stream was signalled once, and no pipeline is left open.
abbrev pub AllFinal : List Recorder → Type 0
AllFinal [] = Unit {0}
AllFinal (r ∷ rs) =
    (r.state ≡ RecorderState.idle) × (r.eos_sent ≡ 1) × (r.open_pipelines ≡ 0) × AllFinal rs

pub record IsSound (s : Source) : Type 0 where
  pub active : s.recording ≡ true → Active s.recorder
  pub none_left : s.recording ≡ false → s.recorder ≡ none
  pub final : AllFinal s.finished

pub data Call : Type 0 where
  starts : Built → Call
  stops : Call
  changes : ResolutionConfig → Built → Call
  records : String → Launch → ℕ → Call
  stops_recording : Call
  receives : Sample → Call
  hears : BusMessage → Call
  drains : Frame → Bool → Bool → Call

unfoldable pub step : Source → Call → Source
step s (starts b) = (start s b).0
step s stops = stop s
step s (changes cfg b) = (set_resolution s cfg b).0
step s (records path l now) = (start_recording s path l now).0
step s stops_recording = (stop_recording s).0
step s (receives sample) = on_jpeg_sample s sample
step s (hears msg) = on_bus_message s msg
step s (drains frame maps accepted) = (drain_sample s frame maps accepted).0

unfoldable pub run : Source → List Call → Source
run s [] = s
run s (c ∷ cs) = run (step s c) cs

AllFinal-append : (rs ts : List Recorder) → AllFinal rs → AllFinal ts → AllFinal (rs ++ ts)
AllFinal-append [] ts h k = k
AllFinal-append (r ∷ rs) ts h k = (h.0, h.1, h.2, AllFinal-append rs ts h.3 k)

finish-AllFinal : (o : Option Recorder) → Active o → AllFinal (finish o)
finish-AllFinal none h = tt
finish-AllFinal (some r) h = unfold Recorder.stop in ground arith

-- Only the three fields of the sessions matter.
IsSound-by :
    (s t : Source)
    → IsSound s
    → t.recording ≡ s.recording
    → t.recorder ≡ s.recorder
    → t.finished ≡ s.finished
    → IsSound t
IsSound-by s t v p q r = record {
  active = λ e. rw q (v.active (sym p ∙ e));
  none_left = λ e. q ∙ v.none_left (sym p ∙ e);
  final = rw r v.final;
}

-- A stopped source has one more finished session.
abbrev stopped : Source → Source
stopped s = record s {
  recording = false;
  recorder = none;
  finished = s.finished ++ finish s.recorder;
}

stopped-IsSound : (s : Source) → IsSound s → s.recording ≡ true → IsSound (stopped s)
stopped-IsSound s v e = record {
  active = λ h. absurd (false≢true h);
  none_left = λ h. refl;
  final =
      AllFinal-append s.finished (finish s.recorder) v.final
        (finish-AllFinal s.recorder (v.active e));
}

stop_recording-IsSound : (s : Source) → IsSound s → IsSound (stop_recording s).0
unfolding stop_recording
stop_recording-IsSound s v = elim (Bool-cases s.recording) [
  | inl e ↦ subst IsSound (rw e) (stopped-IsSound s v e)
  | inr e ↦ subst IsSound (rw e) v
]

abbrev started : Source → Recorder → String → ℕ → Source
started s r path now = record s {
  recorder = some r;
  current_file = path;
  rec_start = now;
  recording = true;
}

started-IsSound :
    (s : Source) (r : Recorder) (path : String) (now : ℕ)
    → IsSound s
    → Active (some r)
    → IsSound (started s r path now)
started-IsSound s r path now v a = record {
  active = λ h. a;
  none_left = λ h. absurd (false≢true (sym h));
  final = v.final;
}

start_recording-IsSound :
    (s : Source) (path : String) (l : Launch) (now : ℕ)
    → IsSound s
    → IsSound (start_recording s path l now).0
unfolding start_recording
start_recording-IsSound s path l now v = elim (Bool-cases (not s.running || s.recording)) [
  | inl e ↦ subst IsSound (rw e) v
  | inr e ↦ elim (Bool-cases out.1) [
    | inl up ↦ subst IsSound (rw (e, up)) (
        started-IsSound s out.0 path now v (
          outcome up,
          start-IsConsistent fresh s.cfg path true l.clock_name l fresh-IsConsistent,
          eos_sent-start fresh s.cfg path true l.clock_name l,
        ))
    | inr down ↦
        subst IsSound (rw (e, down)) (
          IsSound-by s (record s { recorder = none }) v refl (sym (v.none_left (ground arith)))
            refl)
  ]
]
  where
    fresh : Recorder
    fresh = fresh_recorder s.cfg

    fresh-IsConsistent : IsConsistent fresh
    fresh-IsConsistent = ground arith

    out : Recorder × Bool
    out = Recorder.start fresh s.cfg path true l.clock_name l

    outcome : (out.1 ≡ true → out.0.state ≡ RecorderState.recording)
    outcome up =
        ((Outcomes.session_start_outcome fresh s.cfg path true l.clock_name l fresh-IsConsistent).2
          up).0

fed-IsSound :
    (s : Source) (r : Recorder) (frame : Frame) (accepted : Bool)
    → IsSound s
    → s.recording ≡ true
    → s.recorder ≡ some r
    → IsSound (record s { recorder = some (Recorder.push_frame r frame accepted).0 })
fed-IsSound s r frame accepted v e f =
    let a : Active (some r) = subst Active f (v.active e) in
    let keeps = push_frame_keeps r frame accepted in
    record {
      active = λ h.
          (keeps.1 ∙ a.0, unfold Recorder.push_frame in ground (arith, a.1, a.0), keeps.0 ∙ a.2);
      none_left = λ h. absurd (false≢true (sym h ∙ e));
      final = v.final;
    }

drain_sample-IsSound :
    (s : Source) (frame : Frame) (maps accepted : Bool)
    → IsSound s
    → IsSound (drain_sample s frame maps accepted).0
unfolding drain_sample
drain_sample-IsSound s frame maps accepted v = elim (Option-cases s.recorder) [
  | inl e ↦ subst IsSound (ground arith) v
  | inr (r, e) ↦ elim (Bool-cases (s.recording && maps)) [
    | inl on ↦
        subst IsSound (ground (arith, on, e)) (fed-IsSound s r frame accepted v (ground arith) e)
    | inr off ↦ subst IsSound (ground (arith, off, e)) v
  ]
]

stop-IsSound : (s : Source) → IsSound s → IsSound (stop s)
unfolding stop
stop-IsSound s v = elim (Bool-cases s.running) [
  | inl on ↦
      IsSound-by (stop_recording s).0 (stop s) (stop_recording-IsSound s v) (ground arith)
        (ground arith) (ground arith)
  | inr off ↦ subst IsSound (ground arith) v
]

start-IsSound : (s : Source) (b : Built) → IsSound s → IsSound (start s b).0
unfolding start
start-IsSound s b v = IsSound-by s (start s b).0 v (ground arith) (ground arith) (ground arith)

set_resolution-IsSound :
    (s : Source) (cfg : ResolutionConfig) (b : Built)
    → IsSound s
    → IsSound (set_resolution s cfg b).0
set_resolution-IsSound s cfg b v = unfold set_resolution in start-IsSound at_new_preset b changed
  where
    first : Source
    first = if s.recording then (stop_recording s).0 else s

    first-IsSound : IsSound first
    first-IsSound = elim (Bool-cases s.recording) [
      | inl e ↦ subst IsSound (ground (arith, e)) (stop_recording-IsSound s v)
      | inr e ↦ subst IsSound (ground (arith, e)) v
    ]

    at_new_preset : Source
    at_new_preset = record (stop first) { cfg = cfg }

    changed : IsSound at_new_preset
    changed =
        IsSound-by (stop first) at_new_preset (stop-IsSound first first-IsSound) refl refl refl

-- Every call and event keeps the sessions sound.
pub step-IsSound : (s : Source) (c : Call) → IsSound s → IsSound (step s c)
unfolding step
step-IsSound s (starts b) v = start-IsSound s b v
step-IsSound s stops v = stop-IsSound s v
step-IsSound s (changes cfg b) v = set_resolution-IsSound s cfg b v
step-IsSound s (records path l now) v = start_recording-IsSound s path l now v
step-IsSound s stops_recording v = stop_recording-IsSound s v
step-IsSound s (receives sample) v =
    IsSound-by s (on_jpeg_sample s sample) v (unfold on_jpeg_sample in ground arith)
      (unfold on_jpeg_sample in ground arith) (unfold on_jpeg_sample in ground arith)
step-IsSound s (hears msg) v =
    IsSound-by s (on_bus_message s msg) v (unfold on_bus_message in ground arith)
      (unfold on_bus_message in ground arith) (unfold on_bus_message in ground arith)
step-IsSound s (drains frame maps accepted) v = drain_sample-IsSound s frame maps accepted v

-- Over any calls, events and answers of the collaborators: while the source records, its recorder
-- records, consistently and with no end of stream signalled; otherwise it has no recorder; and every
-- recorder that was destroyed had been stopped, with one end of stream and its pipeline released.
pub run-IsSound : (s : Source) (cs : List Call) → IsSound s → IsSound (run s cs)
unfolding run
run-IsSound s [] v = v
run-IsSound s (c ∷ cs) v = run-IsSound (step s c) cs (step-IsSound s c v)
