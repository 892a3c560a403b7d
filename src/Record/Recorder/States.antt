-- ===== src/Record/Recorder/States.antt =====
-- The states of `Recorder` (src/record/recorder.cpp) and what each holds.
use Prim.Native.String.{String}
use ras_pi_zero_cam.Prelude.{
  ℕ, ◌≡◌, ◌≢◌, Bool, true, false, Option, none, some, List, [], ◌∷◌, not, arith,
}
use ras_pi_zero_cam.Camera.Resolution.{ResolutionConfig}
use ras_pi_zero_cam.Camera.Frame.{Frame}
use ras_pi_zero_cam.Record.Recorder.{
  Recorder, RecorderState, Launch, BusMessage, error, warning, start, stop, restart, push_frame,
  poll_bus, stamp, on_output, destroy, fresh_recorder,
}

-- What a state holds: nothing when idle; when recording the whole pipeline, and the hardware encoder
-- exactly in the mode that uses it. A call never leaves the recorder stopping.
pub record IsConsistent (r : Recorder) : Type 0 where
  pub settled : r.state ≢ RecorderState.stopping
  pub idle_holds :
      r.state ≡ RecorderState.idle
      → (r.pipeline ≡ false)
        × (r.appsrc ≡ false)
        × (r.bus ≡ false)
        × (r.hw_encoder ≡ false)
        × (r.open_pipelines ≡ 0)
  pub recording_holds :
      r.state ≡ RecorderState.recording
      → (r.pipeline ≡ true)
        × (r.appsrc ≡ true)
        × (r.bus ≡ true)
        × (r.hw_encoder ≡ not r.sw_encoder)
        × (r.open_pipelines ≡ 1)

-- The calls of a client and of the hardware encoder (its output callback, which reads the bus), with
-- what the collaborators answer to each.
pub data Call : Type 0 where
  starts : ResolutionConfig → String → Bool → String → Launch → Call
  stops : Call
  restarts : ResolutionConfig → String → Launch → Call
  pushes : Frame → Bool → Call
  outputs : Option BusMessage → ℕ → Call
  destroys : Call

unfoldable pub step : Recorder → Call → Recorder
step r (starts cfg file sw name l) = (start r cfg file sw name l).0
step r stops = (stop r).0
step r (restarts cfg name l) = (restart r cfg name l).0
step r (pushes frame accepted) = (push_frame r frame accepted).0
step r (outputs msg ts) = on_output r msg ts
step r destroys = destroy r

-- Does the bus hand out no error in this call?
abbrev pub is_harmless : Call → Bool
is_harmless (outputs (some error) ts) = false
is_harmless _ = true

abbrev pub AllHarmless : List Call → Type 0
AllHarmless [] = Unit {0}
AllHarmless (c ∷ cs) = (is_harmless c ≡ true) × AllHarmless cs

unfoldable pub run : Recorder → List Call → Recorder
run r [] = r
run r (c ∷ cs) = run (step r c) cs

pub start-IsConsistent :
    (r : Recorder) (cfg : ResolutionConfig) (file : String) (sw : Bool) (name : String) (l : Launch)
    → IsConsistent r
    → IsConsistent (start r cfg file sw name l).0
unfolding start
start-IsConsistent r cfg file sw name l v = ground arith

-- `start` and `push_frame` signal no end of stream.
pub eos_sent-start :
    (r : Recorder) (cfg : ResolutionConfig) (file : String) (sw : Bool) (name : String) (l : Launch)
    → (start r cfg file sw name l).0.eos_sent ≡ r.eos_sent
unfolding start
eos_sent-start r cfg file sw name l = ground arith

pub push_frame_keeps :
    (r : Recorder) (frame : Frame) (accepted : Bool)
    → ((push_frame r frame accepted).0.eos_sent ≡ r.eos_sent)
      × ((push_frame r frame accepted).0.state ≡ r.state)
unfolding push_frame
push_frame_keeps r frame accepted = ground arith

stop-IsConsistent : (r : Recorder) → IsConsistent r → IsConsistent (stop r).0
unfolding stop
stop-IsConsistent r v = ground arith

stamped-IsConsistent : (r : Recorder) (ts : ℕ) → IsConsistent r → IsConsistent (stamp r ts)
unfolding stamp
stamped-IsConsistent r ts v = ground (arith, v)

error_is_harmful : ¬ (false ≡ true)
error_is_harmful e = cc

-- Every call in which the bus hands out no error keeps the recorder consistent.
pub step-IsConsistent :
    (r : Recorder) (c : Call) → is_harmless c ≡ true → IsConsistent r → IsConsistent (step r c)
unfolding step
step-IsConsistent r (starts cfg file sw name l) h v = start-IsConsistent r cfg file sw name l v
step-IsConsistent r stops h v = stop-IsConsistent r v
step-IsConsistent r (restarts cfg name l) h v =
    unfold restart in start-IsConsistent (stop r).0 cfg "" false name l (stop-IsConsistent r v)
step-IsConsistent r (pushes frame accepted) h v = unfold push_frame in ground arith
step-IsConsistent r (outputs none ts) h v = unfold on_output poll_bus in stamped-IsConsistent r ts v
step-IsConsistent r (outputs (some warning) ts) h v =
    unfold on_output poll_bus in stamped-IsConsistent r ts v
step-IsConsistent r (outputs (some error) ts) h v = absurd (error_is_harmful h)
step-IsConsistent r destroys h v = unfold destroy in ground (arith, stop-IsConsistent r v)

run_from-IsConsistent :
    (r : Recorder) (cs : List Call) → AllHarmless cs → IsConsistent r → IsConsistent (run r cs)
unfolding run
run_from-IsConsistent r [] h v = v
run_from-IsConsistent r (c ∷ cs) h v =
    run_from-IsConsistent (step r c) cs h.1 (step-IsConsistent r c h.0 v)

-- After any calls on a fresh recorder, of its client and of the encoder's output callback, in which
-- the bus hands no error to the callback, the recorder is idle and holds nothing, or it records with
-- one whole pipeline and the encoder of its mode; it is never left stopping.
pub run-IsConsistent :
    (cfg : ResolutionConfig) (cs : List Call)
    → AllHarmless cs
    → IsConsistent (run (fresh_recorder cfg) cs)
run-IsConsistent cfg cs h = run_from-IsConsistent (fresh_recorder cfg) cs h (ground arith)
