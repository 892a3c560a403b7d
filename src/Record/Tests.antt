-- ===== src/Record/Tests.antt =====
-- Recording sessions at concrete inputs.

use ras_pi_zero_cam.Prelude.{ℕ, ◌≡◌, refl, true, false, none, some, List, [], ◌∷◌, arith}
use ras_pi_zero_cam.Camera.Resolution.{Resolution, ResolutionConfig, config_of}
use ras_pi_zero_cam.Camera.Frame.{Frame, empty_frame}
use ras_pi_zero_cam.Record.Recorder.{Recorder, RecorderState, Launch, warning, fresh_recorder}
use ras_pi_zero_cam.Record.Recorder.States
use ras_pi_zero_cam.Record.Recorder.States.{
  IsConsistent, Call, starts, stops, pushes, outputs, run, run-IsConsistent,
}
use ras_pi_zero_cam.Record.Recorder.Pts.{push_all, push_all_pts}

abbrev cfg : ResolutionConfig
cfg = config_of Resolution.low

abbrev granted : Launch
granted = record {
  hw_ok = true;
  parsed = true;
  parse_error = false;
  appsrc_found = true;
  bus_found = true;
  plays = true;
  clock_name = "recordings/rec_20250309_120007.mp4";
}

abbrev taken_at : ℕ → Frame
taken_at ns = record empty_frame { timestamp = ns }

abbrev idle : Recorder
idle = fresh_recorder cfg

abbrev recording : Recorder
recording = record idle {
  state = RecorderState.recording;
  current_file = "a.mp4";
  sw_encoder = true;
  pipeline = true;
  appsrc = true;
  bus = true;
  open_pipelines = 1;
}

idle-IsConsistent : IsConsistent idle
idle-IsConsistent = ground arith

recording-IsConsistent : IsConsistent recording
recording-IsConsistent = ground arith

abbrev calls : List Call
calls =
    starts cfg "a.mp4" false "" granted
    ∷ pushes (record (taken_at 1000) { dma_fd = some 7 }) true
    ∷ outputs (some warning) 33
    ∷ outputs none 66
    ∷ stops
    ∷ starts cfg "b.mp4" true "" granted
    ∷ pushes (taken_at 1000) true
    ∷ []

run-IsConsistent_example : IsConsistent (States.run idle calls)
run-IsConsistent_example =
    run-IsConsistent cfg calls (refl, (refl, (refl, (refl, (refl, (refl, (refl, tt)))))))

push_all_pts_example :
    (push_all recording (taken_at 5000000 ∷ taken_at 38000000 ∷ [])).pushed
    ≡ record { pts = 0; duration = 33333333 } ∷ record { pts = 33000000; duration = 33333333 } ∷ []
push_all_pts_example =
    push_all_pts recording (taken_at 5000000) (taken_at 38000000 ∷ [])
      (record { recording = refl; software = refl; source = refl }) refl refl
      (refl, omega arith, omega arith, (refl, omega arith, omega arith, tt))
