-- ===== src/Main/Commands/Answers.antt =====
-- What the camera commands of src/main.cpp answer.
use Prim.Native.String.{String}
use ras_pi_zero_cam.Prelude.{ℕ, ◌-◌, ◌/◌, ◌≡◌, refl, true, false, Option, if◌then◌else◌, arith}
use ras_pi_zero_cam.Camera.Resolution.{config_of}
use ras_pi_zero_cam.Record.Recorder
use ras_pi_zero_cam.Record.Recorder.{Launch, fresh_recorder}
use ras_pi_zero_cam.Stream.Source
use ras_pi_zero_cam.Stream.Source.{Source, Built, finish}
use ras_pi_zero_cam.Stream.Source.Lifecycle.{IsLive, comes_up, set_resolution_outcome}
use ras_pi_zero_cam.Stream.Mjpeg.{handle_status}
use ras_pi_zero_cam.Main.Commands.{
  App, resolution_is, file_is, stopped, error, preset, set_resolution, record_start, record_stop,
  record_restart,
}

-- On a live camera the command `set_resolution` answers the preset of the requested size exactly
-- when the new pipeline comes up; in both cases the preset of the program and that of the camera are
-- the requested one afterwards, but the status page of the HTTP server still shows the old one.
pub set_resolution_command_outcome :
    (a : App) (w h : ℕ) (b : Built)
    → IsLive a.gst_cam
    → let done = set_resolution a w h b in
      let cfg = config_of (preset w h) in
      (done.1 ≡ (
        if comes_up b
        then resolution_is cfg.width cfg.height cfg.fps
        else error "pipeline restart failed"))
      × ((done.0.cfg ≡ cfg)
          × ((done.0.gst_cam.cfg ≡ cfg)
              × (handle_status done.0.streamer ≡ handle_status a.streamer)))
unfolding set_resolution
set_resolution_command_outcome a w h b v =
    let out = set_resolution_outcome a.gst_cam (config_of (preset w h)) b v in
    (rw out.0 refl, (refl, (out.2, refl)))

-- After `record_start` answered with a file, the camera records to that file, and `record_stop`
-- answers with that file and the whole seconds since the start; the recording is over then.
pub record_stop-record_start :
    (a : App) (filename : Option String) (next_name file : String) (l : Launch) (began now : ℕ)
    → (record_start a filename next_name l began).1 ≡ file_is file
    → let started = (record_start a filename next_name l began).0 in
      (started.gst_cam.recording ≡ true)
      × (((record_stop started now).1 ≡ stopped file ((now - began) / 1000))
          × ((record_stop started now).0.gst_cam.recording ≡ false))
unfolding record_start record_stop Source.start_recording Source.stop_recording
    Source.recording_seconds
record_stop-record_start a filename next_name file l began now h = ground arith

-- `record_restart` on a camera that runs answers success with the new file name also when the new
-- recording does not start, and then the old recording is finished and nothing records.
pub record_restart_hides_failure :
    (a : App) (next_name : String) (l : Launch) (now : ℕ)
    → (Recorder.start (fresh_recorder a.gst_cam.cfg) a.gst_cam.cfg next_name true l.clock_name l).1
      ≡ false
    → let done = record_restart a next_name l now in
      (done.1 ≡ file_is next_name) × (done.0.gst_cam.recording ≡ false)
unfolding record_restart Source.start_recording Source.stop_recording
record_restart_hides_failure a next_name l now h = ground arith
