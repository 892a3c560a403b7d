-- ===== src/Main/Commands.antt =====
-- The camera commands that src/main.cpp registers: `set_resolution`, `record_start`, `record_stop`,
-- `record_restart` and `snapshot`. The optional file name of a message and the timestamped name are
-- arguments, as are the answers of GStreamer and the steady clock in milliseconds.
pub mod Answers
pub mod Launching
use Prim.Native.String.{String}
use ras_pi_zero_cam.Prelude.{
  ℕ, Bool, true, false, Option, none, some, List, ◌==◌, ◌&&◌, not, if◌then◌else◌,
}
use ras_pi_zero_cam.Camera.Resolution.{Resolution, ResolutionConfig, config_of}
use ras_pi_zero_cam.Record.Recorder.{Launch}
use ras_pi_zero_cam.Stream.Source
use ras_pi_zero_cam.Stream.Source.{Source, Built, Sample}
use ras_pi_zero_cam.Stream.Mjpeg.{Mjpeg}

pub record App : Type 0 where
  pub cfg : ResolutionConfig
  pub gst_cam : Source
  pub streamer : Mjpeg

pub data Reply : Type 0 where
  resolution_is : ℕ → ℕ → ℕ → Reply
  file_is : String → Reply
  stopped : String → ℕ → Reply
  error : String → Reply

-- Any other size means the medium preset.
unfoldable pub preset : ℕ → ℕ → Resolution
preset w h =
    if (w == 640) && (h == 480)
    then Resolution.low
    else if (w == 1920) && (h == 1080)
    then Resolution.high
    else Resolution.medium

unfoldable pub set_resolution : App → ℕ → ℕ → Built → App × Reply
unfolding preset
set_resolution a w h b =
    let cfg = config_of (preset w h) in
    let (cam, ok) = Source.set_resolution a.gst_cam cfg b in
    (
      record a { cfg = cfg; gst_cam = cam },
      if ok then resolution_is cfg.width cfg.height cfg.fps else error "pipeline restart failed",
    )

abbrev pub name_or : Option String → String → String
name_or none default = default
name_or (some file) default = file

unfoldable pub record_start : App → Option String → String → Launch → ℕ → App × Reply
record_start a filename next_name l now =
    let file = name_or filename next_name in
    let (cam, ok) = Source.start_recording a.gst_cam file l now in
    if a.gst_cam.recording
    then (a, error "already recording")
    else (record a { gst_cam = cam }, if ok then file_is file else error "failed to start")

unfoldable pub record_stop : App → ℕ → App × Reply
record_stop a now = if not a.gst_cam.recording then (a, error "not recording") else (
  record a { gst_cam = (Source.stop_recording a.gst_cam).0 },
  stopped a.gst_cam.current_file (Source.recording_seconds a.gst_cam now),
)

-- The result of `start_recording` is not looked at.
unfoldable pub record_restart : App → String → Launch → ℕ → App × Reply
record_restart a next_name l now =
    let idle = (Source.stop_recording a.gst_cam).0 in
    (record a { gst_cam = (Source.start_recording idle next_name l now).0 }, file_is next_name)

unfoldable pub snapshot : App → Option String → String → List Sample → App × Reply
snapshot a filename next_name samples =
    let file = name_or filename next_name in
    let (cam, ok) = Source.take_snapshot a.gst_cam file samples in
    (record a { gst_cam = cam }, if ok then file_is file else error "snapshot failed")
