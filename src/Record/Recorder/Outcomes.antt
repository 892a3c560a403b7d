-- ===== src/Record/Recorder/Outcomes.antt =====
-- What `start`, `stop` and a pipeline error mean for a session of src/record/recorder.cpp.
use Prim.Native.String.{String}
use ras_pi_zero_cam.Prelude.{ℕ, ◌+◌, ◌≡◌, Bool, true, false, some, [], not, ◌&&◌, ◌||◌, arith}
use ras_pi_zero_cam.Camera.Resolution.{ResolutionConfig}
use ras_pi_zero_cam.Record.Recorder.{Recorder, RecorderState, Launch, error, start, stop, on_output}
use ras_pi_zero_cam.Record.Recorder.States.{IsConsistent}

-- The pipeline comes up: GStreamer and, in the hardware mode, the encoder grant all that is asked.
abbrev pub comes_up : Bool → Launch → Bool
comes_up sw l =
    (sw || l.hw_ok)
    && (l.parsed && (not l.parse_error && (l.appsrc_found && (l.bus_found && l.plays))))

-- `start` succeeds exactly from the idle state with a pipeline that comes up. Success means
-- recording in the mode asked for, with nothing pushed yet; failure leaves the state as it was.
pub session_start_outcome :
    (r : Recorder) (cfg : ResolutionConfig) (file : String) (sw : Bool) (name : String) (l : Launch)
    → IsConsistent r
    → let (r', ok) = start r cfg file sw name l in
      (r.state ≡ RecorderState.idle → ok ≡ comes_up sw l)
      × (r.state ≡ RecorderState.recording → (ok ≡ false) × (r' ≡ r))
      × (ok ≡ true
          → (r'.state ≡ RecorderState.recording)
            × (r'.sw_encoder ≡ sw)
            × (r'.cfg ≡ cfg)
            × (r'.first_output ≡ true)
            × (r'.pushed ≡ []))
      × (ok ≡ false → r'.state ≡ r.state)
unfolding start
session_start_outcome r cfg file sw name l v = ground arith

-- `stop` on a recording signals one end of stream, releases the pipeline and ends idle, keeping the
-- file's name; on an idle recorder it answers false and changes nothing.
pub session_stop_outcome :
    (r : Recorder)
    → IsConsistent r
    → let (r', ok) = stop r in
      (r.state ≡ RecorderState.recording
        → (ok ≡ true)
          × (r'.state ≡ RecorderState.idle)
          × (r'.eos_sent ≡ r.eos_sent + 1)
          × (r'.open_pipelines ≡ 0)
          × (r'.hw_encoder ≡ false)
          × (r'.current_file ≡ r.current_file))
      × (r.state ≡ RecorderState.idle → (ok ≡ false) × (r' ≡ r))
unfolding stop
session_stop_outcome r v = ground arith

-- A pipeline error that the output callback reads while recording makes the recorder idle with its
-- pipeline still open: `stop` then refuses and signals no end of stream, and a `start` that succeeds
-- leaves two pipelines open.
pub bus_error_leaks :
    (r : Recorder) (ts : ℕ) (cfg : ResolutionConfig) (file : String) (name : String) (l : Launch)
    → IsConsistent r
    → r.state ≡ RecorderState.recording
    → comes_up true l ≡ true
    → let broken = on_output r (some error) ts in
      (stop broken ≡ (broken, false))
      × (broken.eos_sent ≡ r.eos_sent)
      × (broken.open_pipelines ≡ 1)
      × ((start broken cfg file true name l).1 ≡ true)
      × ((start broken cfg file true name l).0.open_pipelines ≡ 2)
unfolding start stop on_output
bus_error_leaks r ts cfg file name l v e up = ground arith
