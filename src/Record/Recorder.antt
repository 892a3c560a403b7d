-- ===== src/Record/Recorder.antt =====
-- `Recorder` of src/record/recorder.cpp: the recording session over a GStreamer mux pipeline.
-- GStreamer's and the hardware encoder's answers are the arguments `Launch`, `Bool` and `BusMessage`:
-- the code only tests them. `open_pipelines` counts the pipelines that were launched and not
-- released, which the source keeps in no variable.
pub mod States
pub mod Pts
pub mod Outcomes
pub mod Pipeline
use Prim.Native.String.{String}
use text.Mathlib.Text.{◌==◌ as str_eq}
use ras_pi_zero_cam.Prelude.{
  ℕ, ◌+◌, ◌-◌, ◌*◌, ◌/◌, ◌%◌, ◌^◌, Bool, true, false, Option, none, some, List, [], ◌∷◌, ◌++◌, ◌==◌,
  not, ◌&&◌, ◌||◌, if◌then◌else◌,
}
use ras_pi_zero_cam.Camera.Resolution.{Resolution, ResolutionConfig}
use ras_pi_zero_cam.Camera.Frame.{Frame}

pub data RecorderState : Type 0 where
  idle recording stopping : RecorderState

-- A buffer pushed into `appsrc`: its presentation time and duration in nanoseconds.
pub record Pushed : Type 0 where
  pub pts : ℕ
  pub duration : ℕ

-- The three GStreamer pointers and the encoder's are Booleans: not null. `eos_sent` counts the ends
-- of stream that were signalled, `ended` keeps what `appsrc` had got at each of them, and `pushed` is
-- what went into the current `appsrc`.
pub record Recorder : Type 0 where
  pub state : RecorderState
  pub current_file : String
  pub sw_encoder : Bool
  pub cfg : ResolutionConfig
  pub hw_encoder : Bool
  pub pipeline : Bool
  pub appsrc : Bool
  pub bus : Bool
  pub base_ts_us : ℕ
  pub first_output : Bool
  pub open_pipelines : ℕ
  pub eos_sent : ℕ
  pub ended : List (List Pushed)
  pub pushed : List Pushed

-- What the collaborators of `start` answer: the encoder's constructor, `gst_parse_launch` (a
-- pipeline, an error object), the two lookups, the change to PLAYING, and the name that
-- `next_filename` builds from the clock.
pub record Launch : Type 0 where
  pub hw_ok : Bool
  pub parsed : Bool
  pub parse_error : Bool
  pub appsrc_found : Bool
  pub bus_found : Bool
  pub plays : Bool
  pub clock_name : String

abbrev is_idle : RecorderState → Bool
is_idle RecorderState.idle = true
is_idle _ = false

abbrev pub is_recording_state : RecorderState → Bool
is_recording_state RecorderState.recording = true
is_recording_state _ = false

unfoldable pub is_recording : Recorder → Bool
is_recording r = is_recording_state r.state

unfoldable pub teardown_gst : Recorder → Recorder
teardown_gst r = record r {
  appsrc = false;
  bus = false;
  pipeline = false;
  open_pipelines = if r.pipeline then r.open_pipelines - 1 else r.open_pipelines;
}

-- `start` from the launch of the pipeline on.
unfoldable pub launch : Recorder → Launch → Recorder × Bool
unfolding teardown_gst
launch r l =
    let r1 = record r {
      pipeline = l.parsed;
      open_pipelines = if l.parsed then r.open_pipelines + 1 else r.open_pipelines;
    } in
    let r2 = record r1 { appsrc = l.appsrc_found; bus = l.bus_found } in
    if not l.parsed || l.parse_error
    then (teardown_gst (record r1 { hw_encoder = false }), false)
    else if not l.appsrc_found || not l.bus_found
    then (teardown_gst (record r2 { hw_encoder = false }), false)
    else if not l.plays
    then (teardown_gst (record r2 { hw_encoder = false }), false)
    else (record r2 { state = RecorderState.recording; pushed = [] }, true)

-- `default_name` is what `next_filename` builds from the clock.
unfoldable pub start :
    Recorder → ResolutionConfig → String → Bool → String → Launch → Recorder × Bool
unfolding launch
start r cfg filename sw_encoder default_name l =
    let r1 = record r {
      cfg = cfg;
      sw_encoder = sw_encoder;
      current_file = if str_eq filename "" then default_name else filename;
      first_output = true;
      base_ts_us = 0;
    } in
    if not (is_idle r.state)
    then (r, false)
    else if sw_encoder
    then launch r1 l
    else if l.hw_ok
    then launch (record r1 { hw_encoder = true }) l
    else (r1, false)

-- `gst_app_src_end_of_stream`.
unfoldable pub end_of_stream : Recorder → Recorder
end_of_stream r = record r { eos_sent = r.eos_sent + 1; ended = r.ended ++ r.pushed ∷ [] }

-- The wait for the end of stream has no effect on the state, whatever it answers.
unfoldable pub stop : Recorder → Recorder × Bool
unfolding teardown_gst end_of_stream
stop r =
    if not (is_recording_state r.state)
    then (r, false)
    else let r1 = record r { state = RecorderState.stopping; hw_encoder = false } in
      (record (teardown_gst (end_of_stream r1)) { state = RecorderState.idle }, true)

unfoldable pub restart : Recorder → ResolutionConfig → String → Launch → Recorder × Bool
unfolding stop start
restart r cfg default_name l = start (stop r).0 cfg "" false default_name l

-- 64-bit arithmetic on times: the difference of two `int64_t`, read as an unsigned clock time.
abbrev pub elapsed_ns : ℕ → ℕ → ℕ
elapsed_ns ts base = ((ts + 2 ^ 64 - base) * 1000) % 2 ^ 64

abbrev pub gst_second : ℕ
gst_second = 1_000_000_000

-- The first output fixes the zero of the presentation times.
unfoldable pub stamp : Recorder → ℕ → Recorder
stamp r ts =
    let r1 = if r.first_output then record r { base_ts_us = ts; first_output = false } else r in
    record r1 {
      pushed =
          r1.pushed
          ++ record { pts = elapsed_ns ts r1.base_ts_us; duration = gst_second / r1.cfg.fps } ∷ [];
    }

abbrev pub is_none {ℓ} : {A : Type ℓ} → Option A → Bool
is_none none = true
is_none (some a) = false

-- `accepted` is whether `gst_app_src_push_buffer` answers GST_FLOW_OK, or `encode` has a free slot.
-- A time point counts nanoseconds; the code cuts it to microseconds.
-- A frame with a DMA descriptor in a software session has no answer: the code follows a null pointer,
-- which no caller reaches, and the model returns the argument.
unfoldable pub push_frame : Recorder → Frame → Bool → Recorder × Bool
unfolding stamp
push_frame r frame accepted =
    if not (is_recording_state r.state)
    then (r, false)
    else if not r.sw_encoder && not r.hw_encoder
    then (r, false)
    else if is_none frame.dma_fd
    then if not r.appsrc then (r, false) else (stamp r (frame.timestamp / 1000), accepted)
    else (r, accepted)

pub data BusMessage : Type 0 where
  error warning : BusMessage

unfoldable pub poll_bus : Recorder → Option BusMessage → Recorder
poll_bus r none = r
poll_bus r (some warning) = r
poll_bus r (some error) = if r.bus then record r { state = RecorderState.idle } else r

-- The hardware encoder's output callback.
unfoldable pub on_output : Recorder → Option BusMessage → ℕ → Recorder
unfolding poll_bus stamp
on_output r msg ts = stamp (poll_bus r msg) ts

-- `Recorder(...)` and `~Recorder`.
abbrev pub fresh_recorder : ResolutionConfig → Recorder
fresh_recorder cfg = record {
  state = RecorderState.idle;
  current_file = "";
  sw_encoder = false;
  cfg = cfg;
  hw_encoder = false;
  pipeline = false;
  appsrc = false;
  bus = false;
  base_ts_us = 0;
  first_output = true;
  open_pipelines = 0;
  eos_sent = 0;
  ended = [];
  pushed = [];
}

unfoldable pub destroy : Recorder → Recorder
unfolding stop
destroy r = if not (is_idle r.state) then (stop r).0 else r
