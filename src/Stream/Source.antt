-- ===== src/Stream/Source.antt =====
-- `GstCameraSource` of src/stream/gst_camera_source.cpp: the live pipeline, recording on demand and
-- snapshots. Pointers and joinable threads are Booleans; `terminated` says that the process has
-- ended by `std::terminate`, which the assignment or destruction of a joinable `std::thread` calls.
-- `delivered`, `saved` and `finished` list what went to the JPEG callback and to snapshot files, and
-- the recorders that were stopped, as they were when destroyed.
pub mod Recording
pub mod Snapshot
pub mod Lifecycle
pub mod Pipeline
pub mod Plugins
use Prim.Native.String.{String}
use text.Mathlib.Text.{◌==◌ as str_eq}
use ras_pi_zero_cam.Prelude.{
  ℕ, ◌-◌, ◌/◌, Bool, true, false, Option, none, some, List, [], ◌∷◌, ◌++◌, not, ◌||◌, ◌&&◌,
  if◌then◌else◌,
}
use ras_pi_zero_cam.Camera.Resolution.{ResolutionConfig}
use ras_pi_zero_cam.Camera.Frame.{Frame, PixelFormat, StreamType, Release}
use ras_pi_zero_cam.Record.Recorder
use ras_pi_zero_cam.Record.Recorder.{Recorder, Launch, fresh_recorder, push_frame}

pub record Source : Type 0 where
  pub cfg : ResolutionConfig
  pub jpeg_cb : Bool
  pub pipeline : Bool
  pub appsink : Bool
  pub rec_sink : Bool
  pub bus : Bool
  pub bus_thread : Bool
  pub rec_thread : Bool
  pub abort_bus : Bool
  pub abort_rec : Bool
  pub running : Bool
  pub recording : Bool
  pub recorder : Option Recorder
  pub current_file : String
  pub rec_start : ℕ
  pub snapshot_pending : Bool
  pub snapshot_path : String
  pub terminated : Bool
  pub delivered : List (List ℕ)
  pub saved : List (String × List ℕ)
  pub finished : List Recorder

-- The members as the constructor leaves them.
abbrev pub new_source : ResolutionConfig → Source
new_source cfg = record {
  cfg = cfg;
  jpeg_cb = false;
  pipeline = false;
  appsink = false;
  rec_sink = false;
  bus = false;
  bus_thread = false;
  rec_thread = false;
  abort_bus = false;
  abort_rec = false;
  running = false;
  recording = false;
  recorder = none;
  current_file = "";
  rec_start = 0;
  snapshot_pending = false;
  snapshot_path = "";
  terminated = false;
  delivered = [];
  saved = [];
  finished = [];
}

-- What GStreamer answers to `start`.
pub record Built : Type 0 where
  pub parsed : Bool
  pub parse_error : Bool
  pub appsink_found : Bool
  pub rec_sink_found : Bool
  pub bus_found : Bool
  pub plays : Bool

-- The two `std::thread` assignments at the end of `start`.
unfoldable pub start_threads : Source → Source
start_threads s = record s {
  terminated = s.terminated || (s.rec_thread || s.bus_thread);
  abort_rec = false;
  rec_thread = true;
  running = true;
  abort_bus = false;
  bus_thread = true;
}

unfoldable pub start : Source → Built → Source × Bool
unfolding start_threads
start s b =
    let s1 = record s { pipeline = b.parsed } in
    let s2 = record s1 {
      appsink = b.appsink_found;
      rec_sink = b.rec_sink_found;
      bus = b.bus_found;
    } in
    if s.running
    then (s, false)
    else if not b.parsed || b.parse_error
    then (s1, false)
    else if not b.appsink_found || (not b.rec_sink_found || not b.bus_found)
    then (record s2 { pipeline = false }, false)
    else if not b.plays
    then (record s2 { pipeline = false; appsink = false; rec_sink = false; bus = false }, false)
    else (start_threads s2, true)

-- The session that `stop_recording` stops before it destroys the recorder.
abbrev pub finish : Option Recorder → List Recorder
finish none = []
finish (some r) = (Recorder.stop r).0 ∷ []

unfoldable pub stop_recording : Source → Source × Bool
stop_recording s = if not s.recording then (s, false) else (
  record s { recording = false; recorder = none; finished = s.finished ++ finish s.recorder },
  true,
)

unfoldable pub stop : Source → Source
unfolding stop_recording
stop s =
    let s1 = if s.recording then (stop_recording s).0 else s in
    if not s.running then s else record s1 {
      running = false;
      abort_bus = true;
      abort_rec = true;
      rec_thread = false;
      bus_thread = false;
      appsink = false;
      rec_sink = false;
      bus = false;
      pipeline = false;
    }

unfoldable pub set_resolution : Source → ResolutionConfig → Built → Source × Bool
unfolding stop_recording stop start
set_resolution s cfg b =
    let s1 = if s.recording then (stop_recording s).0 else s in
    start (record (stop s1) { cfg = cfg }) b

-- The destructor; members that are joinable threads end the process.
unfoldable pub destroy : Source → Source
unfolding stop
destroy s =
    let s1 = if s.running then stop s else s in
    record s1 { terminated = s1.terminated || (s1.bus_thread || s1.rec_thread) }

-- `now` is the steady clock in milliseconds.
unfoldable pub start_recording : Source → String → Launch → ℕ → Source × Bool
start_recording s path l now =
    let (r, ok) = Recorder.start (fresh_recorder s.cfg) s.cfg path true l.clock_name l in
    if not s.running || s.recording
    then (s, false)
    else if not ok
    then (record s { recorder = none }, false)
    else (
      record s { recorder = some r; current_file = path; rec_start = now; recording = true },
      true,
    )

unfoldable pub recording_seconds : Source → ℕ → ℕ
recording_seconds s now = if not s.recording then 0 else (now - s.rec_start) / 1000

-- A sample of the JPEG appsink: its bytes, whether it maps, and whether a file opens for it.
pub record Sample : Type 0 where
  pub bytes : List ℕ
  pub maps : Bool
  pub opens : Bool

-- The snapshot part of `on_jpeg_sample`.
unfoldable pub save_pending : Source → Sample → Source
save_pending s sample =
    let written = record s { saved = s.saved ++ (s.snapshot_path, sample.bytes) ∷ [] } in
    let stored = if sample.opens then written else s in
    if not s.snapshot_pending
    then s
    else if str_eq s.snapshot_path ""
    then record s { snapshot_pending = false }
    else record stored { snapshot_path = ""; snapshot_pending = false }

unfoldable pub on_jpeg_sample : Source → Sample → Source
unfolding save_pending
on_jpeg_sample s sample =
    let shown = record s { delivered = s.delivered ++ sample.bytes ∷ [] } in
    if not sample.maps then s else save_pending (if s.jpeg_cb then shown else s) sample

unfoldable pub on_jpeg_samples : Source → List Sample → Source
unfolding on_jpeg_sample
on_jpeg_samples s [] = s
on_jpeg_samples s (sample ∷ rest) = on_jpeg_samples (on_jpeg_sample s sample) rest

-- `samples` are those that arrive while the call waits.
unfoldable pub take_snapshot : Source → String → List Sample → Source × Bool
take_snapshot s path samples =
    let s1 = record s { snapshot_path = path; snapshot_pending = true } in
    let s2 = on_jpeg_samples s1 samples in
    if not s.running
    then (s, false)
    else if s2.snapshot_pending
    then (record s2 { snapshot_pending = false }, false)
    else (s2, true)

-- The bus thread's reaction to a message.
pub data BusMessage : Type 0 where
  error warning eos : BusMessage

unfoldable pub on_bus_message : Source → BusMessage → Source
on_bus_message s error = record s { running = false }
on_bus_message s warning = s
on_bus_message s eos = record s { running = false }

-- The frame that the drain thread builds from a mapped NV12 sample; `pts` is the sample's time, or
-- the clock's where it has none.
abbrev pub drained_frame : Source → ℕ → ℕ → ℕ → ℕ → Frame
drained_frame s sample address size pts = record {
  address = some address;
  data_size = size;
  width = s.cfg.width;
  height = s.cfg.height;
  stride = s.cfg.width;
  format = PixelFormat.nv12;
  sequence = 0;
  timestamp = pts;
  stream_type = StreamType.video;
  dma_fd = none;
  release = some (Release.unmap sample);
}

-- One round of the drain thread with a sample: the new state, and how many references to the
-- sample are left. The frame's closure holds one until the frame is dropped, which is at once when
-- the recorder refuses it.
unfoldable pub drain_sample : Source → Frame → Bool → Bool → Source × ℕ
drain_sample s frame maps accepted = elim s.recorder [
  | none ↦ (s, 0)
  | some r ↦
      let (r', taken) = push_frame r frame accepted in
      if s.recording && maps
      then (record s { recorder = some r' }, if taken then 1 else 0)
      else (s, 0)
]
