-- ===== src/Record/Session.antt =====
-- A session of src/record/recorder.cpp with the encoder of src/record/h264_hw_encoder.cpp: `push_frame`
-- calls `encode`, and the encoder's output callback pushes each encoded buffer into the pipeline. A
-- call of `push_frame`, a pass of the poll thread, the taking of an output and its callback are
-- events in any order, with what the driver and the bus answer.
pub mod Order
pub mod Outputs
pub mod Stopping
use ras_pi_zero_cam.Prelude.{
  ℕ, ◌+◌, Bool, true, false, not, ◌&&◌, ◌||◌, Option, none, some, List, [], ◌∷◌, if◌then◌else◌,
}
use ras_pi_zero_cam.Camera.Frame.{Frame}
use ras_pi_zero_cam.Record.Recorder.{
  Recorder, RecorderState, BusMessage, is_recording_state, is_none, push_frame, on_output,
  teardown_gst, end_of_stream,
}
use ras_pi_zero_cam.Record.H264.{
  Encoder, OutputItem, Polled, encode, poll_pass, take_output, deliver,
}

pub record Session : Type 0 where
  pub recorder : Recorder
  pub encoder : Encoder

-- The tests of `push_frame` on the way to `encode`.
abbrev pub encodes : Recorder → Frame → Bool
encodes r frame =
    is_recording_state r.state && ((r.sw_encoder || r.hw_encoder) && not (is_none frame.dma_fd))

-- `id` names the frame for the encoder, and `ok` is the answer of VIDIOC_QBUF or of the pipeline.
unfoldable pub push : Session → Frame → ℕ → Bool → Session × Bool
push s frame id ok =
    let (encoder, accepted) = encode s.encoder id ok in
    let (r, answer) = push_frame s.recorder frame accepted in
    let (r', answer') = push_frame s.recorder frame ok in
    if encodes s.recorder frame
    then (record { recorder = r; encoder = encoder }, answer)
    else (record s { recorder = r' }, answer')

-- The callback with the item that the output thread holds, and VIDIOC_QBUF for its buffer.
abbrev pub calls_back : Session → Option OutputItem → Option BusMessage → Bool → Session
calls_back s none msg ok = s
calls_back s (some item) msg ok = record {
  recorder = on_output s.recorder msg item.timestamp_us;
  encoder = deliver s.encoder ok;
}

-- The output thread takes an item only when it holds none.
abbrev pub next_output : Encoder → Option OutputItem → Encoder
next_output e none = take_output e
next_output e (some item) = e

-- The last two are the stores of the encoder's destructor.
pub data Event : Type 0 where
  pushes : Frame → ℕ → Bool → Event
  polls : Polled → Event
  takes : Event
  outputs : Option BusMessage → Bool → Event
  stops_polling : Event
  stops_output : Event

unfoldable pub step : Session → Event → Session
unfolding push
step s (pushes frame id ok) = (push s frame id ok).0
step s (polls p) = record s { encoder = (poll_pass s.encoder p).0 }
step s takes = record s { encoder = next_output s.encoder s.encoder.delivering }
step s (outputs msg ok) = calls_back s s.encoder.delivering msg ok
step s stops_polling = record s { encoder = record s.encoder { abort_poll = true } }
step s stops_output = record s { encoder = record s.encoder { abort_output = true } }

unfoldable pub run : Session → List Event → Session
unfolding step
run s [] = s
run s (e ∷ es) = run (step s e) es

-- `stop` with the encoder's destructor spelled out: what happens until its threads are joined is
-- `during`, and the end of stream comes after it.
unfoldable pub stop : Session → List Event → Session × Bool
unfolding run teardown_gst end_of_stream
stop s during =
    let stopping = record s { recorder = record s.recorder { state = RecorderState.stopping } } in
    let joined = run stopping during in
    let r = record joined.recorder { hw_encoder = false } in
    if not (is_recording_state s.recorder.state) then (s, false) else (
      record joined {
        recorder = record (teardown_gst (end_of_stream r)) { state = RecorderState.idle };
      },
      true,
    )
