-- ===== src/Record/H264.antt =====
-- `H264HardwareEncoder` of src/record/h264_hw_encoder.cpp while it streams: the input slots with the
-- frames that they keep alive, the queue of encoded buffers, and the two threads. A frame is a
-- number. The last fields are not in the program: which capture buffers the driver and the failed
-- VIDIOC_QBUF have, the frames that the encoder took and let go, and the buffers that it dequeued and
-- passed to the callback. The two callbacks are set, as the recorder does. The drop of a frame after a
-- critical section belongs to the same step.
pub mod Opening
pub mod Steps
pub mod Slots
pub mod Frames
pub mod Buffers
pub mod Draining
pub mod Passes
use ras_pi_zero_cam.Prelude.{
  ℕ, ◌+◌, ◌*◌, Bool, true, false, not, ◌&&◌, Option, none, some, List, [], ◌∷◌, ◌++◌, length,
  get_or, set, replicate, ◌==◌, if◌then◌else◌,
}
use ras_pi_zero_cam.Prelude.Counts.{erase, indices_from}
use ras_pi_zero_cam.Codec.Pool.{Pool, take_slot, settle, give_back}

pub record OutputItem : Type 0 where
  pub bytes_used : ℕ
  pub length : ℕ
  pub index : ℕ
  pub keyframe : Bool
  pub timestamp_us : ℕ

pub record Encoder : Type 0 where
  pub pool : Pool
  pub pending_frames : List (Option ℕ)
  pub output_queue : List OutputItem
  pub delivering : Option OutputItem
  pub abort_poll : Bool
  pub abort_output : Bool
  pub capturing : List ℕ
  pub lost : List ℕ
  pub accepted : List ℕ
  pub released : List ℕ
  pub captured : List OutputItem
  pub delivered : List OutputItem

abbrev pub num_output_buffers : ℕ
num_output_buffers = 6

abbrev pub num_capture_buffers : ℕ
num_capture_buffers = 12

-- A frame that is let go runs its `release`.
abbrev pub drop_frame : Option ℕ → List ℕ
drop_frame none = []
drop_frame (some frame) = frame ∷ []

abbrev pub claimed : Encoder → ℕ → Option (ℕ × Pool) → Encoder × Bool
claimed e frame none = (e, false)
claimed e frame (some (slot, pool)) = (
  record e {
    pool = pool;
    pending_frames = set e.pending_frames slot (some frame);
    accepted = e.accepted ++ frame ∷ [];
    released = e.released ++ drop_frame (get_or e.pending_frames slot none);
  },
  true,
)

-- The first critical section of `encode`; an assignment drops the pointer that it overwrites.
unfoldable pub claim : Encoder → ℕ → Encoder × Bool
claim e frame = claimed e frame (take_slot e.pool)

abbrev pub emptied : Encoder → Option ℕ → Encoder
emptied e none = e
emptied e (some slot) = record e {
  pending_frames = set e.pending_frames slot none;
  released = e.released ++ drop_frame (get_or e.pending_frames slot none);
}

-- VIDIOC_QBUF and what `encode` does with its answer.
unfoldable pub submit : Encoder → Bool → Encoder × Bool
submit e ok =
    let kept = if ok then e else emptied e e.pool.filling in
    (record kept { pool = settle e.pool ok }, ok)

unfoldable pub encode : Encoder → ℕ → Bool → Encoder × Bool
unfolding claim submit
encode e frame ok =
    let first = claim e frame in if first.1 then submit first.0 ok else (first.0, false)

-- The OUTPUT part of `poll_thread_fn`: the slot is free again, and its frame is let go.
unfoldable pub return_input : Encoder → ℕ → Encoder
return_input e slot = record (emptied e (some slot)) { pool = give_back e.pool slot }

-- The CAPTURE part: `sec` and `usec` are the time stamp of the buffer.
pub record Captured : Type 0 where
  pub index : ℕ
  pub bytes_used : ℕ
  pub length : ℕ
  pub sec : ℕ
  pub usec : ℕ
  pub keyframe : Bool

abbrev pub item_of : Captured → OutputItem
item_of b = record {
  bytes_used = b.bytes_used;
  length = b.length;
  index = b.index;
  keyframe = b.keyframe;
  timestamp_us = b.sec * 1000000 + b.usec;
}

unfoldable pub take_capture : Encoder → Captured → Encoder
take_capture e b = record e {
  output_queue = e.output_queue ++ item_of b ∷ [];
  capturing = erase b.index e.capturing;
  captured = e.captured ++ item_of b ∷ [];
}

-- What one pass of the poll thread sees: the result of `poll`, and the two VIDIOC_DQBUF.
pub data Polled : Type 0 where
  interrupted : Polled
  failed : Polled
  idle : Polled
  readable : Option ℕ → Option Captured → Polled

abbrev pub returned : Encoder → Option ℕ → Encoder
returned e none = e
returned e (some slot) = return_input e slot

abbrev pub taken : Encoder → Option Captured → Encoder
taken e none = e
taken e (some b) = take_capture e b

abbrev pub after_poll : Encoder → Polled → Encoder × Bool
after_poll e interrupted = (e, true)
after_poll e failed = (e, false)
after_poll e idle = (e, true)
after_poll e (readable input capture) = (taken (returned e input) capture, true)

-- The test for the drained encoder.
abbrev pub drained : Encoder → Bool
drained e = e.abort_poll && (length e.pool.free == num_output_buffers)

-- The Boolean says whether the loop goes on.
unfoldable pub poll_pass : Encoder → Polled → Encoder × Bool
unfolding return_input take_capture
poll_pass e p = if drained e then (e, false) else after_poll e p

-- The first part of a pass of the output thread.
abbrev pub popped : Encoder → List OutputItem → Encoder
popped e [] = e
popped e (item ∷ rest) = record e { output_queue = rest; delivering = some item }

unfoldable pub take_output : Encoder → Encoder
take_output e = popped e e.output_queue

-- The callback, and VIDIOC_QBUF for the capture buffer.
abbrev pub handed_on : Encoder → Option OutputItem → Bool → Encoder
handed_on e none ok = e
handed_on e (some item) ok = record e {
  delivering = none;
  delivered = e.delivered ++ item ∷ [];
  capturing = if ok then e.capturing ++ item.index ∷ [] else e.capturing;
  lost = if ok then e.lost else e.lost ++ item.index ∷ [];
}

unfoldable pub deliver : Encoder → Bool → Encoder
deliver e ok = handed_on e e.delivering ok

-- The test on which the output thread returns.
abbrev pub no_output : List OutputItem → Bool
no_output [] = true
no_output (x ∷ xs) = false

unfoldable pub output_ends : Encoder → Bool
output_ends e = e.abort_output && no_output e.output_queue

-- The state that the constructor leaves when the driver grants `inputs` and `captures` buffers.
unfoldable pub streaming : ℕ → ℕ → Encoder
streaming inputs captures = record {
  pool = record { free = indices_from 0 inputs; filling = none; driver = [] };
  pending_frames = replicate num_output_buffers none;
  output_queue = [];
  delivering = none;
  abort_poll = false;
  abort_output = false;
  capturing = indices_from 0 captures;
  lost = [];
  accepted = [];
  released = [];
  captured = [];
  delivered = [];
}
