-- ===== src/Codec/Device.antt =====
-- What the constructors and destructors of src/record/h264_hw_encoder.cpp and
-- src/stream/jpeg_hw_encoder.cpp do to the V4L2 device and to the members. The answers of the kernel
-- are a parameter: `none` is -1 or MAP_FAILED, and `some n` a success, with the count that
-- VIDIOC_REQBUFS granted in `n`.
use ras_pi_zero_cam.Prelude.{
  ℕ, zero, suc, ◌+◌, leb, Bool, false, Option, none, some, List, [], ◌∷◌, ◌++◌, if◌then◌else◌,
}
use ras_pi_zero_cam.Prelude.Counts.{erase}

pub data Queue : Type 0 where
  output : Queue
  capture : Queue

pub data PixelFormat : Type 0 where
  nv12 : PixelFormat
  yu12 : PixelFormat
  h264 : PixelFormat
  jpeg : PixelFormat

pub record Format : Type 0 where
  pub width : ℕ
  pub height : ℕ
  pub pixelformat : PixelFormat
  pub bytesperline : ℕ
  pub sizeimage : ℕ

-- The settings whose failure is only reported.
pub data Setting : Type 0 where
  bitrate : ℕ → Setting
  profile_high : Setting
  level_4_1 : Setting
  inline_headers : Setting
  idr_period : ℕ → Setting
  framerate : ℕ → Setting
  quality : ℕ → Setting

pub data Call : Type 0 where
  open_device : Call
  set_format : Queue → Format → Call
  request_buffers : Queue → ℕ → Call
  query_buffer : Queue → ℕ → Call
  map_buffer : Queue → ℕ → Call
  queue_buffer : ℕ → Call
  stream_on : Queue → Call

pub record Session : Type 0 where
  pub fd_open : Bool
  pub settings : List Setting
  pub free_slots : List ℕ
  pub output_maps : List ℕ
  pub capture_maps : List ℕ
  pub num_captures : ℕ
  pub queued : List ℕ
  pub streaming : List Queue
  pub threads : ℕ

abbrev pub unopened : Session
unopened = record {
  fd_open = false;
  settings = [];
  free_slots = [];
  output_maps = [];
  capture_maps = [];
  num_captures = 0;
  queued = [];
  streaming = [];
  threads = 0;
}

-- A constructor returns, throws, or writes past the end of a `std::array`.
pub data Built : Type 0 where
  built : Session → Built
  threw : Session → Built
  past_end : Session → Built

abbrev pub and_then : Built → (Session → Built) → Built
and_then (built s) k = k s
and_then (threw s) k = threw s
and_then (past_end s) k = past_end s

-- The buffers that a loop over an mmapped queue has set up.
abbrev pub add_map : Queue → ℕ → Session → Session
add_map Queue.output i s = record s { output_maps = s.output_maps ++ i ∷ [] }
add_map Queue.capture i s = record s { capture_maps = s.capture_maps ++ i ∷ [] }

abbrev pub set_ctrl : (Setting → Bool) → Setting → Session → Session
set_ctrl setting_taken c s = record s {
  settings = if setting_taken c then s.settings ++ c ∷ [] else s.settings;
}

-- A call whose failure throws.
abbrev pub answered : Option ℕ → Session → (ℕ → Session → Built) → Built
answered none s k = threw s
answered (some n) s k = k n s

module _ (answer : Call → Option ℕ) where
  abbrev pub need : Call → Session → (ℕ → Session → Built) → Built
  need c s k = answered (answer c) s k

  -- What the two loops do with a mapped buffer: an OUTPUT slot is free, a CAPTURE buffer is queued.
  unfoldable pub enter : Queue → ℕ → Session → Built
  enter Queue.output i s = built (record s { free_slots = s.free_slots ++ i ∷ [] })
  enter Queue.capture i s =
      need (Call.queue_buffer i) s (λ n t. built (record t { queued = t.queued ++ i ∷ [] }))

  -- One round of such a loop; `places` is the size of the array of buffers.
  unfoldable pub open_buffer : Queue → ℕ → ℕ → Session → Built
  unfolding enter
  open_buffer q places i s = need (Call.query_buffer q i) s (λ n t.
      if leb places i
      then past_end t
      else need (Call.map_buffer q i) t (λ m u. enter q i (add_map q i u)))

  -- The rounds from buffer `first` on.
  unfoldable pub open_buffers : Queue → ℕ → ℕ → ℕ → Session → Built
  open_buffers q places first zero s = built s
  open_buffers q places first (suc n) s =
      and_then (open_buffer q places first s) (open_buffers q places (first + 1) n)

-- `munmap` of the buffers that a destructor goes through.
unfoldable pub unmap : List ℕ → List ℕ → List ℕ
unmap [] maps = maps
unmap (i ∷ is) maps = unmap is (erase i maps)
