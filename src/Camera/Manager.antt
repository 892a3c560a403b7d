-- ===== src/Camera/Manager.antt =====
-- `CameraManager` of src/camera/camera_manager.cpp: its state, the frames that it shares with its
-- consumers, and the completion callback. Opening and closing stand in Lifecycle.antt.
-- A frame is named by its place in `cells`, where its reference count stands; a capture request and
-- its buffer by a number. `queued` lists the calls of `queueRequest`, in order.
pub mod Lifecycle
pub mod Delivery
pub mod Cleanup
pub mod Stale
pub mod Restart
use ras_pi_zero_cam.Prelude.{
  ℕ, ◌+◌, ◌-◌, Bool, true, false, Option, none, some, List, [], ◌∷◌, ◌++◌, length, get_or, set,
  ◌==◌, not, if◌then◌else◌,
}
use ras_pi_zero_cam.Camera.Resolution.{Resolution, StillResolution, config_of}
use ras_pi_zero_cam.Camera.Frame.{
  Frame, PixelFormat, StreamType, Release, requeue, unmap, empty_frame,
}
use ras_pi_zero_cam.Camera.FrameQueue.{FrameQueue, push, pop, camera_slots, still_slots}

-- A frame and how many shared pointers hold it.
pub record Cell : Type 0 where
  pub frame : Frame
  pub refs : ℕ

abbrev pub no_cell : Cell
no_cell = record { frame = empty_frame; refs = 0 }

pub record MappedBuffer : Type 0 where
  pub address : ℕ
  pub size : ℕ

-- `started`, `camera` and `allocator` say whether the libcamera object is held, and `capturing`
-- whether the camera itself was started and not stopped.
pub record CameraManager : Type 0 where
  pub started : Bool
  pub camera : Bool
  pub allocator : Bool
  pub capturing : Bool
  pub connected : Bool
  pub mapped : List (ℕ × MappedBuffer)
  pub requests : List ℕ
  pub running : Bool
  pub resolution : Resolution
  pub stride : ℕ
  pub snapshot_armed : Bool
  pub still_res : StillResolution
  pub queue : FrameQueue ℕ
  pub still_queue : FrameQueue ℕ
  pub cells : List Cell
  pub queued : List ℕ

-- A completed request, as libcamera hands it over.
pub record Completed : Type 0 where
  pub request : ℕ
  pub cancelled : Bool
  pub buffer : ℕ
  pub sequence : ℕ
  pub timestamp : ℕ
  pub fd : ℕ

-- `mapped_.find`.
unfoldable pub find_mapped : ℕ → List (ℕ × MappedBuffer) → Option MappedBuffer
find_mapped b [] = none
find_mapped b ((c, mb) ∷ rest) = if c == b then some mb else find_mapped b rest

unfoldable pub requeue_request : CameraManager → ℕ → CameraManager
requeue_request m request = if m.running then record m { queued = m.queued ++ request ∷ [] } else m

-- The closure in `Frame::release`, run by the destructor of the frame.
unfoldable pub run_release : CameraManager → Option Release → CameraManager
unfolding requeue_request
run_release m none = m
run_release m (some (Release.requeue request)) = requeue_request m request
run_release m (some (Release.unmap sample)) = m

-- `std::make_shared<Frame>`, the copy of a pointer, and the destruction of one.
unfoldable pub make_shared : CameraManager → Frame → CameraManager
make_shared m frame = record m { cells = m.cells ++ record { frame = frame; refs = 1 } ∷ [] }

unfoldable pub copy_ptr : CameraManager → ℕ → CameraManager
copy_ptr m h =
    let c = get_or m.cells h no_cell in
    record m { cells = set m.cells h (record c { refs = c.refs + 1 }) }

unfoldable pub drop_ptr : CameraManager → ℕ → CameraManager
unfolding run_release
drop_ptr m h =
    let c = get_or m.cells h no_cell in
    let m' = record m { cells = set m.cells h (record c { refs = c.refs - 1 }) } in
    if c.refs == 1 then run_release m' c.frame.release else m'

-- What `on_request_completed` puts into the frame.
abbrev pub completed_frame : CameraManager → Completed → MappedBuffer → Frame
completed_frame m r mb = record {
  address = some mb.address;
  data_size = mb.size;
  width = (config_of m.resolution).width;
  height = (config_of m.resolution).height;
  stride = m.stride;
  format = PixelFormat.nv12;
  sequence = r.sequence;
  timestamp = r.timestamp;
  stream_type = StreamType.video;
  dma_fd = some r.fd;
  release = some (Release.requeue r.request);
}

abbrev tag_still : Cell → Cell
tag_still c = let f = c.frame in record c { frame = record f { stream_type = StreamType.still } }

-- The armed branch: the frame is shared, tagged as a still, and offered to the still queue. A full
-- queue destroys the pointer that it was given.
unfoldable pub deliver_still : CameraManager → ℕ → CameraManager
unfolding copy_ptr drop_ptr
deliver_still m h =
    let m1 = copy_ptr (record m { snapshot_armed = false }) h in
    let m2 = record m1 { cells = set m1.cells h (tag_still (get_or m1.cells h no_cell)) } in
    let (q, done) = push still_slots m2.still_queue (some h) in
    if done then record m2 { still_queue = q } else drop_ptr m2 h

-- The end of the callback: a full queue destroys the pointer, and the branch requeues the request.
unfoldable pub deliver_video : CameraManager → ℕ → ℕ → CameraManager
unfolding drop_ptr requeue_request
deliver_video m h request =
    let (q, done) = push camera_slots m.queue (some h) in
    if done then record m { queue = q } else requeue_request (drop_ptr m h) request

unfoldable pub deliver : CameraManager → Completed → MappedBuffer → CameraManager
unfolding make_shared deliver_still deliver_video
deliver m r mb =
    let h = length m.cells in
    let m1 = make_shared m (completed_frame m r mb) in
    deliver_video (if m1.snapshot_armed then deliver_still m1 h else m1) h r.request

unfoldable pub on_request_completed : CameraManager → Completed → CameraManager
unfolding deliver
on_request_completed m r = if r.cancelled then m else elim (find_mapped r.buffer m.mapped) [
  | none ↦ requeue_request m r.request
  | some mb ↦ deliver m r mb
]

unfoldable pub request_snapshot : CameraManager → CameraManager × Bool
request_snapshot m =
    if not m.running
    then (m, false)
    else if m.snapshot_armed
    then (m, false)
    else (record m { snapshot_armed = true }, true)

unfoldable pub try_get_snapshot : CameraManager → CameraManager × Option ℕ
try_get_snapshot m =
    let (q, frame) = pop still_slots m.still_queue in (record m { still_queue = q }, frame)

unfoldable pub set_still_resolution : CameraManager → StillResolution → CameraManager × Bool
set_still_resolution m res = (record m { still_res = res }, true)
