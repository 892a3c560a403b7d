-- ===== src/Camera/Tests.antt =====
-- Runs of the capture side at concrete inputs.
use ras_pi_zero_cam.Prelude.{
  ℕ, ◌-◌, ◌^◌, ◌≡◌, refl, true, false, none, some, List, [], ◌∷◌, ◌++◌, get_or, replicate, arith,
}
use ras_pi_zero_cam.Camera.Resolution.{Resolution, StillResolution}
use ras_pi_zero_cam.Camera.Frame.{StreamType}
use ras_pi_zero_cam.Camera.FrameQueue.{full, size, camera_slots, still_slots}
use ras_pi_zero_cam.Camera.FrameQueue.Refine.{contents}
use ras_pi_zero_cam.Camera.Manager.{
  CameraManager, Completed, MappedBuffer, no_cell, find_mapped, drop_ptr, on_request_completed,
}
use ras_pi_zero_cam.Camera.Manager.Delivery.{
  Arrives, one_release_after_delivery, snapshot_shares_frame,
}
use ras_pi_zero_cam.Camera.Manager.Lifecycle
use ras_pi_zero_cam.Camera.Manager.Lifecycle.{Status, Buffer, Answers, open_camera, close}
use ras_pi_zero_cam.Camera.Manager.Cleanup.{IsClosed, drop_all, open_camera_outcome, close_releases}
use ras_pi_zero_cam.Camera.FrameQueue.{FrameQueue}
use ras_pi_zero_cam.Camera.FrameQueue.Queue
use ras_pi_zero_cam.Camera.FrameQueue.Queue.{Call, pushes, pops, pushed, popped}
use ras_pi_zero_cam.Camera.FrameQueue.Refine.{IsValid}
use ras_pi_zero_cam.Camera.FrameQueue.Runs.{run, run_refines}

-- Two slots, one handle stored, and the write counter about to wrap.
abbrev wrapping : FrameQueue ℕ
wrapping = record { slots = some 7 ∷ none ∷ []; write = 2 ^ 64 - 1; read = 2 ^ 64 - 2 }

wrapping-IsValid : IsValid 1 wrapping
wrapping-IsValid = omega arith

abbrev calls : List (Call ℕ)
calls = pushes (some 8) ∷ pushes (some 9) ∷ pops ∷ pops ∷ pops ∷ []

run_refines_example :
    run (2 ^ 1) wrapping calls
    ≡ pushed true ∷ pushed false ∷ popped (some 7) ∷ popped (some 8) ∷ popped none ∷ []
unfolding Queue.run
run_refines_example = run_refines 1 wrapping calls wrapping-IsValid

-- A manager that streams, with one mapped buffer and empty queues.
abbrev streaming : CameraManager
streaming = record {
  started = true;
  camera = true;
  allocator = true;
  capturing = true;
  connected = true;
  mapped = (4, record { address = 4096; size = 1382400 }) ∷ [];
  requests = 4 ∷ [];
  running = true;
  resolution = Resolution.medium;
  stride = 1280;
  snapshot_armed = false;
  still_res = StillResolution.full;
  queue = record { slots = replicate 8 none; write = 0; read = 0 };
  still_queue = record { slots = replicate 2 none; write = 0; read = 0 };
  cells = [];
  queued = 4 ∷ [];
}

abbrev armed : CameraManager
armed = record streaming { snapshot_armed = true }

-- Eight frames wait.
abbrev crowded : CameraManager
crowded = record streaming { queue = record { slots = replicate 8 (some 0); write = 8; read = 0 } }

abbrev completed : Completed
completed = record {
  request = 4;
  cancelled = false;
  buffer = 4;
  sequence = 1;
  timestamp = 33000000;
  fd = 9;
}

abbrev buffer : MappedBuffer
buffer = record { address = 4096; size = 1382400 }

streaming-Arrives : Arrives streaming completed buffer
unfolding find_mapped
streaming-Arrives = record { live = refl; streaming = refl; found = refl }

armed-Arrives : Arrives armed completed buffer
unfolding find_mapped
armed-Arrives = record { live = refl; streaming = refl; found = refl }

crowded-Arrives : Arrives crowded completed buffer
unfolding find_mapped
crowded-Arrives = record { live = refl; streaming = refl; found = refl }

crowded-full : full camera_slots crowded.queue ≡ true
unfolding full size
crowded-full = refl

video-room : full camera_slots streaming.queue ≡ false
unfolding full size
video-room = refl

still-room : full still_slots streaming.still_queue ≡ false
unfolding full size
still-room = refl

one_release_after_delivery_example :
    let m = on_request_completed streaming completed in
    (m.queued ≡ 4 ∷ [])
    × (contents 3 m.queue ≡ contents 3 streaming.queue ++ some 0 ∷ [])
    × ((drop_ptr m 0).queued ≡ 4 ∷ 4 ∷ [])
one_release_after_delivery_example =
    one_release_after_delivery streaming completed buffer streaming-Arrives refl (omega arith)
      video-room

snapshot_shares_frame_example :
    let m1 = on_request_completed armed completed in
    let m2 = drop_ptr m1 0 in
    (m1.snapshot_armed ≡ false)
    × (contents 3 m1.queue ≡ contents 3 armed.queue ++ some 0 ∷ [])
    × (contents 1 m1.still_queue ≡ contents 1 armed.still_queue ++ some 0 ∷ [])
    × ((get_or m1.cells 0 no_cell).frame.stream_type ≡ StreamType.still)
    × (m2.queued ≡ 4 ∷ [])
    × ((drop_ptr m2 0).queued ≡ 4 ∷ 4 ∷ [])
snapshot_shares_frame_example =
    snapshot_shares_frame armed completed buffer armed-Arrives refl (omega arith) (omega arith)
      video-room still-room

abbrev closed : CameraManager
closed = record streaming {
  started = false;
  camera = false;
  allocator = false;
  capturing = false;
  mapped = [];
  requests = [];
  running = false;
  queued = [];
}

abbrev made : Buffer
made = record {
  id = 4;
  planes = 921600 ∷ 460800 ∷ [];
  address = some 4096;
  created = true;
  added = true;
}

abbrev all_granted : Answers
all_granted = record {
  start_ok = true;
  has_camera = true;
  get_ok = true;
  acquire_ok = true;
  generate_ok = true;
  status = Status.valid;
  configure_ok = true;
  stride = 1280;
  allocate_ok = true;
  buffers = made ∷ [];
  camera_start_ok = true;
}

closed-IsClosed : IsClosed closed
closed-IsClosed = record {
  stopped = refl;
  released = refl;
  unmapped = refl;
  idle = refl;
  still = refl;
}

open_camera_outcome_example :
    let (m', opened) = open_camera closed Resolution.medium all_granted in
    (opened ≡ false → IsClosed m' × (m'.queued ≡ []))
    × (opened ≡ true
        → (m'.running ≡ true)
          × (m'.capturing ≡ true)
          × (m'.requests ≡ 4 ∷ [])
          × (m'.queued ≡ 4 ∷ []))
open_camera_outcome_example =
    open_camera_outcome closed Resolution.medium all_granted closed-IsClosed

close_releases_example :
    let m' = close streaming in
    IsClosed m'
    × (m'.requests ≡ [])
    × (m'.allocator ≡ false)
    × (m'.queued ≡ 4 ∷ [])
    × ((drop_all m' (0 ∷ 0 ∷ [])).queued ≡ 4 ∷ [])
close_releases_example = close_releases streaming (0 ∷ 0 ∷ []) refl

-- The second of two buffers gets no request.
abbrev half_made : Answers
half_made = record all_granted { buffers = made ∷ record made { id = 5; created = false } ∷ [] }

abbrev half_open : CameraManager
half_open = (open_camera closed Resolution.medium half_made).0
