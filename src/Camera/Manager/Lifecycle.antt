-- ===== src/Camera/Manager/Lifecycle.antt =====
-- `open`, `close`, `set_resolution` of src/camera/camera_manager.cpp and the steps that they call.
-- What libcamera and `mmap` answer is the argument `Answers`: the code only tests it.
use ras_pi_zero_cam.Prelude.{
  ℕ, ◌+◌, Bool, true, false, Option, none, some, List, [], ◌∷◌, ◌++◌, ◌==◌, not, if◌then◌else◌,
}
use ras_pi_zero_cam.Camera.Resolution.{Resolution}
use ras_pi_zero_cam.Camera.Manager.{CameraManager, MappedBuffer}

-- The result of `CameraConfiguration::validate`.
pub data Status : Type 0 where
  valid adjusted invalid : Status

-- A buffer of the allocator: its plane lengths, the result of `mmap` (`none` for MAP_FAILED), and
-- whether `createRequest` and `addBuffer` succeed for it.
pub record Buffer : Type 0 where
  pub id : ℕ
  pub planes : List ℕ
  pub address : Option ℕ
  pub created : Bool
  pub added : Bool

pub record Answers : Type 0 where
  pub start_ok : Bool
  pub has_camera : Bool
  pub get_ok : Bool
  pub acquire_ok : Bool
  pub generate_ok : Bool
  pub status : Status
  pub configure_ok : Bool
  pub stride : ℕ
  pub allocate_ok : Bool
  pub buffers : List Buffer
  pub camera_start_ok : Bool

unfoldable pub init_camera_manager : CameraManager → Answers → CameraManager × Bool
init_camera_manager m a =
    if a.start_ok
    then (record m { started = true }, true)
    else (record m { started = false }, false)

unfoldable pub acquire_camera : CameraManager → Answers → CameraManager × Bool
acquire_camera m a =
    if not a.has_camera
    then (m, false)
    else if not a.get_ok
    then (record m { camera = false }, false)
    else if not a.acquire_ok
    then (record m { camera = false }, false)
    else (record m { camera = true }, true)

abbrev is_invalid : Status → Bool
is_invalid invalid = true
is_invalid _ = false

unfoldable pub configure_stream : CameraManager → Answers → CameraManager × Bool
configure_stream m a =
    if not a.generate_ok
    then (m, false)
    else if is_invalid a.status
    then (m, false)
    else if not a.configure_ok
    then (m, false)
    else (record m { stride = a.stride }, true)

unfoldable pub unmap_buffers : CameraManager → CameraManager
unmap_buffers m = record m { mapped = [] }

unfoldable pub release_camera : CameraManager → CameraManager
release_camera m = if m.camera then record m { camera = false } else m

-- `cam_manager_->stop()`.
unfoldable pub stop_manager : CameraManager → CameraManager
stop_manager m = record m { started = false }

abbrev pub total_length : List ℕ → ℕ
total_length [] = 0
total_length (n ∷ ns) = n + total_length ns

-- `mapped_[b] = mb`.
unfoldable pub insert_mapped : ℕ → MappedBuffer → List (ℕ × MappedBuffer) → List (ℕ × MappedBuffer)
insert_mapped b mb [] = (b, mb) ∷ []
insert_mapped b mb ((c, old) ∷ rest) =
    if c == b then (b, mb) ∷ rest else (c, old) ∷ insert_mapped b mb rest

-- The loop of `allocate_and_map_buffers`.
unfoldable pub map_each : CameraManager → List Buffer → CameraManager × Bool
unfolding insert_mapped unmap_buffers
map_each m [] = (m, true)
map_each m (b ∷ bs) = elim b.address [
  | none ↦ (unmap_buffers m, false)
  | some p ↦
      map_each
        (record m {
          mapped =
              insert_mapped b.id (record { address = p; size = total_length b.planes }) m.mapped;
        })
        bs
]

unfoldable pub allocate_and_map_buffers : CameraManager → Answers → CameraManager × Bool
unfolding map_each
allocate_and_map_buffers m a =
    let m1 = record m { allocator = true } in
    if not a.allocate_ok then (m1, false) else map_each m1 a.buffers

-- `create_requests`; a request is named by the buffer that it wraps.
unfoldable pub create_requests : CameraManager → List Buffer → CameraManager × Bool
create_requests m [] = (m, true)
create_requests m (b ∷ bs) =
    let rest = create_requests (record m { requests = m.requests ++ b.id ∷ [] }) bs in
    if not b.created then (m, false) else if not b.added then (m, false) else rest

-- `started` is whether `camera_->start()` succeeds, which the code does not test. `queued` gets the
-- calls of `queueRequest`, whatever they answer.
unfoldable pub start_streaming : CameraManager → Bool → CameraManager
start_streaming m started = record m { capturing = started; queued = m.queued ++ m.requests }

-- `camera_->stop()`.
unfoldable pub stop_streaming : CameraManager → CameraManager
stop_streaming m = record m { capturing = false }

-- The last three steps of `open`, with what the code undoes when one fails.
unfoldable pub open_buffers : CameraManager → Answers → CameraManager × Bool
unfolding allocate_and_map_buffers create_requests start_streaming unmap_buffers release_camera
    stop_manager
open_buffers m a =
    let (m1, mapped_ok) = allocate_and_map_buffers m a in
    let (m2, created_ok) = create_requests m1 a.buffers in
    if not mapped_ok
    then (stop_manager (release_camera m1), false)
    else if not created_ok
    then (stop_manager (release_camera (unmap_buffers m2)), false)
    else (
      record (start_streaming (record m2 { connected = true }) a.camera_start_ok) {
        running = true;
      },
      true,
    )

unfoldable pub open_camera : CameraManager → Resolution → Answers → CameraManager × Bool
unfolding init_camera_manager acquire_camera configure_stream release_camera stop_manager
open_camera m res a =
    let (m1, init_ok) = init_camera_manager (record m { resolution = res }) a in
    let (m2, acquired) = acquire_camera m1 a in
    let (m3, configured) = configure_stream m2 a in
    if not init_ok
    then (m1, false)
    else if not acquired
    then (stop_manager m2, false)
    else if not configured
    then (stop_manager (release_camera m3), false)
    else open_buffers m3 a

unfoldable pub close : CameraManager → CameraManager
unfolding stop_streaming unmap_buffers release_camera stop_manager
close m =
    if not m.running
    then m
    else let m0 = stop_streaming (record m { running = false }) in
      let m1 = record m0 { connected = false; requests = [] } in
      stop_manager (release_camera (record (unmap_buffers m1) { allocator = false }))

unfoldable pub set_resolution : CameraManager → Resolution → Answers → CameraManager × Bool
unfolding close open_camera
set_resolution m res a = open_camera (close m) res a
