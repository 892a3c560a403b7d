-- ===== src/Camera/Manager/Cleanup.antt =====
-- What `open`, `close` and `set_resolution` of src/camera/camera_manager.cpp leave behind.
use ras_pi_zero_cam.Prelude.{
  ℕ, ◌-◌, ◌==◌, get_or, set, Bool, Option-cases, ◌≡◌, refl, ◌∙◌, true, false, List, [], ◌∷◌, ◌++◌,
  map, Option, none, some, arith, if◌then◌else◌, inl, inr,
}
use mathlib.Core.List.{append-nil, append_assoc}
use ras_pi_zero_cam.Camera.Resolution.{Resolution}
use ras_pi_zero_cam.Camera.Frame.{Release}
use ras_pi_zero_cam.Camera.Manager.{
  CameraManager, MappedBuffer, Cell, no_cell, drop_ptr, run_release,
}
use ras_pi_zero_cam.Camera.Manager.Lifecycle.{
  Buffer, Answers, insert_mapped, total_length, map_each, create_requests, open_buffers,
  open_camera, close,
}

abbrev pub ids : List Buffer → List ℕ
ids = map λ b. b.id

-- What the loops leave alone, and what they have done when they succeed.
pub record Mapped (m : CameraManager) (out : CameraManager × Bool) : Type 0 where
  pub failed : out.1 ≡ false → out.0.mapped ≡ []
  pub running_same : out.0.running ≡ m.running
  pub camera_same : out.0.camera ≡ m.camera
  pub capturing_same : out.0.capturing ≡ m.capturing
  pub requests_same : out.0.requests ≡ m.requests
  pub queued_same : out.0.queued ≡ m.queued

map_each-Mapped : (m : CameraManager) (bs : List Buffer) → Mapped m (map_each m bs)
unfolding map_each
map_each-Mapped m [] = ground arith
map_each-Mapped m (b ∷ bs) = elim (Option-cases b.address) [
  | inl e ↦ rw (e, map_each) (ground arith)
  | inr (p, e) ↦
      let mb : MappedBuffer = record { address = p; size = total_length b.planes } in
      let m' = record m { mapped = insert_mapped b.id mb m.mapped } in
      rw (e, map_each) (ground (arith, map_each-Mapped m' bs))
]

pub record Created (m : CameraManager) (bs : List Buffer) (out : CameraManager × Bool)
    : Type 0 where
  pub made : out.1 ≡ true → out.0.requests ≡ m.requests ++ ids bs
  pub running_same : out.0.running ≡ m.running
  pub camera_same : out.0.camera ≡ m.camera
  pub capturing_same : out.0.capturing ≡ m.capturing
  pub queued_same : out.0.queued ≡ m.queued

create_requests-Created :
    (m : CameraManager) (bs : List Buffer) → Created m bs (create_requests m bs)
unfolding create_requests
create_requests-Created m [] = ground (arith, append-nil m.requests)
create_requests-Created m (b ∷ bs) = ground (
  arith,
  create_requests-Created (record m { requests = m.requests ++ b.id ∷ [] }) bs,
  append_assoc m.requests (b.id ∷ []) (ids bs),
)

-- Nothing is open: libcamera is stopped, the camera is released and does not capture, no buffer is
-- mapped, and the manager does not run. The allocator object and the requests are not part of it.
pub record IsClosed (m : CameraManager) : Type 0 where
  pub stopped : m.started ≡ false
  pub released : m.camera ≡ false
  pub unmapped : m.mapped ≡ []
  pub idle : m.running ≡ false
  pub still : m.capturing ≡ false

-- The last steps of `open`, from a manager that holds the camera.
record Opened (m : CameraManager) (a : Answers) (out : CameraManager × Bool) : Type 0 where
  failed : out.1 ≡ false → IsClosed out.0
  failed_queue : out.1 ≡ false → out.0.queued ≡ m.queued
  streams : out.1 ≡ true → (out.0.running ≡ true) × (out.0.capturing ≡ a.camera_start_ok)
  requested : out.1 ≡ true → out.0.requests ≡ m.requests ++ ids a.buffers
  handed_over : out.1 ≡ true → out.0.queued ≡ m.queued ++ (m.requests ++ ids a.buffers)

open_buffers-Opened :
    (m : CameraManager) (a : Answers)
    → m.running ≡ false
    → m.capturing ≡ false
    → m.mapped ≡ []
    → Opened m a (open_buffers m a)
unfolding open_buffers
open_buffers-Opened m a idle still unmapped =
    let m1 = record m { allocator = true } in
    ground (
      arith,
      map_each-Mapped m1 a.buffers,
      create_requests-Created (map_each m1 a.buffers).0 a.buffers,
      create_requests-Created m1 a.buffers,
    )

-- `open` on a closed manager: when it fails, libcamera is stopped, the camera released and not
-- capturing, no buffer mapped and no request queued (the allocator and the requests that were made
-- may stay); when it succeeds the manager runs, the camera captures exactly if its own start
-- succeeded, which `open` does not test, and the old requests and then one new request for each
-- buffer were queued.
pub open_camera_outcome :
    (m : CameraManager) (res : Resolution) (a : Answers)
    → IsClosed m
    → let (m', opened) = open_camera m res a in
      (opened ≡ false → IsClosed m' × (m'.queued ≡ m.queued))
      × (opened ≡ true
          → (m'.running ≡ true)
            × (m'.capturing ≡ a.camera_start_ok)
            × (m'.requests ≡ m.requests ++ ids a.buffers)
            × (m'.queued ≡ m.queued ++ (m.requests ++ ids a.buffers)))
unfolding open_camera
open_camera_outcome m res a c =
    let ready = record m { started = true; camera = true; resolution = res; stride = a.stride } in
    ground (arith, open_buffers-Opened ready a c.idle c.still c.unmapped)

-- While the manager does not run a dropped frame hands nothing to the camera.
drop_ptr_idle :
    (m : CameraManager) (h : ℕ)
    → m.running ≡ false
    → ((drop_ptr m h).queued ≡ m.queued) × ((drop_ptr m h).running ≡ false)
unfolding drop_ptr
drop_ptr_idle m h idle = released (get_or m.cells h no_cell)
  where
    left : Cell → CameraManager
    left c = record m { cells = set m.cells h (record c { refs = c.refs - 1 }) }

    ran :
        (m' : CameraManager) (r : Option Release)
        → m'.running ≡ false
        → ((run_release m' r).queued ≡ m'.queued) × ((run_release m' r).running ≡ false)
    ran m' none e = (refl, e)
    ran m' (some (Release.requeue n)) e = ground arith
    ran m' (some (Release.unmap n)) e = (refl, e)

    released :
        (c : Cell)
        → let m' = if c.refs == 1 then run_release (left c) c.frame.release else left c in
          (m'.queued ≡ m.queued) × (m'.running ≡ false)
    released c = ground (arith, ran (left c) c.frame.release idle)

-- The destruction of pointers to frames, one after another.
abbrev pub drop_all : CameraManager → List ℕ → CameraManager
drop_all m [] = m
drop_all m (h ∷ hs) = drop_all (drop_ptr m h) hs

drop_all_idle :
    (m : CameraManager) (hs : List ℕ) → m.running ≡ false → (drop_all m hs).queued ≡ m.queued
drop_all_idle m [] idle = refl
drop_all_idle m (h ∷ hs) idle =
    let first = drop_ptr_idle m h idle in drop_all_idle (drop_ptr m h) hs first.1 ∙ first.0

-- Closing a running manager stops the camera and libcamera, and gives the camera, the mappings, the
-- requests and the allocator back; and whatever frames the consumers drop between that and the next
-- `open`, they hand no request to the camera.
pub close_releases :
    (m : CameraManager) (hs : List ℕ)
    → m.running ≡ true
    → let m' = close m in
      IsClosed m'
      × (m'.requests ≡ [])
      × (m'.allocator ≡ false)
      × (m'.queued ≡ m.queued)
      × ((drop_all m' hs).queued ≡ m.queued)
unfolding close
close_releases m hs run = ground (arith, drop_all_idle (close m) hs)
