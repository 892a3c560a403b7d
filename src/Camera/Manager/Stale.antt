-- ===== src/Camera/Manager/Stale.antt =====
-- The requests that a failed `open` of src/camera/camera_manager.cpp leaves in `requests_`.
use mathlib.Core.List.{append-nil, append_assoc}
use ras_pi_zero_cam.Prelude.{
  Option-cases, inl, inr, ◌≡◌, ◌≢◌, refl, ap, true, false, List, [], ◌∷◌, ◌++◌, none, arith,
}
use ras_pi_zero_cam.Camera.Resolution.{Resolution}
use ras_pi_zero_cam.Camera.Manager.{CameraManager, MappedBuffer}
use ras_pi_zero_cam.Camera.Manager.Lifecycle.{
  Buffer, Answers, insert_mapped, total_length, invalid, map_each, create_requests, open_buffers,
  open_camera,
}
use ras_pi_zero_cam.Camera.Manager.Cleanup.{ids}

-- Every buffer of the list maps; every one gets its request.
abbrev pub AllMap : List Buffer → Type 0
AllMap [] = Unit {0}
AllMap (b ∷ bs) = (b.address ≢ none) × AllMap bs

abbrev pub AllMade : List Buffer → Type 0
AllMade [] = Unit {0}
AllMade (b ∷ bs) = (b.created ≡ true) × (b.added ≡ true) × AllMade bs

-- libcamera grants all that `open` asks for before the requests.
pub record Grants (a : Answers) : Type 0 where
  pub starts : a.start_ok ≡ true
  pub found : a.has_camera ≡ true
  pub got : a.get_ok ≡ true
  pub acquired : a.acquire_ok ≡ true
  pub generated : a.generate_ok ≡ true
  pub accepted : a.status ≢ invalid
  pub configured : a.configure_ok ≡ true
  pub allocated : a.allocate_ok ≡ true
  pub maps : AllMap a.buffers

map_each_done :
    (m : CameraManager) (bs : List Buffer)
    → AllMap bs
    → ((map_each m bs).1 ≡ true) × ((map_each m bs).0.requests ≡ m.requests)
unfolding map_each
map_each_done m [] h = (refl, refl)
map_each_done m (b ∷ bs) h = elim (Option-cases b.address) [
  | inl e ↦ absurd (h.0 e)
  | inr (p, e) ↦
      let mb : MappedBuffer = record { address = p; size = total_length b.planes } in
      let m' = record m { mapped = insert_mapped b.id mb m.mapped } in
      rw (e, map_each) (map_each_done m' bs h.1)
]

create_requests_stops :
    (m : CameraManager) (good : List Buffer) (bad : Buffer) (rest : List Buffer)
    → AllMade good
    → bad.created ≡ false
    → let out = create_requests m (good ++ bad ∷ rest) in
      (out.1 ≡ false) × (out.0.requests ≡ m.requests ++ ids good)
unfolding create_requests
create_requests_stops m [] bad rest h e = ground (arith, append-nil m.requests)
create_requests_stops m (b ∷ good) bad rest h e = ground (
  arith,
  create_requests_stops (record m { requests = m.requests ++ b.id ∷ [] }) good bad rest h.2 e,
  append_assoc m.requests (b.id ∷ []) (ids good),
)

abbrev ready : CameraManager → Resolution → Answers → CameraManager
ready m res a = record m { started = true; camera = true; resolution = res; stride = a.stride }

open_camera_granted :
    (m : CameraManager) (res : Resolution) (a : Answers)
    → Grants a
    → open_camera m res a ≡ open_buffers (ready m res a) a
unfolding open_camera
open_camera_granted m res a g = ground arith

open_buffers_stops :
    (m : CameraManager) (a : Answers) (good : List Buffer) (bad : Buffer) (rest : List Buffer)
    → Grants a
    → a.buffers ≡ good ++ bad ∷ rest
    → AllMade good
    → bad.created ≡ false
    → ((open_buffers m a).1 ≡ false) × ((open_buffers m a).0.requests ≡ m.requests ++ ids good)
unfolding open_buffers
open_buffers_stops m a good bad rest g split made fails =
    let m1 = record m { allocator = true } in
    let m2 = (map_each m1 a.buffers).0 in
    ground (
      arith,
      g.allocated,
      map_each_done m1 a.buffers g.maps,
      create_requests_stops m2 good bad rest made fails,
      ap (create_requests m2) split,
    )

-- When `createRequest` fails after the buffers `good` got theirs, `open` fails and those requests
-- stay in `requests_`, for the next `open` to queue beside its own.
pub stale_requests :
    (m : CameraManager) (res : Resolution) (a : Answers) (good : List Buffer) (bad : Buffer)
    (rest : List Buffer)
    → Grants a
    → a.buffers ≡ good ++ bad ∷ rest
    → AllMade good
    → bad.created ≡ false
    → let (m', opened) = open_camera m res a in
      (opened ≡ false) × (m'.requests ≡ m.requests ++ ids good)
stale_requests m res a good bad rest g split made fails =
    rw (open_camera_granted m res a g)
      (open_buffers_stops (ready m res a) a good bad rest g split made fails)
