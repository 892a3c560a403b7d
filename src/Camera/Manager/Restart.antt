-- ===== src/Camera/Manager/Restart.antt =====
-- `set_resolution` and the destructor of src/camera/camera_manager.cpp, and the functions of the
-- still stream that it does not have yet.
use mathlib.Core.Path.{ap₂}
use ras_pi_zero_cam.Prelude.{ℕ, ◌≡◌, ap, ◌∙◌, Bool, true, false, [], ◌++◌, if◌then◌else◌, arith}
use ras_pi_zero_cam.Camera.Resolution.{Resolution, StillResolution}
use ras_pi_zero_cam.Camera.Manager.{CameraManager}
use ras_pi_zero_cam.Camera.Manager.Lifecycle.{Answers, open_camera, close, set_resolution}
use ras_pi_zero_cam.Camera.Manager.Cleanup.{IsClosed, ids, open_camera_outcome, close_releases}

unfoldable pub destroy : CameraManager → CameraManager
unfolding close
destroy m = if m.running then close m else m

unfoldable pub configure_still_stream : CameraManager → StillResolution → CameraManager × Bool
configure_still_stream m res = (m, false)

unfoldable pub allocate_and_map_still_buffers : CameraManager → CameraManager × Bool
allocate_and_map_still_buffers m = (m, false)

unfoldable pub create_still_request : CameraManager → CameraManager × Bool
create_still_request m = (m, false)

unfoldable pub handle_still_completed : CameraManager → ℕ → CameraManager
handle_still_completed m request = m

destroyed_idle : (m : CameraManager) → (destroy m).running ≡ false
unfolding destroy
destroyed_idle m = ground arith

-- `set_resolution` on a running manager: when the new resolution does not come up, everything but the
-- allocator and the requests is given back and nothing was queued; when it does, the manager runs with one request for each new buffer,
-- which are all that was queued; and in both cases the destructor leaves it not running.
pub restart_outcome :
    (m : CameraManager) (res : Resolution) (a : Answers)
    → m.running ≡ true
    → let (m', ok) = set_resolution m res a in
      (ok ≡ false → IsClosed m' × (m'.queued ≡ m.queued))
      × (ok ≡ true
          → (m'.running ≡ true)
            × (m'.capturing ≡ a.camera_start_ok)
            × (m'.requests ≡ ids a.buffers)
            × (m'.queued ≡ m.queued ++ ids a.buffers))
      × ((destroy m').running ≡ false)
unfolding set_resolution
restart_outcome m res a run =
    let closed = close_releases m [] run in
    let opened = open_camera_outcome (close m) res a closed.0 in
    (
      (λ no. let out = opened.0 no in (out.0, out.1 ∙ closed.3)),
      (λ yes.
          let out = opened.1 yes in
          (
            out.0,
            out.1,
            out.2 ∙ ap (λ rs. rs ++ ids a.buffers) closed.1,
            out.3 ∙ ap₂ (λ qs rs. qs ++ (rs ++ ids a.buffers)) closed.3 closed.1,
          )),
      destroyed_idle (open_camera (close m) res a).0,
    )
