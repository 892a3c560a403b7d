-- ===== src/Camera/Manager/Delivery.antt =====
-- What `on_request_completed` of src/camera/camera_manager.cpp does with a buffer: who holds the
-- frame, and how often its request goes back to the camera.
use ras_pi_zero_cam.Prelude.{
  ℕ, ◌^◌, ◌≡◌, true, false, some, [], ◌∷◌, ◌++◌, length, get_or, get_or-append_last,
  set-append_last, arith,
}
use mathlib.Core.List.{append_assoc}
use ras_pi_zero_cam.Camera.Frame.{StreamType}
use ras_pi_zero_cam.Camera.FrameQueue.{FrameQueue, push, full, size, camera_slots, still_slots}
use ras_pi_zero_cam.Camera.FrameQueue.Refine.{IsValid, contents, push_refines, size-length}
use ras_pi_zero_cam.Camera.Manager.{
  CameraManager, Cell, no_cell, Completed, MappedBuffer, find_mapped, completed_frame, tag_still,
  drop_ptr, on_request_completed,
}

-- The request's buffer is mapped, and the camera has not cancelled it.
pub record Arrives (m : CameraManager) (r : Completed) (mb : MappedBuffer) : Type 0 where
  pub live : r.cancelled ≡ false
  pub streaming : m.running ≡ true
  pub found : find_mapped r.buffer m.mapped ≡ some mb

-- The outcomes of `push`, by whether the ring is full.
push-full : (n : ℕ) (q : FrameQueue ℕ) (h : ℕ) → full n q ≡ true → push n q (some h) ≡ (q, false)
unfolding push full size
push-full n q h f = ground arith

-- With room, the handle goes to the end of the queue.
push_room :
    (k : ℕ) (q : FrameQueue ℕ) (h : ℕ)
    → IsValid k q
    → full (2 ^ k) q ≡ false
    → (contents k (push (2 ^ k) q (some h)).0 ≡ contents k q ++ some h ∷ [])
      × ((push (2 ^ k) q (some h)).1 ≡ true)
unfolding full
push_room k q h v f = ground (arith, push_refines k q v (some h), size-length k q v)

module _ (m : CameraManager) (r : Completed) (mb : MappedBuffer) (a : Arrives m r mb) where
  -- When the video queue is full and no snapshot is armed, the request is handed to the camera
  -- twice: by the destructor of the dropped frame, and by the branch that handles the full queue.
  pub full_queue_requeues_twice :
      m.snapshot_armed ≡ false
      → full camera_slots m.queue ≡ true
      → (on_request_completed m r).queued ≡ m.queued ++ r.request ∷ r.request ∷ []
  unfolding on_request_completed
  full_queue_requeues_twice idle f = ground (
    arith,
    push-full camera_slots m.queue (length m.cells) f,
    get_or-append_last m.cells (record { frame = completed_frame m r mb; refs = 1 }) no_cell,
    append_assoc m.queued (r.request ∷ []) (r.request ∷ []),
  )

  -- With room in the video queue and no snapshot armed, the callback hands nothing to the camera:
  -- the frame waits at the end of the queue, and the drop of its one pointer requeues the request.
  pub one_release_after_delivery :
      m.snapshot_armed ≡ false
      → IsValid 3 m.queue
      → full camera_slots m.queue ≡ false
      → let m' = on_request_completed m r in
        (m'.queued ≡ m.queued)
        × (contents 3 m'.queue ≡ contents 3 m.queue ++ some (length m.cells) ∷ [])
        × ((drop_ptr m' (length m.cells)).queued ≡ m.queued ++ r.request ∷ [])
  unfolding on_request_completed
  one_release_after_delivery idle v f = ground (
    arith,
    push_room 3 m.queue (length m.cells) v f,
    get_or-append_last m.cells (record { frame = completed_frame m r mb; refs = 1 }) no_cell,
  )

  -- An armed snapshot with room in both queues shares one frame between them: the snapshot is
  -- disarmed, the frame reads as a still for both consumers, the camera gets nothing while one
  -- pointer is left, and the request comes back exactly once when both are dropped.
  pub snapshot_shares_frame :
      m.snapshot_armed ≡ true
      → IsValid 3 m.queue
      → IsValid 1 m.still_queue
      → full camera_slots m.queue ≡ false
      → full still_slots m.still_queue ≡ false
      → let h = length m.cells in
        let m1 = on_request_completed m r in
        let m2 = drop_ptr m1 h in
        (m1.snapshot_armed ≡ false)
        × (contents 3 m1.queue ≡ contents 3 m.queue ++ some h ∷ [])
        × (contents 1 m1.still_queue ≡ contents 1 m.still_queue ++ some h ∷ [])
        × ((get_or m1.cells h no_cell).frame.stream_type ≡ StreamType.still)
        × (m2.queued ≡ m.queued)
        × ((drop_ptr m2 h).queued ≡ m.queued ++ r.request ∷ [])
  unfolding on_request_completed
  snapshot_shares_frame armed v w f g =
      let c : Cell = record { frame = completed_frame m r mb; refs = 1 } in
      let c2 : Cell = record c { refs = 2 } in
      let c3 : Cell = tag_still c2 in
      let c4 : Cell = record c3 { refs = 1 } in
      ground (
        arith,
        push_room 3 m.queue (length m.cells) v f,
        push_room 1 m.still_queue (length m.cells) w g,
        get_or-append_last m.cells c no_cell,
        set-append_last m.cells c c2,
        get_or-append_last m.cells c2 no_cell,
        set-append_last m.cells c2 c3,
        get_or-append_last m.cells c3 no_cell,
        set-append_last m.cells c3 c4,
        get_or-append_last m.cells c4 no_cell,
      )
