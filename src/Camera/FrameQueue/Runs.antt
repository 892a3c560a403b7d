-- ===== src/Camera/FrameQueue/Runs.antt =====
-- Sequences of calls on the ring of src/camera/frame_buffer.h.
use ras_pi_zero_cam.Prelude.{
  ℕ, ◌^◌, ◌<◌, ◌≡◌, refl, Option, none, List, [], ◌∷◌, length-replicate, arith,
}
use ras_pi_zero_cam.Camera.FrameQueue.{FrameQueue, empty_queue, push, pop}
use ras_pi_zero_cam.Camera.FrameQueue.Queue
use ras_pi_zero_cam.Camera.FrameQueue.Queue.{Call, pushes, pops, Reply, pushed, popped}
use ras_pi_zero_cam.Camera.FrameQueue.Refine.{
  IsValid, contents, push_refines, pop_refines, push-IsValid, pop-IsValid,
}

module _ {ℓ} {A : Type ℓ} where
  pub run : ℕ → FrameQueue A → List (Call A) → List (Reply A)
  run n q [] = []
  run n q (pushes x ∷ calls) = let (q', done) = push n q x in pushed done ∷ run n q' calls
  run n q (pops ∷ calls) = let (q', frame) = pop n q in popped frame ∷ run n q' calls

  -- No sequence of calls on a valid ring of `2 ^ k` slots tells it from the bounded first-in
  -- first-out queue of its contents, whatever the value of its counters.
  pub run_refines :
      (k : ℕ) (q : FrameQueue A) (calls : List (Call A))
      → IsValid k q
      → run (2 ^ k) q calls ≡ Queue.run (2 ^ k) (contents k q) calls
  unfolding run Queue.run
  run_refines k q [] v = refl
  run_refines k q (pushes x ∷ calls) v =
      rw (run_refines k (push (2 ^ k) q x).0 calls (push-IsValid k q v x), ← push_refines k q v x)
  run_refines k q (pops ∷ calls) v =
      rw (run_refines k (pop (2 ^ k) q).0 calls (pop-IsValid k q v), ← pop_refines k q v)

  -- A fresh ring is valid and empty.
  pub empty_queue-IsValid : (k : ℕ) → k < 64 → IsValid {A = A} k (empty_queue (2 ^ k))
  unfolding empty_queue
  empty_queue-IsValid k h = omega (arith, length-replicate {A = Option A} (2 ^ k) none)
