-- ===== src/Record/H264/Draining.antt =====
-- The end of the poll thread of src/record/h264_hw_encoder.cpp, for which the destructor waits.
use ras_pi_zero_cam.Prelude.{
  ℕ, suc, ◌≡◌, ◌≢◌, ◌<◌, refl, ap, true, false, Option, none, some, List, [], ◌∷◌, length, get_or,
  arith,
}
use ras_pi_zero_cam.Prelude.Counts.{count, count_some, count_slots}
use ras_pi_zero_cam.Codec.Pool.{some_one}
use ras_pi_zero_cam.Record.H264.{
  Encoder, Polled, num_output_buffers, drained, after_poll, poll_pass,
}
use ras_pi_zero_cam.Record.H264.Steps.{Reach}
use ras_pi_zero_cam.Record.H264.Slots.{IsPooled, Reach-IsPooled}
use ras_pi_zero_cam.Record.H264.Frames.{Reach-Balanced}

-- Slots of which none keeps a frame count no frame.
count_slots-empty :
    (f : ℕ) (os : List (Option ℕ))
    → ((i : ℕ) → some_one (get_or os i none) ≡ 0)
    → count_slots f os ≡ 0
count_slots-empty f [] h = refl
count_slots-empty f (none ∷ os) h = omega (arith, count_slots-empty f os (λ i. h (suc i)))
count_slots-empty f (some x ∷ os) h = absurd (omega (arith, h 0))

length-zero : (xs : List ℕ) (i : ℕ) → length xs ≡ 0 → count i xs ≡ 0
length-zero [] i h = refl
length-zero (x ∷ xs) i h = absurd (omega (arith, h))

some_one-zero : (o : Option ℕ) (i : ℕ) → some_one o ≡ 0 → count_some i o ≡ 0
some_one-zero none i h = refl
some_one-zero (some x) i h = absurd (omega (arith, h))

drained_whole : (e : Encoder) → drained e ≡ true → length e.pool.free ≡ num_output_buffers
drained_whole e h = ground arith

-- No slot keeps a frame when all of them are free.
nothing_kept :
    (n : ℕ) (e : Encoder)
    → IsPooled n e
    → length e.pool.free ≡ n
    → (i : ℕ) → some_one (get_or e.pending_frames i none) ≡ 0
nothing_kept n e v all i = omega (
  arith,
  v.kept i,
  v.slots i,
  v.whole,
  length-zero e.pool.driver i (omega (arith, v.whole, all)),
  some_one-zero e.pool.filling i (omega (arith, v.whole, all)),
)

-- When the driver grants six input slots and the poll thread leaves its loop because the encoder is
-- drained, then every frame that `encode` took was let go exactly as often as it was taken.
pub drained_releases_all :
    {m : ℕ} {e : Encoder}
    → Reach num_output_buffers m e
    → drained e ≡ true
    → (f : ℕ) → count f e.released ≡ count f e.accepted
drained_releases_all {m} {e} r h f = omega (
  arith,
  Reach-Balanced num_output_buffers (omega arith) r f,
  count_slots-empty f e.pending_frames (
      nothing_kept num_output_buffers e (Reach-IsPooled num_output_buffers (omega arith) r)
        (drained_whole e h)),
)

all_back :
    (e : Encoder) → e.abort_poll ≡ true → length e.pool.free ≡ num_output_buffers → drained e ≡ true
all_back e abort all = ground arith

-- When the driver grants six input slots and, after `abort_poll` is set, no `encode` is under way and
-- the driver has returned every slot, then the next pass of the poll thread leaves the loop, whatever
-- `poll` answers, and every frame that `encode` took was let go exactly as often as it was taken.
pub poll_thread_ends :
    {m : ℕ} {e : Encoder}
    → Reach num_output_buffers m e
    → e.abort_poll ≡ true
    → e.pool.filling ≡ none
    → e.pool.driver ≡ []
    → ((p : Polled) → (poll_pass e p).1 ≡ false)
      × ((f : ℕ) → count f e.released ≡ count f e.accepted)
unfolding poll_pass
poll_thread_ends {m} {e} r abort idle returned =
    let v = Reach-IsPooled num_output_buffers (omega arith) r in
    let ready : drained e ≡ true =
      all_back e abort (omega (arith, v.whole, ap some_one idle, ap length returned)) in
    ((λ p. rw ready refl), drained_releases_all r ready)

too_few : (e : Encoder) → length e.pool.free < num_output_buffers → drained e ≡ false
too_few e h = ground arith

goes_on : (e : Encoder) (p : Polled) → p ≢ Polled.failed → (after_poll e p).1 ≡ true
goes_on e Polled.interrupted h = refl
goes_on e Polled.failed h = absurd (h refl)
goes_on e Polled.idle h = refl
goes_on e (Polled.readable input capture) h = refl

-- When the driver grants fewer than the six input slots asked for, then in no state that the threads
-- reach is the encoder drained, so that a pass of the poll thread leaves the loop only when `poll`
-- fails: after `abort_poll` is set the thread that the destructor joins goes on.
pub short_grant_never_drains :
    (n : ℕ)
    → n < num_output_buffers
    → {m : ℕ} {e : Encoder} → Reach n m e
    → (p : Polled) → p ≢ Polled.failed
    → (poll_pass e p).1 ≡ true
unfolding poll_pass
short_grant_never_drains n few {m} {e} r p h =
    rw (too_few e (omega (arith, (Reach-IsPooled n (omega arith) r).whole))) (goes_on e p h)
