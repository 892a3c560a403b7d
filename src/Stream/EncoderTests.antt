-- ===== src/Stream/EncoderTests.antt =====
-- The JPEG hardware encoder and the shutdown of the threaded encoder at concrete inputs.
use ras_pi_zero_cam.Prelude.{
  ℕ, zero, suc, ◌-◌, ◌≡◌, ◌≢◌, ◌<◌, ◌≤◌, refl, true, false, List, [], ◌∷◌, length, get_or,
  replicate, arith,
}
use ras_pi_zero_cam.Prelude.Counts.{is_in}
use ras_pi_zero_cam.Codec.Pool.{take_slot, settle}
use ras_pi_zero_cam.Stream.JpegMt
use ras_pi_zero_cam.Stream.JpegMt.{Encoder, Event, arrives, takes, finishes, delivers, fresh}
use ras_pi_zero_cam.Stream.JpegMt.Order.{outputs}
use ras_pi_zero_cam.Stream.JpegMt.Progress.{Quiet}
use ras_pi_zero_cam.Stream.JpegMt.Shutdown.{
  Closing, opened, idle_at, end_lane, lane_ends, out_ends, arrives_before, encodes, pushes,
  outputs_next, signals_enc, ends, signals_out, ends_out, Reach, start, later,
}
use ras_pi_zero_cam.Stream.JpegMt.Ends.{shutdown_delivers_all, output_thread_ends}
use ras_pi_zero_cam.Stream.Nv12.Bounds.{Fits}
use ras_pi_zero_cam.Stream.JpegHw
use ras_pi_zero_cam.Stream.JpegHw.{JpegHw, encode}
use ras_pi_zero_cam.Stream.JpegHw.Slots
use ras_pi_zero_cam.Stream.JpegHw.Encoding.{
  IsYu12, answered, driver_memory_kept, encode_hands_image,
}

-- Two rows of two pixels with a stride of 3, and three memories with room for six bytes.
abbrev pixels : List ℕ
pixels = 1 ∷ 2 ∷ 0 ∷ 3 ∷ 4 ∷ 0 ∷ 5 ∷ 6 ∷ 0 ∷ []

abbrev memories : List (List ℕ)
memories = replicate 3 (replicate 6 9)

memories-Roomy : Slots.Roomy 2 2 3 memories
memories-Roomy = (omega arith, room)
  where
    room : (i : ℕ) → i < 3 → 6 ≤ length (get_or memories i [])
    room zero lt = omega arith
    room (suc zero) lt = omega arith
    room (suc (suc zero)) lt = omega arith
    room (suc (suc (suc i))) lt = absurd (omega arith)

-- The first frame is with the driver in slot 0.
abbrev held : JpegHw
held = (JpegHw.claim (Slots.started 2 2 3 3 3 memories)).0

abbrev small : JpegHw
small = (JpegHw.submit (JpegHw.copy_in held pixels) true).0

small-Reach : Slots.Reach 3 small
small-Reach =
    Slots.Reach.later
      (Slots.Reach.later
        (Slots.Reach.later (Slots.Reach.start 2 2 3 3 memories memories-Roomy)
          (Slots.claims (Slots.started 2 2 3 3 3 memories) refl))
        (Slots.copies held pixels))
      (Slots.submits (JpegHw.copy_in held pixels) true)

small_slots : (small.pool.free ≡ 1 ∷ 2 ∷ []) × (is_in 0 small.pool.driver ≡ true)
unfolding JpegHw.claim take_slot JpegHw.copy_in JpegHw.submit settle
small_slots = (refl, refl)

small-Fits : Fits small.width small.height small.stride
unfolding JpegHw.submit JpegHw.copy_in JpegHw.claim take_slot
small-Fits = record { width = omega arith; image = omega arith; source = omega arith }

encode_hands_image_example :
    ((encode small pixels true).1 ≡ true)
    × IsYu12 small.width small.height small.stride pixels
        (get_or (encode small pixels true).0.output_bufs 1 [])
    × ((i : ℕ)
        → i ≢ 1
        → get_or (encode small pixels true).0.output_bufs i [] ≡ get_or small.output_bufs i [])
    × ((encode small pixels true).0.pool ≡ answered small.pool 1 (2 ∷ []) true)
encode_hands_image_example =
    encode_hands_image {n = 3} {e = small} pixels true 1 (2 ∷ []) small-Fits small-Reach
      small_slots.0

driver_memory_kept_example :
    get_or (JpegHw.copy_in small pixels).output_bufs 0 [] ≡ get_or small.output_bufs 0 []
driver_memory_kept_example =
    driver_memory_kept {n = 3} {e = small} {f = JpegHw.copy_in small pixels}
      (Slots.copies small pixels) small-Reach 0 small_slots.1

-- A frame compresses to one byte, and frame 0 to none.
abbrev compress : ℕ → List ℕ
compress zero = []
compress (suc n) = suc n ∷ []

abbrev c0 : Closing
c0 = opened

abbrev c1 : Closing
c1 = record c0 { encoder = JpegMt.step compress c0.encoder (arrives 5) }

abbrev c2 : Closing
c2 = record c1 { encoder = JpegMt.step compress c1.encoder (takes 0) }

abbrev c3 : Closing
c3 = record c2 { encoder = JpegMt.step compress c2.encoder (finishes 0) }

abbrev c4 : Closing
c4 = record c3 { abort_enc = true }

abbrev c5 : Closing
c5 = record c4 { encoder = JpegMt.step compress c4.encoder delivers }

abbrev c6 : Closing
c6 = end_lane c5 0

abbrev c7 : Closing
c7 = end_lane c6 1

abbrev c8 : Closing
c8 = end_lane c7 2

abbrev c9 : Closing
c9 = end_lane c8 3

abbrev c10 : Closing
c10 = record c9 { abort_out = true }

abbrev closed : Closing
closed = record c10 { out_ended = true }

joined : (i : ℕ) → i < 4 → c9.ended i ≡ true
joined i lt = ground arith

closed-Reach : Reach compress closed
unfolding JpegMt.step JpegMt.encode JpegMt.take_from JpegMt.start_lane JpegMt.finish_lane
    JpegMt.deliver JpegMt.pop_expected lane_ends out_ends
closed-Reach =
    let r4 : Reach compress c4 =
      later (later (later (later start (arrives_before c0 5 refl)) (encodes c1 0)) (pushes c2 0))
        (signals_enc c3) in
    let r9 : Reach compress c9 =
      later
        (later
          (later (later (later r4 (outputs_next c4 refl)) (ends c5 0 refl refl))
            (ends c6 1 refl refl))
          (ends c7 2 refl refl))
        (ends c8 3 refl refl) in
    later (later r9 (signals_out c9 joined)) (ends_out c10 refl)

shutdown_delivers_all_example :
    (closed.encoder.sent ≡ outputs compress [] closed.encoder.accepted)
    × (closed.encoder.enc_queue ≡ [])
    × ((i : ℕ) → idle_at i closed.encoder.lanes ≡ true)
shutdown_delivers_all_example = shutdown_delivers_all compress {c = closed} closed-Reach refl

abbrev one_frame : List Event
one_frame = arrives 5 ∷ takes 0 ∷ finishes 0 ∷ []

one_frame-Quiet : Quiet (JpegMt.run compress fresh one_frame)
unfolding JpegMt.run JpegMt.step JpegMt.encode JpegMt.take_from JpegMt.start_lane JpegMt.finish_lane
one_frame-Quiet = record { empty = refl; idle = tt }

output_thread_ends_example :
    let e = JpegMt.run compress fresh one_frame in
    out_ends (record {
      encoder = JpegMt.run compress e (replicate (length e.accepted - e.expected) delivers);
      abort_enc = true;
      abort_out = true;
      ended = λ i. true;
      out_ended = false;
    })
    ≡ true
output_thread_ends_example = output_thread_ends compress one_frame (λ i. true) one_frame-Quiet
