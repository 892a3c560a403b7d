-- ===== src/Stream/JpegMt/Ends.antt =====
-- The end of the output thread of src/stream/jpeg_mt_encoder.cpp.
use ras_pi_zero_cam.Prelude.{
  ℕ, zero, suc, ◌-◌, ◌≡◌, refl, sym, ap, ◌∙◌, Bool, true, false, none, some, List, [], ◌∷◌, length,
  replicate, arith,
}
use ras_pi_zero_cam.Stream.JpegMt.{
  Lane, lane, Encoder, Event, arrives, takes, finishes, delivers, fresh, run,
}
use ras_pi_zero_cam.Stream.JpegMt.Order.{outputs}
use ras_pi_zero_cam.Stream.JpegMt.Delivery.{InOrder, fresh-InOrder, step-InOrder, run_from-InOrder}
use ras_pi_zero_cam.Stream.JpegMt.Counts.{count_queue, count_lanes, hit}
use ras_pi_zero_cam.Stream.JpegMt.Progress.{
  IsComplete, fresh-IsComplete, step-IsComplete, run-IsComplete, Quiet, drain, take_all,
}
use ras_pi_zero_cam.Stream.JpegMt.Shutdown.{
  Closing, opened, all_empty, out_ends, idle_at, Step, arrives_before, encodes, pushes,
  outputs_next, signals_enc, ends, signals_out, ends_out, Reach, start, later,
}
use ras_pi_zero_cam.Stream.JpegMt.Closing.{Ended, IsClosing, finished_quiet, Step-IsClosing}

-- Idle lanes with empty queues hold no frame.
empty_lanes :
    (n : ℕ) (ls : List Lane)
    → ((i : ℕ) → idle_at i ls ≡ true)
    → all_empty ls ≡ true
    → count_lanes n ls ≡ 0
empty_lanes n [] h e = refl
empty_lanes n (lane none [] ∷ ls) h e = omega (arith, empty_lanes n ls (λ i. h (suc i)) e)
empty_lanes n (lane (some x) [] ∷ ls) h e = absurd (differ (h zero))
  where
    differ : ¬ (false ≡ true)
    differ q = cc
empty_lanes n (lane busy (x ∷ out) ∷ ls) h e = absurd (differ e)
  where
    differ : ¬ (false ≡ true)
    differ q = cc

module _ (compress : ℕ → List ℕ) where
  record IsSound (c : Closing) : Type 0 where
    order : InOrder compress c.encoder
    complete : IsComplete c.encoder
    closing : IsClosing c

  Step-IsSound : {c d : Closing} → Step compress c d → IsSound c → IsSound d
  Step-IsSound {c} {d} s v = record {
    order = moved_order s v.order;
    complete = moved_complete s v.complete;
    closing = Step-IsClosing compress s v.closing;
  }
    where
      moved_order :
          {c d : Closing}
          → Step compress c d
          → InOrder compress c.encoder
          → InOrder compress d.encoder
      moved_order (arrives_before c frame unset) o =
          step-InOrder compress c.encoder (arrives frame) o
      moved_order (encodes c i) o = step-InOrder compress c.encoder (takes i) o
      moved_order (pushes c i) o = step-InOrder compress c.encoder (finishes i) o
      moved_order (outputs_next c go_on) o = step-InOrder compress c.encoder delivers o
      moved_order (signals_enc c) o = o
      moved_order (ends c i test idle) o = o
      moved_order (signals_out c joined) o = o
      moved_order (ends_out c test) o = o

      moved_complete :
          {c d : Closing} → Step compress c d → IsComplete c.encoder → IsComplete d.encoder
      moved_complete (arrives_before c frame unset) o =
          step-IsComplete compress c.encoder (arrives frame) o
      moved_complete (encodes c i) o = step-IsComplete compress c.encoder (takes i) o
      moved_complete (pushes c i) o = step-IsComplete compress c.encoder (finishes i) o
      moved_complete (outputs_next c go_on) o = step-IsComplete compress c.encoder delivers o
      moved_complete (signals_enc c) o = o
      moved_complete (ends c i test idle) o = o
      moved_complete (signals_out c joined) o = o
      moved_complete (ends_out c test) o = o

  opened-IsSound : IsSound opened
  opened-IsSound = record {
    order = fresh-InOrder compress;
    complete = fresh-IsComplete;
    closing = record {
      threads = refl;
      ended = λ i h. absurd (differ h);
      quiet = λ h i. absurd (differ h);
      finished = λ h. absurd (differ h);
    };
  }
    where
      differ : ¬ (false ≡ true)
      differ q = cc

  Reach-IsSound : {c : Closing} → Reach compress c → IsSound c
  Reach-IsSound start = opened-IsSound
  Reach-IsSound (later r s) = Step-IsSound s (Reach-IsSound r)

  -- In every state that the threads and the destructor reach, once the output thread has returned,
  -- the callback has seen the JPEGs of all accepted frames, in the order of their acceptance, each
  -- once, without those that are empty, and every encoder lane is idle with nothing waiting.
  pub shutdown_delivers_all :
      {c : Closing}
      → Reach compress c
      → c.out_ended ≡ true
      → (c.encoder.sent ≡ outputs compress [] c.encoder.accepted)
        × (c.encoder.enc_queue ≡ [])
        × ((i : ℕ) → idle_at i c.encoder.lanes ≡ true)
  shutdown_delivers_all {c} r h = (
    v.order.sent
        ∙ ap (outputs compress []) (take_all compress c.encoder.expected c.encoder.accepted all),
    (quiet 0).empty,
    λ i. (quiet i).idle,
  )
    where
      v : IsSound c
      v = Reach-IsSound r

      quiet : (i : ℕ) → Ended i c
      quiet = finished_quiet c v.closing h

      none_left : count_lanes c.encoder.expected c.encoder.lanes ≡ 0
      none_left =
          empty_lanes c.encoder.expected c.encoder.lanes (λ i. (quiet i).idle)
            (v.closing.finished h).1

      all : c.encoder.expected ≡ length c.encoder.accepted
      all = ground (
        arith,
        v.complete.once c.encoder.expected,
        none_left,
        ap (count_queue c.encoder.expected) (quiet 0).empty,
        v.complete.in_range,
        v.order.numbered,
      )

-- Lanes that hold no frame have empty queues.
none_queued : (ls : List Lane) → ((n : ℕ) → count_lanes n ls ≡ 0) → all_empty ls ≡ true
none_queued [] h = refl
none_queued (lane busy [] ∷ ls) h = none_queued ls (λ n. omega (arith, h n))
none_queued (lane busy (x ∷ out) ∷ ls) h = absurd (omega (arith, h x.index, hit_self x.index))
  where
    hit_self : (n : ℕ) → hit n n ≡ 1
    hit_self n = ground arith

-- After any interleaving, once nothing waits, no thread is encoding and both abort flags are set, one
-- pass of the output thread for each accepted frame that is not delivered yet brings it to the test
-- on which it returns.
pub output_thread_ends :
    (compress : ℕ → List ℕ) (vs : List Event) (ended : ℕ → Bool)
    → Quiet (run compress fresh vs)
    → let e = run compress fresh vs in
      out_ends (record {
        encoder = run compress e (replicate (length e.accepted - e.expected) delivers);
        abort_enc = true;
        abort_out = true;
        ended = ended;
        out_ended = false;
      })
      ≡ true
unfolding out_ends
output_thread_ends compress vs ended q =
    none_queued last.lanes (λ k. ground (arith, complete.once k, all.0, kept))
  where
    e : Encoder
    e = run compress fresh vs

    n : ℕ
    n = length e.accepted - e.expected

    last : Encoder
    last = run compress e (replicate n delivers)

    order : InOrder compress e
    order = run_from-InOrder compress fresh vs (fresh-InOrder compress)

    complete : IsComplete last
    complete =
        run-IsComplete compress e (replicate n delivers)
          (run-IsComplete compress fresh vs fresh-IsComplete)

    all : (last.expected ≡ e.next_index) × (last.accepted ≡ e.accepted)
    all =
        drain compress n e (run-IsComplete compress fresh vs fresh-IsComplete) q
          (omega (arith, order.numbered, order.in_range))

    kept : last.next_index ≡ e.next_index
    kept =
        (run_from-InOrder compress e (replicate n delivers) order).numbered
        ∙ ap length all.1
        ∙ sym order.numbered
