-- ===== src/Stream/JpegMt/Closing.antt =====
-- What the threads of src/stream/jpeg_mt_encoder.cpp have done when the destructor returns.
use mathlib.Core.Path.{ap₂}
use ras_pi_zero_cam.Prelude.{
  ℕ, zero, suc, ◌≡◌, ◌<◌, ◌≤◌, refl, sym, ap, ◌∙◌, Bool, true, false, Bool-cases, inl, inr, ◌&&◌,
  Option, none, some, List, [], ◌∷◌, length, leb, ltb, ◌==◌, ==_iff, arith,
}
use ras_pi_zero_cam.Stream.JpegMt.{
  EncodeItem, OutputItem, Lane, Encoder, num_threads, max_queue, encode, start_lane, took,
  take_from, pop_expected, deliver_item, deliver, finish_lane, step,
}
use ras_pi_zero_cam.Stream.JpegMt.Shutdown.{
  Closing, nothing_waits, lane_ends, all_empty, out_ends, idle_at, end_lane, Step, arrives_before,
  encodes, pushes, outputs_next, signals_enc, ends, signals_out, ends_out,
}
use ras_pi_zero_cam.Stream.JpegMt.Idle.{
  Kept, KeptIf, StartedIf, pop_expected-KeptIf, start_lane-StartedIf, finish_lane-Kept,
  finish_lane-idle,
}

-- Nothing waits, and lane `i` is idle.
pub record Ended (i : ℕ) (c : Closing) : Type 0 where
  pub abort : c.abort_enc ≡ true
  pub empty : c.encoder.enc_queue ≡ []
  pub idle : idle_at i c.encoder.lanes ≡ true

-- A thread that returned left nothing behind, and `abort_out` waits for all of them.
pub record IsClosing (c : Closing) : Type 0 where
  pub threads : length c.encoder.lanes ≡ num_threads
  pub ended : (i : ℕ) → c.ended i ≡ true → Ended i c
  pub quiet : c.abort_out ≡ true → (i : ℕ) → Ended i c
  pub finished : c.out_ended ≡ true → (c.abort_out ≡ true) × (all_empty c.encoder.lanes ≡ true)

differ : ¬ (false ≡ true)
differ e = cc

-- What a step of the encoder has to keep.
record Keeps (c : Closing) (e : Encoder) : Type 0 where
  size : length e.lanes ≡ length c.encoder.lanes
  empty : c.abort_enc ≡ true → c.encoder.enc_queue ≡ [] → e.enc_queue ≡ []
  idle :
      c.encoder.enc_queue ≡ []
      → (i : ℕ) → idle_at i c.encoder.lanes ≡ true
      → idle_at i e.lanes ≡ true
  same : c.out_ended ≡ true → all_empty e.lanes ≡ true

Ended-kept :
    (c : Closing) (e : Encoder) (i : ℕ) → Keeps c e → Ended i c → Ended i (record c { encoder = e })
Ended-kept c e i k v = record {
  abort = v.abort;
  empty = k.empty v.abort v.empty;
  idle = k.idle v.empty i v.idle;
}

kept-IsClosing :
    (c : Closing) (e : Encoder) → IsClosing c → Keeps c e → IsClosing (record c { encoder = e })
kept-IsClosing c e v k = record {
  threads = k.size ∙ v.threads;
  ended = λ i h. Ended-kept c e i k (v.ended i h);
  quiet = λ h i. Ended-kept c e i k (v.quiet h i);
  finished = λ h. ((v.finished h).0, k.same h);
}

idle_beyond : (i : ℕ) (ls : List Lane) → length ls ≤ i → idle_at i ls ≡ true
idle_beyond i [] h = refl
idle_beyond zero (l ∷ ls) h = absurd (omega (arith, h))
idle_beyond (suc i) (l ∷ ls) h = idle_beyond i ls (omega (arith, h))

took_lanes :
    (e : Encoder) (q : List EncodeItem) (o : Option (List Lane))
    → StartedIf e.lanes o
    → length (took e q o).lanes ≡ length e.lanes
took_lanes e q none h = refl
took_lanes e q (some ls) h = h

take_from_lanes :
    (e : Encoder) (i : ℕ) (q : List EncodeItem) → length (take_from e i q).lanes ≡ length e.lanes
unfolding take_from
take_from_lanes e i [] = refl
take_from_lanes e i (x ∷ q) =
    took_lanes e q (start_lane i x e.lanes) (start_lane-StartedIf i x e.lanes)

take_from-nil : (e : Encoder) (i : ℕ) (q : List EncodeItem) → q ≡ [] → take_from e i q ≡ e
unfolding take_from
take_from-nil e i [] h = refl
take_from-nil e i (x ∷ q) h = cc

encode_lanes : (e : Encoder) (frame : ℕ) → (encode e frame).0.lanes ≡ e.lanes
unfolding encode
encode_lanes e frame = elim (Bool-cases (leb max_queue (length e.enc_queue))) [
  | inl full ↦ rw full refl
  | inr room ↦ rw room refl
]

nothing_waits_nil : (q : List EncodeItem) → nothing_waits q ≡ true → q ≡ []
nothing_waits_nil [] h = refl
nothing_waits_nil (x ∷ q) h = absurd (differ h)

both_true : (a b : Bool) → (a && b) ≡ true → (a ≡ true) × (b ≡ true)
both_true true true h = (refl, refl)
both_true true false h = absurd (differ h)
both_true false b h = absurd (differ h)

deliver_item_lanes :
    (e : Encoder) (o : Option (OutputItem × List Lane))
    → KeptIf e.lanes o
    → Kept e.lanes (deliver_item e o).lanes × ((deliver_item e o).enc_queue ≡ e.enc_queue)
deliver_item_lanes e none h = (record { size = refl; idle = λ i k. k }, refl)
deliver_item_lanes e (some (x, ls)) h = (h, refl)

-- Once the output thread has returned, nothing waits and no lane is busy.
pub finished_quiet : (c : Closing) → IsClosing c → c.out_ended ≡ true → (i : ℕ) → Ended i c
finished_quiet c v h = v.quiet (v.finished h).0

module _ (compress : ℕ → List ℕ) where
  arrives-Keeps :
      (c : Closing) (frame : ℕ)
      → c.abort_enc ≡ false
      → IsClosing c
      → Keeps c (encode c.encoder frame).0
  arrives-Keeps c frame unset v = record {
    size = ap length (encode_lanes c.encoder frame);
    empty = λ abort h. absurd (differ (sym unset ∙ abort));
    idle = λ h i k. ap (idle_at i) (encode_lanes c.encoder frame) ∙ k;
    same = λ h. absurd (differ (sym unset ∙ (finished_quiet c v h 0).abort));
  }

  takes-Keeps :
      (c : Closing) (i : ℕ) → IsClosing c → Keeps c (take_from c.encoder i c.encoder.enc_queue)
  takes-Keeps c i v =
      let nil : c.encoder.enc_queue ≡ [] → take_from c.encoder i c.encoder.enc_queue ≡ c.encoder =
        take_from-nil c.encoder i c.encoder.enc_queue in
      record {
        size = take_from_lanes c.encoder i c.encoder.enc_queue;
        empty = λ abort h. ap (λ e. e.enc_queue) (nil h) ∙ h;
        idle = λ h k idle. ap (λ e. idle_at k e.lanes) (nil h) ∙ idle;
        same = λ h.
            ap (λ e. all_empty e.lanes) (nil (finished_quiet c v h 0).empty) ∙ (v.finished h).1;
      }

  finishes-Keeps :
      (c : Closing) (j : ℕ)
      → IsClosing c
      → Keeps c (record c.encoder { lanes = finish_lane compress j c.encoder.lanes })
  finishes-Keeps c j v =
      let kept : Kept c.encoder.lanes (finish_lane compress j c.encoder.lanes) =
        finish_lane-Kept compress j c.encoder.lanes in
      record {
        size = kept.size;
        empty = λ abort h. h;
        idle = λ h i k. kept.idle i k;
        same = λ h.
            ap all_empty
              (finish_lane-idle compress j c.encoder.lanes (λ i. (finished_quiet c v h i).idle))
            ∙ (v.finished h).1;
      }

  delivers-Keeps : (c : Closing) → out_ends c ≡ false → IsClosing c → Keeps c (deliver c.encoder)
  unfolding deliver out_ends
  delivers-Keeps c go_on v =
      let kept =
        deliver_item_lanes c.encoder (pop_expected c.encoder.expected c.encoder.lanes)
          (pop_expected-KeptIf c.encoder.expected c.encoder.lanes) in
      record {
        size = kept.0.size;
        empty = λ abort h. kept.1 ∙ h;
        idle = λ h i k. kept.0.idle i k;
        same = λ h. absurd (differ (sym go_on ∙ ap₂ ◌&&◌ (v.finished h).0 (v.finished h).1));
      }

  ends-IsClosing :
      (c : Closing) (i : ℕ)
      → lane_ends c ≡ true
      → idle_at i c.encoder.lanes ≡ true
      → IsClosing c
      → IsClosing (end_lane c i)
  unfolding lane_ends
  ends-IsClosing c i test idle v =
      let now = both_true c.abort_enc (nothing_waits c.encoder.enc_queue) test in
      record {
        threads = v.threads;
        ended = λ k h. elim (Bool-cases (k == i)) [
          | inl e ↦ record {
            abort = now.0;
            empty = nothing_waits_nil c.encoder.enc_queue now.1;
            idle = ap (λ m. idle_at m c.encoder.lanes) ((==_iff k i).0 e) ∙ idle;
          }
          | inr e ↦
              let old = v.ended k (rw e at h) in
              record { abort = old.abort; empty = old.empty; idle = old.idle }
        ];
        quiet = λ h k.
            let old = v.quiet h k in
            record { abort = old.abort; empty = old.empty; idle = old.idle };
        finished = v.finished;
      }

  ended_test :
      (c : Closing) → out_ends c ≡ true → (c.abort_out ≡ true) × (all_empty c.encoder.lanes ≡ true)
  unfolding out_ends
  ended_test c test = both_true c.abort_out (all_empty c.encoder.lanes) test

  all_ended :
      (c : Closing)
      → ((i : ℕ) → i < num_threads → c.ended i ≡ true)
      → IsClosing c
      → (i : ℕ) → Ended i (record c { abort_out = true })
  all_ended c joined v i =
      let first = v.ended 0 (joined 0 (omega arith)) in
      record { abort = first.abort; empty = first.empty; idle = idle_now }
    where
      idle_now : idle_at i c.encoder.lanes ≡ true
      idle_now = elim (Bool-cases (ltb i num_threads)) [
        | inl e ↦ (v.ended i (joined i (ground arith))).idle
        | inr e ↦ idle_beyond i c.encoder.lanes (ground (arith, v.threads))
      ]

  pub Step-IsClosing : {c d : Closing} → Step compress c d → IsClosing c → IsClosing d
  unfolding step
  Step-IsClosing (arrives_before c frame unset) v =
      kept-IsClosing c _ v (arrives-Keeps c frame unset v)
  Step-IsClosing (encodes c i) v = kept-IsClosing c _ v (takes-Keeps c i v)
  Step-IsClosing (pushes c i) v = kept-IsClosing c _ v (finishes-Keeps c i v)
  Step-IsClosing (outputs_next c go_on) v = kept-IsClosing c _ v (delivers-Keeps c go_on v)
  Step-IsClosing (signals_enc c) v = record {
    threads = v.threads;
    ended =
        λ i h. let old = v.ended i h in record { abort = refl; empty = old.empty; idle = old.idle };
    quiet =
        λ h i. let old = v.quiet h i in record { abort = refl; empty = old.empty; idle = old.idle };
    finished = v.finished;
  }
  Step-IsClosing (ends c i test idle) v = ends-IsClosing c i test idle v
  Step-IsClosing (signals_out c joined) v = record {
    threads = v.threads;
    ended = λ i h.
        let old = v.ended i h in record { abort = old.abort; empty = old.empty; idle = old.idle };
    quiet = λ h i. all_ended c joined v i;
    finished = λ h. (refl, (v.finished h).1);
  }
  Step-IsClosing (ends_out c test) v = record {
    threads = v.threads;
    ended = λ i h.
        let old = v.ended i h in record { abort = old.abort; empty = old.empty; idle = old.idle };
    quiet = λ h i.
        let old = v.quiet h i in record { abort = old.abort; empty = old.empty; idle = old.idle };
    finished = λ h. ended_test c test;
  }
