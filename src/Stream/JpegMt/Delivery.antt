-- ===== src/Stream/JpegMt/Delivery.antt =====
-- What the callback of src/stream/jpeg_mt_encoder.cpp has seen after any interleaving.
use mathlib.Core.Path.{ap₂}
use ras_pi_zero_cam.Prelude.{
  ℕ, suc, ◌+◌, ◌≡◌, ◌≤◌, refl, sym, ap, subst, ◌∙◌, Bool-cases, inl, inr, Option, none, some, List,
  [], ◌∷◌, ◌++◌, length, length-append, leb, arith,
}
use ras_pi_zero_cam.Stream.JpegMt.{
  EncodeItem, OutputItem, Lane, Encoder, Event, arrives, takes, finishes, delivers, fresh, encode,
  max_queue, start_lane, took, take_from, fire, pop_expected, deliver_item, step, run,
}
use ras_pi_zero_cam.Stream.JpegMt.Order.{
  At, take, outputs, outputs-snoc, Waits, Lanes, LanesIf, Popped, start_lane-Lanes,
  finish_lane-Lanes, pop_expected-Popped, Waits-push, Lanes-grow, At-lt, take-At, take-append,
}

module _ (compress : ℕ → List ℕ) where
  -- Every item stands for the accepted frame of its index, and the callback has seen the JPEGs of
  -- the first `expected` accepted frames, in order, but for empty ones.
  pub record InOrder (e : Encoder) : Type 0 where
    pub waits : Waits compress e.accepted e.enc_queue
    pub lanes : Lanes compress e.accepted e.lanes
    pub numbered : e.next_index ≡ length e.accepted
    pub in_range : e.expected ≤ e.next_index
    pub sent : e.sent ≡ outputs compress [] (take e.expected e.accepted)

  pub fresh-InOrder : InOrder fresh
  fresh-InOrder = record {
    waits = tt;
    lanes = (tt, tt, (tt, tt, (tt, tt, (tt, tt, tt))));
    numbered = refl;
    in_range = omega arith;
    sent = refl;
  }

  encode-InOrder : (e : Encoder) (frame : ℕ) → InOrder e → InOrder (encode e frame).0
  unfolding encode
  encode-InOrder e frame v = elim (Bool-cases (leb max_queue (length e.enc_queue))) [
    | inl full ↦ subst InOrder (rw full) v
    | inr room ↦ subst InOrder (rw room) pushed
  ]
    where
      after : Encoder
      after = record e {
        enc_queue = e.enc_queue ++ record { frame = frame; index = e.next_index } ∷ [];
        next_index = e.next_index + 1;
        accepted = e.accepted ++ frame ∷ [];
      }

      pushed : InOrder after
      pushed = record {
        waits = Waits-push compress e.accepted frame e.enc_queue e.next_index v.numbered v.waits;
        lanes = Lanes-grow compress e.accepted frame e.lanes v.lanes;
        numbered = omega (arith, v.numbered, length-append e.accepted (frame ∷ []));
        in_range = omega (arith, v.in_range);
        sent =
            v.sent
            ∙ ap (outputs compress []) (
                sym (
                  take-append e.expected frame e.accepted (omega (arith, v.in_range, v.numbered))));
      }

  took-InOrder :
      (e : Encoder) (q : List EncodeItem) (o : Option (List Lane))
      → InOrder e
      → Waits compress e.accepted q
      → LanesIf compress e.accepted o
      → InOrder (took e q o)
  took-InOrder e q none v w h = v
  took-InOrder e q (some ls) v w h = record {
    waits = w;
    lanes = h;
    numbered = v.numbered;
    in_range = v.in_range;
    sent = v.sent;
  }

  take_from-InOrder :
      (e : Encoder) (i : ℕ) (q : List EncodeItem)
      → InOrder e
      → Waits compress e.accepted q
      → InOrder (take_from e i q)
  take_from-InOrder e i [] v w = unfold take_from in v
  take_from-InOrder e i (x ∷ q) v w =
      unfold take_from in
      took-InOrder e q (start_lane i x e.lanes) v w.1
        (start_lane-Lanes compress e.accepted i x e.lanes w.0 v.lanes)

  deliver_item-InOrder :
      (e : Encoder) (o : Option (OutputItem × List Lane))
      → InOrder e
      → Popped compress e.accepted e.expected o
      → InOrder (deliver_item e o)
  deliver_item-InOrder e none v h = v
  deliver_item-InOrder e (some (x, ls)) v ((f, at, jpeg), index, h) =
      let here : At e.expected f e.accepted = subst (λ n. At n f e.accepted) index at in
      record {
        waits = v.waits;
        lanes = h;
        numbered = v.numbered;
        in_range = omega (arith, At-lt e.expected f e.accepted here, v.numbered);
        sent =
            ap₂ fire v.sent jpeg
            ∙ sym (outputs-snoc compress [] (take e.expected e.accepted) f)
            ∙ ap (outputs compress []) (
                sym (take-At e.expected f e.accepted here)
                ∙ ap (λ n. take n e.accepted) {x = suc e.expected} (omega arith));
      }

  pub step-InOrder : (e : Encoder) (v : Event) → InOrder e → InOrder (step compress e v)
  unfolding step
  step-InOrder e (arrives frame) v = encode-InOrder e frame v
  step-InOrder e (takes i) v = take_from-InOrder e i e.enc_queue v v.waits
  step-InOrder e (finishes i) v = record {
    waits = v.waits;
    lanes = finish_lane-Lanes compress e.accepted i e.lanes v.lanes;
    numbered = v.numbered;
    in_range = v.in_range;
    sent = v.sent;
  }
  step-InOrder e delivers v =
      deliver_item-InOrder e (pop_expected e.expected e.lanes) v
        (pop_expected-Popped compress e.accepted e.expected e.lanes v.lanes)

  pub run_from-InOrder : (e : Encoder) (vs : List Event) → InOrder e → InOrder (run compress e vs)
  unfolding run
  run_from-InOrder e [] v = v
  run_from-InOrder e (w ∷ vs) v = run_from-InOrder (step compress e w) vs (step-InOrder e w v)

  -- After any interleaving of frames, encoder threads and the output thread, the callback has seen
  -- exactly the JPEGs of the first `expected` accepted frames, in the order of their acceptance,
  -- each once, without those that are empty.
  pub run_delivers_prefix :
      (vs : List Event)
      → let e = run compress fresh vs in
        (e.sent ≡ outputs compress [] (take e.expected e.accepted))
        × (e.expected ≤ length e.accepted)
  run_delivers_prefix vs =
      let v = run_from-InOrder fresh vs fresh-InOrder in
      (v.sent, omega (arith, v.in_range, v.numbered))
