-- ===== src/Stream/JpegMt/Progress.antt =====
-- The output thread of src/stream/jpeg_mt_encoder.cpp never stalls on frames that are encoded.
use ras_pi_zero_cam.Prelude.{
  Bool-cases, inl, inr, ℕ, zero, suc, ◌+◌, ◌-◌, ◌≡◌, ◌≢◌, ◌<◌, ◌≤◌, refl, sym, ap, subst, ◌∙◌,
  Option, none, some, List, [], ◌∷◌, ◌++◌, length, replicate, ◌&&◌, leb, ltb, if◌then◌else◌, arith,
}
use ras_pi_zero_cam.Stream.JpegMt.{
  EncodeItem, OutputItem, Lane, Encoder, Event, arrives, takes, finishes, delivers, fresh, encode,
  max_queue, start_lane, took, take_from, pop_expected, deliver_item, deliver, step, run,
}
use ras_pi_zero_cam.Stream.JpegMt.Order.{take, outputs}
use ras_pi_zero_cam.Stream.JpegMt.Delivery.{fresh-InOrder, run_from-InOrder}
use ras_pi_zero_cam.Stream.JpegMt.Counts.{
  count_queue, count_lanes, count_queue-snoc, Sorted, Started, start_lane-Started,
  finish_lane-Sorted, count_lanes-finish_lane,
}
use ras_pi_zero_cam.Stream.JpegMt.Popping.{AllIdle, Taken, pop_expected-Taken, pop_expected-none}

-- The indices of the waiting frames run from `m` to the next one.
abbrev pub Consecutive : ℕ → List EncodeItem → ℕ → Type 0
Consecutive m [] next = m ≡ next
Consecutive m (x ∷ q) next = (x.index ≡ m) × Consecutive (suc m) q next

Consecutive-le : (m : ℕ) (q : List EncodeItem) (next : ℕ) → Consecutive m q next → m ≤ next
Consecutive-le m [] next h = omega arith
Consecutive-le m (x ∷ q) next h = omega (arith, Consecutive-le (suc m) q next h.1)

Consecutive-snoc :
    (m : ℕ) (q : List EncodeItem) (next frame : ℕ)
    → Consecutive m q next
    → Consecutive m (q ++ record { frame = frame; index = next } ∷ []) (next + 1)
Consecutive-snoc m [] next frame h = (sym h, omega arith)
Consecutive-snoc m (x ∷ q) next frame h = (h.0, Consecutive-snoc (suc m) q next frame h.1)

abbrev pub between : ℕ → ℕ → ℕ → ℕ
between n lo hi = if leb lo n && ltb n hi then 1 else 0

-- Each frame that was accepted and not delivered is in exactly one place, and no other is anywhere.
pub record IsComplete (e : Encoder) : Type 0 where
  pub front : ℕ
  pub queue : Consecutive front e.enc_queue e.next_index
  pub sorted : Sorted front e.lanes
  pub once :
      (n : ℕ)
      → count_queue n e.enc_queue + count_lanes n e.lanes ≡ between n e.expected e.next_index
  pub in_range : e.expected ≤ e.next_index

pub fresh-IsComplete : IsComplete fresh
fresh-IsComplete = record {
  front = 0;
  queue = refl;
  sorted = (omega arith, (omega arith, (omega arith, (omega arith, tt))));
  once = λ n. ground arith;
  in_range = omega arith;
}

encode-IsComplete : (e : Encoder) (frame : ℕ) → IsComplete e → IsComplete (encode e frame).0
unfolding encode
encode-IsComplete e frame v = elim (Bool-cases (leb max_queue (length e.enc_queue))) [
  | inl full ↦ subst IsComplete (rw full) v
  | inr room ↦ subst IsComplete (rw room) pushed
]
  where
    item : EncodeItem
    item = record { frame = frame; index = e.next_index }

    after : Encoder
    after = record e {
      enc_queue = e.enc_queue ++ item ∷ [];
      next_index = e.next_index + 1;
      accepted = e.accepted ++ frame ∷ [];
    }

    pushed : IsComplete after
    pushed = record {
      front = v.front;
      queue = Consecutive-snoc v.front e.enc_queue e.next_index frame v.queue;
      sorted = v.sorted;
      once = λ n. ground (arith, count_queue-snoc n e.enc_queue item, v.once n, v.in_range);
      in_range = omega (arith, v.in_range);
    }

took-IsComplete :
    (e : Encoder) (x : EncodeItem) (q : List EncodeItem) (m : ℕ) (o : Option (List Lane))
    → IsComplete e
    → e.enc_queue ≡ x ∷ q
    → Consecutive (suc m) q e.next_index
    → ((n : ℕ) → Started m n x e.lanes o)
    → IsComplete (took e q o)
took-IsComplete e x q m none v eq c s = v
took-IsComplete e x q m (some ls) v eq c s = record {
  front = suc m;
  queue = c;
  sorted = (s 0).0;
  once = λ n. omega (arith, (s n).1, v.once n, ap (count_queue n) eq);
  in_range = v.in_range;
}

take_from-IsComplete :
    (e : Encoder) (i : ℕ) (q : List EncodeItem)
    → IsComplete e
    → e.enc_queue ≡ q
    → IsComplete (take_from e i q)
take_from-IsComplete e i [] v eq = unfold take_from in v
take_from-IsComplete e i (x ∷ q) v eq =
    let c = subst (λ r. Consecutive v.front r e.next_index) eq v.queue in
    unfold take_from in
    took-IsComplete e x q v.front (start_lane i x e.lanes) v eq c.1
      (λ n. start_lane-Started v.front n i x e.lanes c.0 v.sorted)

deliver_item-IsComplete :
    (e : Encoder) (m : ℕ) (o : Option (OutputItem × List Lane))
    → IsComplete e
    → Consecutive m e.enc_queue e.next_index
    → ((n : ℕ) → Taken m e.expected n e.lanes o)
    → IsComplete (deliver_item e o)
deliver_item-IsComplete e m none v c t = v
deliver_item-IsComplete e m (some (x, ls)) v c t = record {
  front = m;
  queue = c;
  sorted = (t 0).0;
  once = λ n. ground (arith, (t n).1, v.once n, in_stock);
  in_range = ground (arith, in_stock);
}
  where
    in_stock : e.expected < e.next_index
    in_stock = ground (arith, (t e.expected).1, v.once e.expected)

deliver-IsComplete : (e : Encoder) → IsComplete e → IsComplete (deliver e)
deliver-IsComplete e v =
    unfold deliver in
    deliver_item-IsComplete e v.front (pop_expected e.expected e.lanes) v v.queue
      (λ n. pop_expected-Taken v.front e.expected n e.lanes v.sorted)

-- Nothing waits and no thread is encoding.
pub record Quiet (e : Encoder) : Type 0 where
  pub empty : e.enc_queue ≡ []
  pub idle : AllIdle e.lanes

popped-advances :
    (e : Encoder) (m : ℕ) (o : Option (OutputItem × List Lane))
    → Quiet e
    → Taken m e.expected 0 e.lanes o
    → (o ≢ none)
    → Quiet (deliver_item e o) × ((deliver_item e o).expected ≡ e.expected + 1)
popped-advances e m none q t h = absurd (h refl)
popped-advances e m (some (x, ls)) q t h = (record { empty = q.empty; idle = t.2 q.idle }, refl)

-- With all threads idle, a pass of the output thread delivers the next frame while one is left.
deliver-advances :
    (e : Encoder)
    → IsComplete e
    → Quiet e
    → e.expected < e.next_index
    → Quiet (deliver e) × ((deliver e).expected ≡ e.expected + 1)
deliver-advances e v q h =
    unfold deliver in
    popped-advances e v.front (pop_expected e.expected e.lanes) q
      (pop_expected-Taken v.front e.expected 0 e.lanes v.sorted)
      (λ eq. missing (pop_expected-none v.front e.expected e.lanes v.sorted q.idle below eq))
  where
    below : (k : ℕ) → k < e.expected → count_lanes k e.lanes ≡ 0
    below k lt = ground (arith, v.once k)

    missing : ¬ (count_lanes e.expected e.lanes ≡ 0)
    missing c = ground (arith, v.once e.expected, ap (count_queue e.expected) q.empty)

pub deliver_item-next :
    (e : Encoder) (o : Option (OutputItem × List Lane))
    → ((deliver_item e o).next_index ≡ e.next_index) × ((deliver_item e o).accepted ≡ e.accepted)
deliver_item-next e none = (refl, refl)
deliver_item-next e (some (x, ls)) = (refl, refl)

deliver-next :
    (e : Encoder) → ((deliver e).next_index ≡ e.next_index) × ((deliver e).accepted ≡ e.accepted)
deliver-next e = unfold deliver in deliver_item-next e (pop_expected e.expected e.lanes)

module _ (compress : ℕ → List ℕ) where
  pub step-IsComplete : (e : Encoder) (v : Event) → IsComplete e → IsComplete (step compress e v)
  step-IsComplete e (arrives frame) h = unfold step in encode-IsComplete e frame h
  step-IsComplete e (takes i) h = unfold step in take_from-IsComplete e i e.enc_queue h refl
  step-IsComplete e (finishes i) h =
      unfold step in
      (record {
        front = h.front;
        queue = h.queue;
        sorted = finish_lane-Sorted compress h.front i e.lanes h.sorted;
        once = λ n. omega (arith, count_lanes-finish_lane compress n i e.lanes, h.once n);
        in_range = h.in_range;
      })
  step-IsComplete e delivers h = unfold step in deliver-IsComplete e h

  pub run-IsComplete :
      (e : Encoder) (vs : List Event) → IsComplete e → IsComplete (run compress e vs)
  unfolding run
  run-IsComplete e [] h = h
  run-IsComplete e (v ∷ vs) h = run-IsComplete (step compress e v) vs (step-IsComplete e v h)

  pub drain :
      (n : ℕ) (e : Encoder)
      → IsComplete e
      → Quiet e
      → e.expected + n ≡ e.next_index
      → ((run compress e (replicate n delivers)).expected ≡ e.next_index)
        × ((run compress e (replicate n delivers)).accepted ≡ e.accepted)
  unfolding run step
  drain zero e v q h = (omega arith, refl)
  drain (suc n) e v q h =
      let adv = deliver-advances e v q (omega arith) in
      let kept = deliver-next e in
      let rest =
        drain n (deliver e) (deliver-IsComplete e v) adv.0 (omega (arith, adv.1, kept.0)) in
      (rest.0 ∙ kept.0, rest.1 ∙ kept.1)

  pub take_all : (n : ℕ) (xs : List ℕ) → n ≡ length xs → take n xs ≡ xs
  take_all zero [] h = refl
  take_all zero (x ∷ xs) h = absurd (omega (arith, h))
  take_all (suc n) [] h = absurd (omega (arith, h))
  take_all (suc n) (x ∷ xs) h = ap (◌∷◌ x) (take_all n xs (omega (arith, h)))

  -- After any interleaving, once nothing waits and no thread is encoding, one pass of the output
  -- thread for each accepted frame that is not delivered yet brings the callback the JPEGs of all
  -- accepted frames, in the order of their acceptance, without those that are empty.
  pub drain_delivers_all :
      (vs : List Event)
      → Quiet (run compress fresh vs)
      → let e = run compress fresh vs in
        (run compress e (replicate (length e.accepted - e.expected) delivers)).sent
        ≡ outputs compress [] e.accepted
  drain_delivers_all vs q =
      let e = run compress fresh vs in
      let v = run_from-InOrder compress fresh vs (fresh-InOrder compress) in
      let n = length e.accepted - e.expected in
      let all =
        drain n e (run-IsComplete fresh vs fresh-IsComplete) q
          (omega (arith, v.numbered, v.in_range)) in
      let end = run_from-InOrder compress e (replicate n delivers) v in
      end.sent
      ∙ ap (λ k. outputs compress [] (take k (run compress e (replicate n delivers)).accepted))
          all.0
      ∙ ap (λ xs. outputs compress [] (take e.next_index xs)) all.1
      ∙ ap (outputs compress []) (take_all e.next_index e.accepted v.numbered)
