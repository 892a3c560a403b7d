-- ===== src/Record/H264/Buffers.antt =====
-- The encoded buffers of src/record/h264_hw_encoder.cpp, from the driver to the callback and back.
use mathlib.Core.List.{append_assoc}
use ras_pi_zero_cam.Prelude.{
  ℕ, ◌+◌, ◌≡◌, refl, sym, ap, ◌∙◌, Bool, true, false, Option, none, some, List, [], ◌∷◌, ◌++◌, ltb,
  if◌then◌else◌, arith,
}
use ras_pi_zero_cam.Prelude.Counts.{once, count, count-append, count-erase, is_in}
use ras_pi_zero_cam.Codec.Pool.{Pool, take_slot}
use ras_pi_zero_cam.Record.H264.{
  Encoder, OutputItem, Captured, item_of, claimed, claim, emptied, submit, return_input,
  take_capture, popped, take_output, handed_on, deliver, streaming,
}
use ras_pi_zero_cam.Record.H264.Steps.{
  Step, claims, submits, returns, captures, takes, delivers, stops_polling, stops_output, Reach,
  start, later,
}
use ras_pi_zero_cam.Prelude.Counts.{count-indices_from}

abbrev pub count_items : ℕ → List OutputItem → ℕ
count_items i [] = 0
count_items i (x ∷ xs) = once i x.index + count_items i xs

abbrev pub in_hand : Option OutputItem → List OutputItem
in_hand none = []
in_hand (some item) = item ∷ []

-- Each granted capture buffer is in one place, with the driver, in the queue, in the output thread,
-- or lost by a failed VIDIOC_QBUF; and the callback saw all that was dequeued, in order, but for what
-- is still on its way.
pub record IsOrdered (m : ℕ) (e : Encoder) : Type 0 where
  pub buffers :
      (i : ℕ)
      → count i e.capturing
          + count_items i e.output_queue
          + count_items i (in_hand e.delivering)
          + count i e.lost
        ≡ (if ltb i m then 1 else 0)
  pub in_order : e.captured ≡ e.delivered ++ (in_hand e.delivering ++ e.output_queue)

count_items-append :
    (i : ℕ) (xs ys : List OutputItem)
    → count_items i (xs ++ ys) ≡ count_items i xs + count_items i ys
count_items-append i [] ys = omega arith
count_items-append i (x ∷ xs) ys = omega (arith, count_items-append i xs ys)

module _ (m : ℕ) where
  same_outputs :
      (e f : Encoder)
      → f.capturing ≡ e.capturing
      → f.output_queue ≡ e.output_queue
      → f.delivering ≡ e.delivering
      → f.lost ≡ e.lost
      → f.captured ≡ e.captured
      → f.delivered ≡ e.delivered
      → IsOrdered m e
      → IsOrdered m f
  same_outputs e f c q d l k s v = record {
    buffers = λ i. omega (
      arith,
      v.buffers i,
      ap (count i) c,
      ap (count_items i) q,
      ap (λ o. count_items i (in_hand o)) d,
      ap (count i) l,
    );
    in_order = rw (k, s, d, q) v.in_order;
  }

  claimed-IsOrdered :
      (e : Encoder) (frame : ℕ) (o : Option (ℕ × Pool))
      → IsOrdered m e
      → IsOrdered m (claimed e frame o).0
  claimed-IsOrdered e frame none v = v
  claimed-IsOrdered e frame (some (slot, p)) v =
      same_outputs e (claimed e frame (some (slot, p))).0 refl refl refl refl refl refl v

  emptied-IsOrdered :
      (e : Encoder) (p : Pool) (o : Option ℕ)
      → IsOrdered m e
      → IsOrdered m (record (emptied e o) { pool = p })
  emptied-IsOrdered e p none v =
      same_outputs e (record e { pool = p }) refl refl refl refl refl refl v
  emptied-IsOrdered e p (some slot) v =
      same_outputs e (record (emptied e (some slot)) { pool = p }) refl refl refl refl refl refl v

  take_capture-IsOrdered :
      (e : Encoder) (b : Captured)
      → is_in b.index e.capturing ≡ true
      → IsOrdered m e
      → IsOrdered m (take_capture e b)
  unfolding take_capture
  take_capture-IsOrdered e b h v = record {
    buffers = λ i. omega (
      arith,
      v.buffers i,
      count-erase i b.index e.capturing h,
      count_items-append i e.output_queue (item_of b ∷ []),
    );
    in_order =
        ap (λ xs. xs ++ item_of b ∷ []) v.in_order
        ∙ append_assoc e.delivered (in_hand e.delivering ++ e.output_queue) (item_of b ∷ [])
        ∙ ap (λ xs. e.delivered ++ xs)
            (append_assoc (in_hand e.delivering) e.output_queue (item_of b ∷ []));
  }

  popped-IsOrdered :
      (e : Encoder) (q : List OutputItem)
      → e.output_queue ≡ q
      → e.delivering ≡ none
      → IsOrdered m e
      → IsOrdered m (popped e q)
  popped-IsOrdered e [] eq idle v = v
  popped-IsOrdered e (item ∷ rest) eq idle v = record {
    buffers = λ i.
        omega (arith, v.buffers i, ap (count_items i) eq, ap (λ o. count_items i (in_hand o)) idle);
    in_order =
        v.in_order
        ∙ ap (λ o. e.delivered ++ (in_hand o ++ e.output_queue)) idle
        ∙ ap (λ xs. e.delivered ++ xs) eq;
  }

  handed_on-IsOrdered :
      (e : Encoder) (o : Option OutputItem) (ok : Bool)
      → e.delivering ≡ o
      → IsOrdered m e
      → IsOrdered m (handed_on e o ok)
  handed_on-IsOrdered e none ok eq v = v
  handed_on-IsOrdered e (some item) ok eq v = record {
    buffers = λ i. requeued i ok;
    in_order =
        v.in_order
        ∙ ap (λ d. e.delivered ++ (in_hand d ++ e.output_queue)) eq
        ∙ sym (append_assoc e.delivered (item ∷ []) e.output_queue);
  }
    where
      requeued :
          (i : ℕ) (ok : Bool)
          → count i (if ok then e.capturing ++ item.index ∷ [] else e.capturing)
              + count_items i e.output_queue
              + 0
              + count i (if ok then e.lost else e.lost ++ item.index ∷ [])
            ≡ (if ltb i m then 1 else 0)
      requeued i true = omega (
        arith,
        v.buffers i,
        count-append i e.capturing (item.index ∷ []),
        ap (λ o. count_items i (in_hand o)) eq,
      )
      requeued i false = omega (
        arith,
        v.buffers i,
        count-append i e.lost (item.index ∷ []),
        ap (λ o. count_items i (in_hand o)) eq,
      )

  Step-IsOrdered : {e f : Encoder} → Step e f → IsOrdered m e → IsOrdered m f
  unfolding claim submit return_input take_output deliver
  Step-IsOrdered (claims e frame idle) v = claimed-IsOrdered e frame (take_slot e.pool) v
  Step-IsOrdered (submits e true) v = emptied-IsOrdered e (submit e true).0.pool none v
  Step-IsOrdered (submits e false) v = emptied-IsOrdered e (submit e false).0.pool e.pool.filling v
  Step-IsOrdered (returns e slot h) v = emptied-IsOrdered e (return_input e slot).pool (some slot) v
  Step-IsOrdered (captures e b h) v = take_capture-IsOrdered e b h v
  Step-IsOrdered (takes e idle) v = popped-IsOrdered e e.output_queue refl idle v
  Step-IsOrdered (delivers e ok) v = handed_on-IsOrdered e e.delivering ok refl v
  Step-IsOrdered (stops_polling e) v =
      same_outputs e (record e { abort_poll = true }) refl refl refl refl refl refl v
  Step-IsOrdered (stops_output e) v =
      same_outputs e (record e { abort_output = true }) refl refl refl refl refl refl v

-- In every state that the threads reach, each of the granted capture buffers is in exactly one place,
-- and the callback has seen the encoded buffers in the order in which the driver gave them, each
-- once, all but those in the queue and the one in the output thread.
pub Reach-IsOrdered : {n m : ℕ} {e : Encoder} → Reach n m e → IsOrdered m e
unfolding streaming
Reach-IsOrdered {m} start = record {
  buffers = λ i. ground (arith, count-indices_from i 0 m);
  in_order = refl;
}
Reach-IsOrdered {m} (later r st) = Step-IsOrdered m st (Reach-IsOrdered r)
