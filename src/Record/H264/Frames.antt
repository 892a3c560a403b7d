-- ===== src/Record/H264/Frames.antt =====
-- The frames that src/record/h264_hw_encoder.cpp keeps alive, and those that it lets go.
use ras_pi_zero_cam.Prelude.{
  ℕ, zero, suc, ◌+◌, ◌≡◌, ◌<◌, ◌≤◌, refl, ap, Bool, true, false, Option, none, some, List, [], ◌∷◌,
  ◌++◌, length, get_or, replicate, arith,
}
use ras_pi_zero_cam.Prelude.Counts.{
  count, count_some, count_slots, count-append, count_slots-set, count_of_is_in, once_self,
}
use ras_pi_zero_cam.Codec.Pool.{Pool, taken, take_slot}
use ras_pi_zero_cam.Record.H264.{
  Encoder, OutputItem, num_output_buffers, drop_frame, claimed, claim, emptied, submit,
  return_input, take_capture, popped, take_output, handed_on, deliver, streaming,
}
use ras_pi_zero_cam.Record.H264.Steps.{
  Step, claims, submits, returns, captures, takes, delivers, stops_polling, stops_output, Reach,
  start, later,
}
use ras_pi_zero_cam.Record.H264.Slots.{IsPooled, Reach-IsPooled, slot_lt}

-- Each frame was let go as often as it was taken, but for the slots that keep it.
abbrev pub Balanced : Encoder → Type 0
Balanced e = (f : ℕ) → count f e.accepted ≡ count f e.released + count_slots f e.pending_frames

count-drop_frame :
    (f : ℕ) (xs : List ℕ) (o : Option ℕ)
    → count f (xs ++ drop_frame o) ≡ count f xs + count_some f o
count-drop_frame f xs none = count-append f xs []
count-drop_frame f xs (some x) = omega (arith, count-append f xs (x ∷ []))

claimed-Balanced :
    (e : Encoder) (frame slot : ℕ) (p : Pool)
    → slot < length e.pending_frames
    → Balanced e
    → Balanced (claimed e frame (some (slot, p))).0
claimed-Balanced e frame slot p h b f = omega (
  arith,
  b f,
  count-append f e.accepted (frame ∷ []),
  count-drop_frame f e.released (get_or e.pending_frames slot none),
  count_slots-set f slot e.pending_frames (some frame) h,
)

emptied-Balanced :
    (e : Encoder) (slot : ℕ)
    → slot < length e.pending_frames
    → Balanced e
    → Balanced (emptied e (some slot))
emptied-Balanced e slot h b f = omega (
  arith,
  b f,
  count-drop_frame f e.released (get_or e.pending_frames slot none),
  count_slots-set f slot e.pending_frames none h,
)

-- A slot of the pool is a place of `pending_frames`.
slot_inside :
    (n slot : ℕ) (e : Encoder)
    → n ≤ num_output_buffers
    → IsPooled n e
    → 1 ≤ count slot e.pool.free + count_some slot e.pool.filling + count slot e.pool.driver
    → slot < length e.pending_frames
slot_inside n slot e few v h = omega (arith, slot_lt n slot e v h, v.fits)

count_slots-replicate : (f k : ℕ) → count_slots f (replicate k none) ≡ 0
count_slots-replicate f zero = refl
count_slots-replicate f (suc k) = omega (arith, count_slots-replicate f k)

module _ (n : ℕ) (few : n ≤ num_output_buffers) where
  claim-Balanced :
      (e : Encoder) (frame : ℕ) (fs : List ℕ)
      → e.pool.free ≡ fs
      → IsPooled n e
      → Balanced e
      → Balanced (claimed e frame (taken e.pool fs)).0
  claim-Balanced e frame [] eq v b = b
  claim-Balanced e frame (slot ∷ rest) eq v b =
      claimed-Balanced e frame slot (record e.pool { free = rest; filling = some slot })
        (slot_inside n slot e few v (omega (arith, ap (count slot) eq, once_self slot))) b

  refused-Balanced :
      (e : Encoder) (o : Option ℕ)
      → e.pool.filling ≡ o
      → IsPooled n e
      → Balanced e
      → Balanced (emptied e o)
  refused-Balanced e none eq v b = b
  refused-Balanced e (some slot) eq v b =
      emptied-Balanced e slot
        (slot_inside n slot e few v (omega (arith, ap (count_some slot) eq, once_self slot))) b

  popped-Balanced : (e : Encoder) (q : List OutputItem) → Balanced e → Balanced (popped e q)
  popped-Balanced e [] b = b
  popped-Balanced e (item ∷ rest) b = b

  handed_on-Balanced :
      (e : Encoder) (o : Option OutputItem) (ok : Bool) → Balanced e → Balanced (handed_on e o ok)
  handed_on-Balanced e none ok b = b
  handed_on-Balanced e (some item) ok b = b

  Step-Balanced : {e f : Encoder} → Step e f → IsPooled n e → Balanced e → Balanced f
  unfolding claim take_slot submit return_input take_capture take_output deliver
  Step-Balanced (claims e frame idle) v b = claim-Balanced e frame e.pool.free refl v b
  Step-Balanced (submits e true) v b = b
  Step-Balanced (submits e false) v b = refused-Balanced e e.pool.filling refl v b
  Step-Balanced (returns e slot h) v b =
      emptied-Balanced e slot
        (slot_inside n slot e few v (omega (arith, count_of_is_in slot e.pool.driver h))) b
  Step-Balanced (captures e item h) v b = b
  Step-Balanced (takes e h) v b = popped-Balanced e e.output_queue b
  Step-Balanced (delivers e ok) v b = handed_on-Balanced e e.delivering ok b
  Step-Balanced (stops_polling e) v b = b
  Step-Balanced (stops_output e) v b = b

  -- When the driver grants at most six input slots, then in every state that the threads reach a
  -- frame was let go as often as `encode` took it, less the slots that keep it alive now: no frame is
  -- lost, and none is let go twice.
  pub Reach-Balanced : {m : ℕ} {e : Encoder} → Reach n m e → Balanced e
  Reach-Balanced {m} start = unfold streaming in (λ f. count_slots-replicate f num_output_buffers)
  Reach-Balanced (later r st) = Step-Balanced st (Reach-IsPooled n few r) (Reach-Balanced r)
