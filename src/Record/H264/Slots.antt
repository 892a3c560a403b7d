-- ===== src/Record/H264/Slots.antt =====
-- Where the input slots of src/record/h264_hw_encoder.cpp are, and which of them keep a frame alive.
use ras_pi_zero_cam.Prelude.{
  ℕ, zero, suc, ◌+◌, ◌≡◌, ◌≢◌, ◌<◌, ◌≤◌, refl, sym, ap, subst, ◌∙◌, Bool, true, false, Bool-cases,
  inl, inr, ==_iff, ◌==◌, ◌⊎◌, ltb, Option, none, some, List, [], ◌∷◌, ◌++◌, length, get_or, set,
  replicate, length-set, length-append, get_or-set_self, get_or-set_ne, if◌then◌else◌, arith,
}
use ras_pi_zero_cam.Prelude.Counts.{
  once, count, count_some, is_in, count-append, count_of_is_in, once_self, count-indices_from,
  length-indices_from,
}
use ras_pi_zero_cam.Codec.Pool.{
  Pool, taken, take_slot, settled, settle, give_back, places, total, some_one, places-settle,
  total-settle, places-give_back, total-give_back, free-settle,
}
use ras_pi_zero_cam.Record.H264.{
  Encoder, OutputItem, num_output_buffers, claimed, claim, emptied, submit, return_input,
  take_capture, popped, take_output, handed_on, deliver, streaming,
}
use ras_pi_zero_cam.Record.H264.Steps.{
  Step, claims, submits, returns, captures, takes, delivers, stops_polling, stops_output, Reach,
  start, later,
}

-- Every granted slot is in one place, and keeps a frame exactly while it is not free.
pub record IsPooled (n : ℕ) (e : Encoder) : Type 0 where
  pub slots : (i : ℕ) → places i e.pool ≡ (if ltb i n then 1 else 0)
  pub whole : total e.pool ≡ n
  pub fits : length e.pending_frames ≡ num_output_buffers
  pub kept :
      (i : ℕ)
      → count i e.pool.free + some_one (get_or e.pending_frames i none) ≡ (if ltb i n then 1 else 0)

get_or-replicate-none : (i n : ℕ) → some_one (get_or (replicate n none) i none) ≡ 0
get_or-replicate-none i zero = refl
get_or-replicate-none zero (suc n) = refl
get_or-replicate-none (suc i) (suc n) = get_or-replicate-none i n

streaming-IsPooled : (n m : ℕ) → IsPooled n (streaming n m)
unfolding streaming
streaming-IsPooled n m = record {
  slots = λ i. ground (arith, count-indices_from i 0 n);
  whole = omega (arith, length-indices_from 0 n);
  fits = refl;
  kept = λ i. ground (arith, count-indices_from i 0 n, get_or-replicate-none i num_output_buffers);
}

-- Writing one place of `pending_frames`.
kept-set :
    (os : List (Option ℕ)) (slot i : ℕ) (o : Option ℕ)
    → slot < length os
    → ((i ≡ slot) × (some_one (get_or (set os slot o) i none) ≡ some_one o))
      ⊎ ((i ≢ slot) × (some_one (get_or (set os slot o) i none) ≡ some_one (get_or os i none)))
kept-set os slot i o h = elim (Bool-cases (i == slot)) [
  | inl e ↦
      let same = (==_iff i slot).0 e in
      inl (
        same,
        subst (λ k. some_one (get_or (set os slot o) k none) ≡ some_one o) (sym same)
            (ap some_one (get_or-set_self os slot o none h)),
      )
  | inr e ↦
      let differ : i ≢ slot = apart i slot e in
      inr (differ, ap some_one (get_or-set_ne os {i = slot} {j = i} o none (λ q. differ (sym q))))
]
  where
    apart : (i slot : ℕ) → (i == slot) ≡ false → i ≢ slot
    apart i slot e q = ground arith

once_at : (i slot : ℕ) → i ≡ slot → once i slot ≡ 1
once_at i slot e = ground arith

once_off : (i slot : ℕ) → i ≢ slot → once i slot ≡ 0
once_off i slot h = ground arith

-- A slot that is taken keeps its frame, and a slot that is given back keeps none.
kept_taken :
    (os : List (Option ℕ)) (rest : List ℕ) (slot frame i c : ℕ)
    → slot < length os
    → c ≤ 1
    → once i slot + count i rest + some_one (get_or os i none) ≡ c
    → count i rest + some_one (get_or (set os slot (some frame)) i none) ≡ c
kept_taken os rest slot frame i c h le e = elim (kept-set os slot i (some frame) h) [
  | inl (same, now) ↦ omega (arith, e, now, once_at i slot same)
  | inr (differ, now) ↦ omega (arith, e, now, once_off i slot differ)
]

kept_given :
    (os : List (Option ℕ)) (free : List ℕ) (slot i c : ℕ)
    → slot < length os
    → c ≤ 1
    → once i slot + count i free ≤ c
    → count i free + some_one (get_or os i none) ≡ c
    → count i (free ++ slot ∷ []) + some_one (get_or (set os slot none) i none) ≡ c
kept_given os free slot i c h le room e = elim (kept-set os slot i none h) [
  | inl (same, now) ↦ omega (arith, room, now, once_at i slot same, count-append i free (slot ∷ []))
  | inr (differ, now) ↦
      omega (arith, e, now, once_off i slot differ, count-append i free (slot ∷ []))
]

abbrev granted : ℕ → ℕ → ℕ
granted n i = if ltb i n then 1 else 0

granted-le : (n i : ℕ) → granted n i ≤ 1
granted-le n i = ground arith

pub slot_lt : (n i : ℕ) (e : Encoder) → IsPooled n e → 1 ≤ places i e.pool → i < n
slot_lt n i e v h = ground (arith, v.slots i)

module _ (n : ℕ) (few : n ≤ num_output_buffers) where
  claimed-IsPooled :
      (e : Encoder) (frame : ℕ) (fs : List ℕ)
      → IsPooled n e
      → e.pool.filling ≡ none
      → e.pool.free ≡ fs
      → IsPooled n (claimed e frame (taken e.pool fs)).0
  claimed-IsPooled e frame [] v idle eq = v
  claimed-IsPooled e frame (slot ∷ rest) v idle eq = record {
    slots = λ i. omega (arith, v.slots i, ap (count i) eq, ap (count_some i) idle);
    whole = omega (arith, v.whole, ap length eq, ap some_one idle);
    fits = length-set e.pending_frames slot (some frame) ∙ v.fits;
    kept = λ i.
        kept_taken e.pending_frames rest slot frame i (granted n i) inside (granted-le n i)
          (omega (arith, v.kept i, ap (count i) eq));
  }
    where
      inside : slot < length e.pending_frames
      inside = omega (
        arith,
        slot_lt n slot e v (omega (arith, ap (count slot) eq, once_self slot)),
        v.fits,
        few,
      )

  claim-IsPooled :
      (e : Encoder) (frame : ℕ)
      → IsPooled n e
      → e.pool.filling ≡ none
      → IsPooled n (claim e frame).0
  unfolding claim take_slot
  claim-IsPooled e frame v idle = claimed-IsPooled e frame e.pool.free v idle refl

  -- A slot that is not free goes back to the free ones, without its frame.
  freed-IsPooled :
      (e : Encoder) (slot : ℕ) (p : Pool)
      → IsPooled n e
      → p.free ≡ e.pool.free ++ slot ∷ []
      → ((i : ℕ) → places i p ≡ places i e.pool)
      → total p ≡ total e.pool
      → 1 ≤ count_some slot e.pool.filling + count slot e.pool.driver
      → IsPooled n (record (emptied e (some slot)) { pool = p })
  freed-IsPooled e slot p v free same all out = record {
    slots = λ i. same i ∙ v.slots i;
    whole = all ∙ v.whole;
    fits = length-set e.pending_frames slot none ∙ v.fits;
    kept = λ i.
        ap (λ fs. count i fs + some_one (get_or (set e.pending_frames slot none) i none)) free
        ∙ kept_given e.pending_frames e.pool.free slot i (granted n i) inside (granted-le n i)
            (room i) (v.kept i);
  }
    where
      inside : slot < length e.pending_frames
      inside = omega (arith, slot_lt n slot e v (omega (arith, out)), v.fits, few)

      room : (i : ℕ) → once i slot + count i e.pool.free ≤ granted n i
      room i = elim (Bool-cases (slot == i)) [
        | inl e1 ↦ at (sym ((==_iff slot i).0 e1))
        | inr e1 ↦ omega (arith, v.slots i, off i e1)
      ]
        where
          at : i ≡ slot → once i slot + count i e.pool.free ≤ granted n i
          at q =
              subst (λ k. once k slot + count k e.pool.free ≤ granted n k) (sym q)
                (omega (arith, v.slots slot, out, once_self slot))

          off : (i : ℕ) → (slot == i) ≡ false → once i slot ≡ 0
          off i h = ground arith

  refused-IsPooled :
      (e : Encoder) (o : Option ℕ)
      → IsPooled n e
      → e.pool.filling ≡ o
      → IsPooled n (record (emptied e o) { pool = settled e.pool o false })
  refused-IsPooled e none v eq = v
  refused-IsPooled e (some slot) v eq =
      freed-IsPooled e slot (settled e.pool (some slot) false) v refl
        (λ i. omega (arith, count-append i e.pool.free (slot ∷ []), ap (count_some i) eq))
        (omega (arith, length-append e.pool.free (slot ∷ []), ap some_one eq))
        (omega (arith, ap (count_some slot) eq, once_self slot))

  submit-IsPooled : (e : Encoder) (ok : Bool) → IsPooled n e → IsPooled n (submit e ok).0
  unfolding submit
  submit-IsPooled e true v = record {
    slots = λ i. places-settle i e.pool true ∙ v.slots i;
    whole = total-settle e.pool true ∙ v.whole;
    fits = v.fits;
    kept = λ i.
        ap (λ fs. count i fs + some_one (get_or e.pending_frames i none)) (free-settle e.pool)
        ∙ v.kept i;
  }
  submit-IsPooled e false v = unfold settle in refused-IsPooled e e.pool.filling v refl

  return_input-IsPooled :
      (e : Encoder) (slot : ℕ)
      → IsPooled n e
      → is_in slot e.pool.driver ≡ true
      → IsPooled n (return_input e slot)
  unfolding return_input
  return_input-IsPooled e slot v h =
      freed-IsPooled e slot (give_back e.pool slot) v (unfold give_back in refl)
        (λ i. places-give_back i slot e.pool h) (total-give_back slot e.pool h)
        (omega (arith, count_of_is_in slot e.pool.driver h))

  popped-IsPooled : (e : Encoder) (q : List OutputItem) → IsPooled n e → IsPooled n (popped e q)
  popped-IsPooled e [] v = v
  popped-IsPooled e (item ∷ rest) v = record {
    slots = v.slots;
    whole = v.whole;
    fits = v.fits;
    kept = v.kept;
  }

  handed_on-IsPooled :
      (e : Encoder) (o : Option OutputItem) (ok : Bool)
      → IsPooled n e
      → IsPooled n (handed_on e o ok)
  handed_on-IsPooled e none ok v = v
  handed_on-IsPooled e (some item) ok v = record {
    slots = v.slots;
    whole = v.whole;
    fits = v.fits;
    kept = v.kept;
  }

  Step-IsPooled : {e f : Encoder} → Step e f → IsPooled n e → IsPooled n f
  unfolding take_capture take_output deliver
  Step-IsPooled (claims e frame idle) v = claim-IsPooled e frame v idle
  Step-IsPooled (submits e ok) v = submit-IsPooled e ok v
  Step-IsPooled (returns e slot h) v = return_input-IsPooled e slot v h
  Step-IsPooled (captures e b h) v = record {
    slots = v.slots;
    whole = v.whole;
    fits = v.fits;
    kept = v.kept;
  }
  Step-IsPooled (takes e h) v = popped-IsPooled e e.output_queue v
  Step-IsPooled (delivers e ok) v = handed_on-IsPooled e e.delivering ok v
  Step-IsPooled (stops_polling e) v = record {
    slots = v.slots;
    whole = v.whole;
    fits = v.fits;
    kept = v.kept;
  }
  Step-IsPooled (stops_output e) v = record {
    slots = v.slots;
    whole = v.whole;
    fits = v.fits;
    kept = v.kept;
  }

  -- When the driver grants at most six input slots, then in every state that the threads reach each
  -- granted slot is in exactly one place, free, with the caller of `encode` or with the driver, and
  -- keeps a frame alive exactly while it is not free.
  pub Reach-IsPooled : {m : ℕ} {e : Encoder} → Reach n m e → IsPooled n e
  Reach-IsPooled {m} start = streaming-IsPooled n m
  Reach-IsPooled (later r st) = Step-IsPooled st (Reach-IsPooled r)
