-- ===== src/Stream/JpegHw/Slots.antt =====
-- The input slots of src/stream/jpeg_hw_encoder.cpp and their memories while the caller of `encode`
-- and the poll thread run in any order. The driver returns only buffers that VIDIOC_QBUF gave to it.
use ras_pi_zero_cam.Prelude.{
  ℕ, ◌*◌, ◌/◌, ◌≡◌, ◌≢◌, ◌<◌, ◌≤◌, refl, sym, ap, subst, ◌∙◌, Bool, true, false, Bool-cases, inl,
  inr, ==_iff, ◌==◌, ltb, Option, none, some, List, [], ◌∷◌, length, get_or, set, length-set,
  get_or-set_self, get_or-set_ne, if◌then◌else◌, arith,
}
use ras_pi_zero_cam.Prelude.Counts.{count, count_some, is_in, once_self}
use ras_pi_zero_cam.Prelude.Counts.{indices_from, count-indices_from, length-indices_from}
use ras_pi_zero_cam.Codec.Pool.{
  Pool, taken, take_slot, settle, places, total, some_one, places-settle, total-settle,
  places-give_back, total-give_back,
}
use ras_pi_zero_cam.Stream.JpegHw.{
  JpegHw, Captured, claimed, claim, copied, copy_in, submit, return_slot, deliver, fill,
}
use ras_pi_zero_cam.Stream.JpegHw.Bounds.{length-fill}

pub data Step : JpegHw → JpegHw → Type 0 where
  claims : (e : JpegHw) → e.pool.filling ≡ none → Step e (claim e).0
  copies : (e : JpegHw) (frame_data : List ℕ) → Step e (copy_in e frame_data)
  submits : (e : JpegHw) (ok : Bool) → Step e (submit e ok).0
  returns : (e : JpegHw) (slot : ℕ) → is_in slot e.pool.driver ≡ true → Step e (return_slot e slot)
  delivers : (e : JpegHw) (b : Captured) → is_in b.index e.capturing ≡ true → Step e (deliver e b)
  stops : (e : JpegHw) → Step e (record e { abort = true })

-- The state that the constructor leaves: the driver granted `n` slots, which have these memories,
-- and `m` capture buffers.
abbrev pub started : ℕ → ℕ → ℕ → ℕ → ℕ → List (List ℕ) → JpegHw
started width height stride n m memories = record {
  width = width;
  height = height;
  stride = stride;
  pool = record { free = indices_from 0 n; filling = none; driver = [] };
  output_bufs = memories;
  output_ready_cb = true;
  capturing = indices_from 0 m;
  abort = false;
  shown = [];
}

-- Each granted slot has a memory with room for a YU12 image, as the format asks for.
abbrev pub Roomy : ℕ → ℕ → ℕ → List (List ℕ) → Type 0
Roomy width height n memories =
    (n ≤ length memories)
    × ((i : ℕ) → i < n → width * height * 3 / 2 ≤ length (get_or memories i []))

pub data Reach (n : ℕ) : JpegHw → Type 0 where
  start :
      (width height stride m : ℕ) (memories : List (List ℕ))
      → Roomy width height n memories
      → Reach n (started width height stride n m memories)
  later : {e f : JpegHw} → Reach n e → Step e f → Reach n f

-- Each of the `n` granted slots is in one place, and has a memory with room for a YU12 image.
pub record IsBacked (n : ℕ) (e : JpegHw) : Type 0 where
  pub slots : (i : ℕ) → places i e.pool ≡ (if ltb i n then 1 else 0)
  pub whole : total e.pool ≡ n
  pub mapped : n ≤ length e.output_bufs
  pub room : (i : ℕ) → i < n → e.width * e.height * 3 / 2 ≤ length (get_or e.output_bufs i [])

pub slot_lt : (n i : ℕ) (e : JpegHw) → IsBacked n e → 1 ≤ places i e.pool → i < n
slot_lt n i e v h = ground (arith, v.slots i)

same_memories :
    (n : ℕ) (e : JpegHw) (p : Pool)
    → IsBacked n e
    → ((i : ℕ) → places i p ≡ places i e.pool)
    → total p ≡ total e.pool
    → IsBacked n (record e { pool = p })
same_memories n e p v same all = record {
  slots = λ i. same i ∙ v.slots i;
  whole = all ∙ v.whole;
  mapped = v.mapped;
  room = v.room;
}

claimed-IsBacked :
    (n : ℕ) (e : JpegHw) (fs : List ℕ)
    → e.pool.free ≡ fs
    → e.pool.filling ≡ none
    → IsBacked n e
    → IsBacked n (claimed e (taken e.pool fs)).0
claimed-IsBacked n e [] eq idle v = v
claimed-IsBacked n e (slot ∷ rest) eq idle v =
    same_memories n e (record e.pool { free = rest; filling = some slot }) v
      (λ i. omega (arith, ap (count i) eq, ap (count_some i) idle))
      (omega (arith, ap length eq, ap some_one idle))

copied-IsBacked :
    (n : ℕ) (e : JpegHw) (o : Option ℕ) (frame_data : List ℕ)
    → e.pool.filling ≡ o
    → IsBacked n e
    → IsBacked n (copied e o frame_data)
copied-IsBacked n e none frame_data eq v = v
copied-IsBacked n e (some slot) frame_data eq v = record {
  slots = v.slots;
  whole = v.whole;
  mapped = omega (arith, v.mapped, length-set e.output_bufs slot filled);
  room = λ i lt. elim (Bool-cases (i == slot)) [
    | inl e1 ↦
        subst
          (λ k. e.width * e.height * 3 / 2 ≤ length (get_or (set e.output_bufs slot filled) k []))
          (sym ((==_iff i slot).0 e1)) here
    | inr e1 ↦
        subst (λ m. e.width * e.height * 3 / 2 ≤ length m)
          (sym (get_or-set_ne e.output_bufs {i = slot} {j = i} filled [] (apart i slot e1)))
          (v.room i lt)
  ];
}
  where
    filled : List ℕ
    filled = fill e.width e.height e.stride frame_data (get_or e.output_bufs slot [])

    inside : slot < n
    inside = slot_lt n slot e v (omega (arith, ap (count_some slot) eq, once_self slot))

    apart : (i slot : ℕ) → (i == slot) ≡ false → slot ≢ i
    apart i slot e q = ground arith

    here : e.width * e.height * 3 / 2 ≤ length (get_or (set e.output_bufs slot filled) slot [])
    here = omega (
      arith,
      v.room slot inside,
      ap length (get_or-set_self e.output_bufs slot filled [] (omega (arith, inside, v.mapped))),
      length-fill e.width e.height e.stride frame_data (get_or e.output_bufs slot []),
    )

-- Every step of the two threads keeps each granted slot in exactly one place, and its memory large
-- enough for a YU12 image.
pub Step-IsBacked : (n : ℕ) {e f : JpegHw} → Step e f → IsBacked n e → IsBacked n f
unfolding claim take_slot copy_in submit return_slot deliver
Step-IsBacked n (claims e idle) v = claimed-IsBacked n e e.pool.free refl idle v
Step-IsBacked n (copies e frame_data) v = copied-IsBacked n e e.pool.filling frame_data refl v
Step-IsBacked n (submits e ok) v =
    same_memories n e (settle e.pool ok) v (λ i. places-settle i e.pool ok) (total-settle e.pool ok)
Step-IsBacked n (returns e slot h) v =
    same_memories n e _ v (λ i. places-give_back i slot e.pool h) (total-give_back slot e.pool h)
Step-IsBacked n (delivers e b h) v = record {
  slots = v.slots;
  whole = v.whole;
  mapped = v.mapped;
  room = v.room;
}
Step-IsBacked n (stops e) v = record {
  slots = v.slots;
  whole = v.whole;
  mapped = v.mapped;
  room = v.room;
}

started-IsBacked :
    (width height stride n m : ℕ) (memories : List (List ℕ))
    → Roomy width height n memories
    → IsBacked n (started width height stride n m memories)
started-IsBacked width height stride n m memories roomy = record {
  slots = λ i. ground (arith, count-indices_from i 0 n);
  whole = omega (arith, length-indices_from 0 n);
  mapped = roomy.0;
  room = roomy.1;
}

-- In every state that the two threads reach each granted slot is in exactly one place, and has a
-- memory with room for a YU12 image.
pub Reach-IsBacked : {n : ℕ} {e : JpegHw} → Reach n e → IsBacked n e
Reach-IsBacked {n} (start width height stride m memories roomy) =
    started-IsBacked width height stride n m memories roomy
Reach-IsBacked {n} (later r st) = Step-IsBacked n st (Reach-IsBacked r)
