-- ===== src/Stream/JpegMt.antt =====
-- `JpegMtEncoder` of src/stream/jpeg_mt_encoder.cpp: one queue of frames, encoder threads, and an
-- output thread that restores the order. A lane is an encoder thread with the frame that it encodes
-- and its output queue. An event is one critical section of one thread, so a list of events is an
-- interleaving. libjpeg is the parameter `compress`, from a frame to its JPEG bytes. `accepted`
-- records the frames that `encode` took, and `sent` what went to the callback.
pub mod Order
pub mod Delivery
pub mod Counts
pub mod Popping
pub mod Progress
pub mod Shutdown
pub mod Idle
pub mod Closing
pub mod Ends
use ras_pi_zero_cam.Prelude.{
  ℕ, zero, suc, ◌+◌, Bool, true, false, Option, none, some, List, [], ◌∷◌, ◌++◌, length, leb,
  replicate, ◌==◌, if◌then◌else◌,
}

pub record EncodeItem : Type 0 where
  pub frame : ℕ
  pub index : ℕ

pub record OutputItem : Type 0 where
  pub jpeg : List ℕ
  pub index : ℕ

pub data Lane : Type 0 where
  lane : Option EncodeItem → List OutputItem → Lane

pub record Encoder : Type 0 where
  pub enc_queue : List EncodeItem
  pub next_index : ℕ
  pub lanes : List Lane
  pub expected : ℕ
  pub accepted : List ℕ
  pub sent : List (List ℕ)

abbrev pub num_threads : ℕ
num_threads = 4

abbrev pub max_queue : ℕ
max_queue = 8

abbrev pub fresh : Encoder
fresh = record {
  enc_queue = [];
  next_index = 0;
  lanes = replicate num_threads (lane none []);
  expected = 0;
  accepted = [];
  sent = [];
}

unfoldable pub encode : Encoder → ℕ → Encoder × Bool
encode e frame = if leb max_queue (length e.enc_queue) then (e, false) else (
  record e {
    enc_queue = e.enc_queue ++ record { frame = frame; index = e.next_index } ∷ [];
    next_index = e.next_index + 1;
    accepted = e.accepted ++ frame ∷ [];
  },
  true,
)

-- An idle thread takes the front item; a busy thread is not at its queue.
unfoldable pub start_lane : ℕ → EncodeItem → List Lane → Option (List Lane)
start_lane i x [] = none
start_lane zero x (lane none out ∷ ls) = some (lane (some x) out ∷ ls)
start_lane zero x (lane (some y) out ∷ ls) = none
start_lane (suc i) x (l ∷ ls) = elim (start_lane i x ls) [ none ↦ none | some ls' ↦ some (l ∷ ls') ]

abbrev pub took : Encoder → List EncodeItem → Option (List Lane) → Encoder
took e q none = e
took e q (some ls) = record e { enc_queue = q; lanes = ls }

unfoldable pub take_from : Encoder → ℕ → List EncodeItem → Encoder
unfolding start_lane
take_from e i [] = e
take_from e i (x ∷ q) = took e q (start_lane i x e.lanes)

-- The callback is fired for a JPEG that is not empty.
abbrev pub fire : List (List ℕ) → List ℕ → List (List ℕ)
fire sent [] = sent
fire sent (b ∷ bs) = sent ++ (b ∷ bs) ∷ []

abbrev pub skip : Lane → Option (OutputItem × List Lane) → Option (OutputItem × List Lane)
skip l none = none
skip l (some (x, ls)) = some (x, l ∷ ls)

-- The first queue whose front has the index `n`, without that front.
unfoldable pub pop_expected : ℕ → List Lane → Option (OutputItem × List Lane)
pop_expected n [] = none
pop_expected n (lane busy [] ∷ ls) = skip (lane busy []) (pop_expected n ls)
pop_expected n (lane busy (x ∷ out) ∷ ls) =
    let rest = skip (lane busy (x ∷ out)) (pop_expected n ls) in
    if x.index == n then some (x, lane busy out ∷ ls) else rest

abbrev pub deliver_item : Encoder → Option (OutputItem × List Lane) → Encoder
deliver_item e none = e
deliver_item e (some (x, ls)) = record e {
  lanes = ls;
  expected = e.expected + 1;
  sent = fire e.sent x.jpeg;
}

unfoldable pub deliver : Encoder → Encoder
unfolding pop_expected
deliver e = deliver_item e (pop_expected e.expected e.lanes)

pub data Event : Type 0 where
  arrives : ℕ → Event
  takes : ℕ → Event
  finishes : ℕ → Event
  delivers : Event

module _ (compress : ℕ → List ℕ) where
  abbrev pub encoded : EncodeItem → OutputItem
  encoded x = record { jpeg = compress x.frame; index = x.index }

  -- A busy thread pushes its result to its own queue.
  unfoldable pub finish_lane : ℕ → List Lane → List Lane
  finish_lane i [] = []
  finish_lane zero (lane none out ∷ ls) = lane none out ∷ ls
  finish_lane zero (lane (some x) out ∷ ls) = lane none (out ++ encoded x ∷ []) ∷ ls
  finish_lane (suc i) (l ∷ ls) = l ∷ finish_lane i ls

  unfoldable pub step : Encoder → Event → Encoder
  unfolding encode take_from finish_lane deliver
  step e (arrives frame) = (encode e frame).0
  step e (takes i) = take_from e i e.enc_queue
  step e (finishes i) = record e { lanes = finish_lane i e.lanes }
  step e delivers = deliver e

  unfoldable pub run : Encoder → List Event → Encoder
  unfolding step
  run e [] = e
  run e (v ∷ vs) = run (step e v) vs
