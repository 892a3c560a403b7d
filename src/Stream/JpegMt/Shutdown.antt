-- ===== src/Stream/JpegMt/Shutdown.antt =====
-- The destructor of src/stream/jpeg_mt_encoder.cpp, and the tests on which its threads return.
use ras_pi_zero_cam.Prelude.{
  ℕ, zero, suc, ◌≡◌, ◌<◌, Bool, true, false, ◌&&◌, none, some, List, [], ◌∷◌, if◌then◌else◌, ◌==◌,
}
use ras_pi_zero_cam.Stream.JpegMt.{
  EncodeItem, Lane, lane, Encoder, arrives, takes, finishes, delivers, num_threads, fresh, step,
}

-- The encoder with the two abort flags, and which of its threads have returned.
pub record Closing : Type 0 where
  pub encoder : Encoder
  pub abort_enc : Bool
  pub abort_out : Bool
  pub ended : ℕ → Bool
  pub out_ended : Bool

abbrev pub opened : Closing
opened = record {
  encoder = fresh;
  abort_enc = false;
  abort_out = false;
  ended = λ i. false;
  out_ended = false;
}

abbrev pub nothing_waits : List EncodeItem → Bool
nothing_waits [] = true
nothing_waits (x ∷ q) = false

-- The test of an encoder thread, which it makes while it has no frame.
unfoldable pub lane_ends : Closing → Bool
lane_ends c = c.abort_enc && nothing_waits c.encoder.enc_queue

abbrev pub all_empty : List Lane → Bool
all_empty [] = true
all_empty (lane busy [] ∷ ls) = all_empty ls
all_empty (lane busy (x ∷ out) ∷ ls) = false

-- The test of the output thread.
unfoldable pub out_ends : Closing → Bool
out_ends c = c.abort_out && all_empty c.encoder.lanes

abbrev pub idle_at : ℕ → List Lane → Bool
idle_at i [] = true
idle_at zero (lane none out ∷ ls) = true
idle_at zero (lane (some x) out ∷ ls) = false
idle_at (suc i) (l ∷ ls) = idle_at i ls

abbrev pub end_lane : Closing → ℕ → Closing
end_lane c i = record c { ended = λ k. if k == i then true else c.ended k }

module _ (compress : ℕ → List ℕ) where
  -- The steps of the threads and of the destructor, in any order that its two `join` leave. The
  -- owner calls `encode` only before it destroys the encoder.
  pub data Step : Closing → Closing → Type 0 where
    arrives_before :
        (c : Closing) (frame : ℕ)
        → c.abort_enc ≡ false
        → Step c (record c { encoder = step compress c.encoder (arrives frame) })
    encodes :
        (c : Closing) (i : ℕ) → Step c (record c { encoder = step compress c.encoder (takes i) })
    pushes :
        (c : Closing) (i : ℕ) → Step c (record c { encoder = step compress c.encoder (finishes i) })
    outputs_next :
        (c : Closing)
        → out_ends c ≡ false
        → Step c (record c { encoder = step compress c.encoder delivers })
    signals_enc : (c : Closing) → Step c (record c { abort_enc = true })
    ends :
        (c : Closing) (i : ℕ)
        → lane_ends c ≡ true
        → idle_at i c.encoder.lanes ≡ true
        → Step c (end_lane c i)
    signals_out :
        (c : Closing)
        → ((i : ℕ) → i < num_threads → c.ended i ≡ true)
        → Step c (record c { abort_out = true })
    ends_out : (c : Closing) → out_ends c ≡ true → Step c (record c { out_ended = true })

  pub data Reach : Closing → Type 0 where
    start : Reach opened
    later : {c d : Closing} → Reach c → Step c d → Reach d
