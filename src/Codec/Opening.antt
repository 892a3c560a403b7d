-- ===== src/Codec/Opening.antt =====
-- The loops of the constructors of src/record/h264_hw_encoder.cpp and src/stream/jpeg_hw_encoder.cpp
-- over the mmapped buffers: what they have done when every call succeeds, and what is left behind
-- when one fails.
use mathlib.Core.List.{append_assoc, append-nil}
use mathlib.Core.Path.{ap₂}
use ras_pi_zero_cam.Prelude.{
  ℕ, zero, suc, ◌+◌, ◌≡◌, ◌<◌, ◌≤◌, refl, sym, ap, subst, ◌∙◌, leb, true, false, Bool-cases, inl,
  inr, ◌==◌, Option, none, some, List, [], ◌∷◌, ◌++◌, arith,
}
use ras_pi_zero_cam.Prelude.Counts.{indices_from, erase}
use ras_pi_zero_cam.Codec.Device.{
  Queue, Call, Session, Built, built, threw, past_end, and_then, add_map, answered, need, enter,
  open_buffer, open_buffers, unmap,
}

-- The calls of one round succeed.
pub record BufferServed (answer : Call → Option ℕ) (q : Queue) (i : ℕ) : Type 0 where
  pub length : ℕ
  pub place : ℕ
  pub taken : ℕ
  pub queried : answer (Call.query_buffer q i) ≡ some length
  pub mapped : answer (Call.map_buffer q i) ≡ some place
  pub queued : answer (Call.queue_buffer i) ≡ some taken

-- The session after `n` rounds that succeed.
abbrev pub served : Queue → List ℕ → Session → Session
served Queue.output is s = record s {
  output_maps = s.output_maps ++ is;
  free_slots = s.free_slots ++ is;
}
served Queue.capture is s = record s {
  capture_maps = s.capture_maps ++ is;
  queued = s.queued ++ is;
}

abbrev Never : Type 0
Never = false ≡ true

-- What a failed constructor leaves: the device is open, and no thread runs.
pub record IsAbandoned (s : Session) : Type 0 where
  pub fd_open : s.fd_open ≡ true
  pub threads : s.threads ≡ 0

-- A constructor that does not return leaves an abandoned session, and one that returns what `P` says.
abbrev pub Leaves : (Session → Type 0) → Built → Type 0
Leaves P (built s) = P s
Leaves P (threw s) = IsAbandoned s
Leaves P (past_end s) = IsAbandoned s

-- The constructor returns such a session; it throws with one; it writes past the end of an array in
-- one.
abbrev pub Returns : Built → (Session → Type 0) → Type 0
Returns (built s) P = P s
Returns (threw s) P = Never
Returns (past_end s) P = Never

abbrev pub WritesPastEnd : Built → (Session → Type 0) → Type 0
WritesPastEnd (built s) P = Never
WritesPastEnd (threw s) P = Never
WritesPastEnd (past_end s) P = P s

module _ (answer : Call → Option ℕ) where
  served_step :
      (q : Queue) (i : ℕ) (is : List ℕ) (s : Session)
      → served q is (served q (i ∷ []) s) ≡ served q (i ∷ is) s
  served_step Queue.output i is s =
      ap₂ (λ maps slots. record s { output_maps = maps; free_slots = slots })
        (append_assoc s.output_maps (i ∷ []) is) (append_assoc s.free_slots (i ∷ []) is)
  served_step Queue.capture i is s =
      ap₂ (λ maps queue. record s { capture_maps = maps; queued = queue })
        (append_assoc s.capture_maps (i ∷ []) is) (append_assoc s.queued (i ∷ []) is)

  served_nil : (q : Queue) (s : Session) → served q [] s ≡ s
  served_nil Queue.output s =
      ap₂ (λ maps slots. record s { output_maps = maps; free_slots = slots })
        (append-nil s.output_maps) (append-nil s.free_slots)
  served_nil Queue.capture s =
      ap₂ (λ maps queue. record s { capture_maps = maps; queued = queue })
        (append-nil s.capture_maps) (append-nil s.queued)

  inside : (places i : ℕ) → i < places → leb places i ≡ false
  inside places i lt = ground arith

  open_buffer-served :
      (q : Queue) (places i : ℕ) (s : Session)
      → BufferServed answer q i
      → i < places
      → open_buffer answer q places i s ≡ built (served q (i ∷ []) s)
  unfolding open_buffer enter
  open_buffer-served Queue.output places i s c lt =
      rw (c.queried, inside places i lt, c.mapped) refl
  open_buffer-served Queue.capture places i s c lt =
      rw (c.queried, inside places i lt, c.mapped, c.queued) refl

  -- The loop over the granted buffers, when every call succeeds and the array has place for them.
  pub open_buffers-served :
      (q : Queue) (places first n : ℕ) (s : Session)
      → ((i : ℕ) → i < first + n → BufferServed answer q i)
      → first + n ≤ places
      → open_buffers answer q places first n s ≡ built (served q (indices_from first n) s)
  unfolding open_buffers
  open_buffers-served q places first zero s c fits = ap built (sym (served_nil q s))
  open_buffers-served q places first (suc n) s c fits =
      rw (open_buffer-served q places first s (c first (omega arith)) (omega arith)) (
        open_buffers-served q places (first + 1) n (served q (first ∷ []) s)
          (λ i lt. c i (omega arith)) (omega arith)
        ∙ ap built (served_step q first (indices_from (first + 1) n) s))

  -- When the driver grants more buffers than the array has places, the loop writes past its end.
  pub open_buffers_past :
      (q : Queue) (places first d n : ℕ) (s : Session)
      → ((i : ℕ) → i < places + 1 → BufferServed answer q i)
      → first + d ≡ places
      → d < n
      → open_buffers answer q places first n s ≡ past_end (served q (indices_from first d) s)
  unfolding open_buffers open_buffer
  open_buffers_past q places first d zero s c at more = absurd (omega (arith, more))
  open_buffers_past q places first zero (suc n) s c at more =
      rw ((c first (omega arith)).queried, beyond places first (omega arith))
        (ap past_end (sym (served_nil q s)))
    where
      beyond : (places i : ℕ) → places ≤ i → leb places i ≡ true
      beyond places i le = ground arith
  open_buffers_past q places first (suc d) (suc n) s c at more =
      rw (open_buffer-served q places first s (c first (omega arith)) (omega arith)) (
        open_buffers_past q places (first + 1) d n (served q (first ∷ []) s) c (omega arith)
          (omega arith)
        ∙ ap past_end (served_step q first (indices_from (first + 1) d) s))

  -- One call, and one loop, that may fail.
  pub need-Leaves :
      (P : Session → Type 0) (c : Call) (s : Session) (k : ℕ → Session → Built)
      → IsAbandoned s
      → ((n : ℕ) → Leaves P (k n s))
      → Leaves P (need answer c s k)
  need-Leaves P c s k a h = go (answer c)
    where
      go : (o : Option ℕ) → Leaves P (answered o s k)
      go none = a
      go (some n) = h n

  pub and_then-Leaves :
      (P : Session → Type 0) (b : Built) (k : Session → Built)
      → Leaves IsAbandoned b
      → ((s : Session) → IsAbandoned s → Leaves P (k s))
      → Leaves P (and_then b k)
  and_then-Leaves P (built s) k a h = h s a
  and_then-Leaves P (threw s) k a h = a
  and_then-Leaves P (past_end s) k a h = a

  add_map-IsAbandoned :
      (q : Queue) (i : ℕ) (s : Session) → IsAbandoned s → IsAbandoned (add_map q i s)
  add_map-IsAbandoned Queue.output i s a = record { fd_open = a.fd_open; threads = a.threads }
  add_map-IsAbandoned Queue.capture i s a = record { fd_open = a.fd_open; threads = a.threads }

  enter-Leaves :
      (q : Queue) (i : ℕ) (s : Session) → IsAbandoned s → Leaves IsAbandoned (enter answer q i s)
  unfolding enter
  enter-Leaves Queue.output i s a = record { fd_open = a.fd_open; threads = a.threads }
  enter-Leaves Queue.capture i s a =
      need-Leaves IsAbandoned (Call.queue_buffer i) s
        (λ n t. built (record t { queued = t.queued ++ i ∷ [] })) a
        (λ n. record { fd_open = a.fd_open; threads = a.threads })

  open_buffer-Leaves :
      (q : Queue) (places i : ℕ) (s : Session)
      → IsAbandoned s
      → Leaves IsAbandoned (open_buffer answer q places i s)
  unfolding open_buffer
  open_buffer-Leaves q places i s a = need-Leaves IsAbandoned (Call.query_buffer q i) s _ a (λ n.
      elim (Bool-cases (leb places i)) [
        | inl e ↦ rw e a
        | inr e ↦ rw e (
            need-Leaves IsAbandoned (Call.map_buffer q i) s
              (λ m u. enter answer q i (add_map q i u)) a
              (λ m. enter-Leaves q i (add_map q i s) (add_map-IsAbandoned q i s a)))
      ])

  pub open_buffers-Leaves :
      (q : Queue) (places first n : ℕ) (s : Session)
      → IsAbandoned s
      → Leaves IsAbandoned (open_buffers answer q places first n s)
  unfolding open_buffers
  open_buffers-Leaves q places first zero s a = a
  open_buffers-Leaves q places first (suc n) s a =
      and_then-Leaves IsAbandoned (open_buffer answer q places first s)
        (open_buffers answer q places (first + 1) n) (open_buffer-Leaves q places first s a)
        (λ t b. open_buffers-Leaves q places (first + 1) n t b)

pub threw-IsAbandoned :
    (P : Session → Type 0) (b : Built) (s : Session) → Leaves P b → b ≡ threw s → IsAbandoned s
threw-IsAbandoned P b s l e = subst (Leaves P) e l

-- The buffers that were mapped in turn are unmapped in turn.
pub unmap_all : (is : List ℕ) → unmap is is ≡ []
unfolding unmap erase
unmap_all [] = refl
unmap_all (i ∷ is) = rw (self i) (unmap_all is)
  where
    self : (i : ℕ) → (i == i) ≡ true
    self i = ground arith
