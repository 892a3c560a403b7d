-- ===== src/Camera/FrameQueue/Refine.antt =====
-- The ring of src/camera/frame_buffer.h refines a bounded first-in first-out queue, also where its
-- counters wrap.
use Prim.Native.Nat.{bit_and, ◌∣◌}
use mathlib.Core.Path.{ap₂}
use native.Mathlib.Nat.{
  mod-add-mod, mod-eq_of_lt, mod-lt, mod-eq-sub-mod, mod-mod_of_dvd, dvd-mul_right, add-suc,
  add-zero, pow-suc, pow-le-pow_right,
}
use native.Mathlib.Decide.{dec_lt}
use ras_pi_zero_cam.Prelude.{
  ==_iff, Bool-cases, inl, inr, ◌==◌, ℕ, zero, suc, ◌+◌, ◌-◌, ◌*◌, ◌%◌, ◌^◌, ◌≤◌, ◌<◌, ◌≡◌, refl,
  sym, ap, subst, ◌∙◌, ◌≢◌, Option, none, List, [], ◌∷◌, ◌++◌, length, get_or, set, length-set,
  get_or-set_self, get_or-set_ne, arith,
}
use ras_pi_zero_cam.Prelude.Bits.{bit_and-mask}
use ras_pi_zero_cam.Camera.FrameQueue.{FrameQueue, push, pop, size, add_size, sub_size}
use ras_pi_zero_cam.Camera.FrameQueue.Queue.{put, take_first}

-- `2 ^ k` slots, counters of 64 bits, at most `2 ^ k` handles stored.
pub record IsValid {ℓ} {A : Type ℓ} (k : ℕ) (q : FrameQueue A) : Type 0 where
  pub power : k < 64
  pub slots_len : length q.slots ≡ 2 ^ k
  pub write_lt : q.write < 2 ^ 64
  pub read_lt : q.read < 2 ^ 64
  pub bounded : sub_size q.write q.read ≤ 2 ^ k

-- A step of fewer than `n` places round a ring of `n` ends elsewhere.
step-ne : {n i d : ℕ} → i < n → 0 < d → d < n → (i + d) % n ≢ i
step-ne {n} {i} {d} hi hd hn = elim (dec_lt (i + d) n) [
  | yes below ↦ omega (arith, mod-eq_of_lt below)
  | no past ↦ omega (
    arith,
    mod-eq-sub-mod {n = i + d} {m = n} (omega arith),
    mod-eq_of_lt {n = i + d - n} {m = n} (omega arith),
  )
]

-- Two positions fewer than `n` places apart have different slots.
place-ne : {n d : ℕ} (r : ℕ) → 0 < d → d < n → (r + d) % n ≢ r % n
place-ne {n} {d} r hd hn = rw (← mod-add-mod r n d) (step-ne (mod-lt r (omega arith)) hd hn)

module _ {ℓ} {A : Type ℓ} (slots : List (Option A)) (n : ℕ) where
  -- The `c` handles from counter value `r` on.
  abbrev pub window : ℕ → ℕ → List (Option A)
  window r zero = []
  window r (suc c) = get_or slots (r % n) none ∷ window (r + 1) c

  pub length-window : (r c : ℕ) → length (window r c) ≡ c
  length-window r zero = refl
  length-window r (suc c) = ap suc (length-window (r + 1) c)

  -- Only the slot of a counter value matters.
  window-congr : (r s c : ℕ) → r % n ≡ s % n → window r c ≡ window s c
  window-congr r s zero e = refl
  window-congr r s (suc c) e = ap₂ ◌∷◌ (ap (λ i. get_or slots i none) e) (
      window-congr (r + 1) (s + 1) c
        (sym (mod-add-mod r n 1) ∙ ap (λ i. (i + 1) % n) e ∙ mod-add-mod s n 1))

  window_of_ne_zero :
      (r c : ℕ) → c ≢ 0 → window r c ≡ get_or slots (r % n) none ∷ window (r + 1) (c - 1)
  window_of_ne_zero r zero h = absurd (h refl)
  window_of_ne_zero r (suc c) h = ap (λ d. window r (suc d)) (omega arith)

  window_of_zero : (r c : ℕ) → c ≡ 0 → window r c ≡ []
  window_of_zero r c h = ap (window r) h

  window-snoc : (r c : ℕ) → window r (suc c) ≡ window r c ++ get_or slots ((r + c) % n) none ∷ []
  window-snoc r zero = ap (λ j. get_or slots (j % n) none ∷ []) (omega arith)
  window-snoc r (suc c) = ap (◌∷◌ (get_or slots (r % n) none)) (
      window-snoc (r + 1) c
      ∙ ap (λ j. window (r + 1) c ++ get_or slots (j % n) none ∷ []) (omega arith))

module _ {ℓ} {A : Type ℓ} (slots : List (Option A)) (n : ℕ) (x : Option A) where
  -- A write outside a window leaves it alone.
  window-set_outside :
      (i r c : ℕ)
      → ((j : ℕ) → j < c → i ≢ (r + j) % n)
      → window (set slots i x) n r c ≡ window slots n r c
  window-set_outside i r zero h = refl
  window-set_outside i r (suc c) h =
      ap₂ ◌∷◌
        (get_or-set_ne slots x none (subst (λ j. i ≢ j % n) (omega arith) (h 0 (omega arith))))
        (window-set_outside i (r + 1) c
          λ j hj. subst (λ k. i ≢ k % n) (omega arith) (h (j + 1) (omega arith)))

  -- Writing the slot behind a window extends it.
  window-push :
      (r c i : ℕ)
      → n ≤ length slots
      → c < n
      → i ≡ (r + c) % n
      → window (set slots i x) n r (suc c) ≡ window slots n r c ++ x ∷ []
  window-push r c i hs hc e =
      window-snoc (set slots i x) n r c
      ∙ ap₂ (λ w y. w ++ y ∷ []) (window-set_outside i r c apart) written
    where
      apart : (j : ℕ) → j < c → i ≢ (r + j) % n
      apart j hj = rw (e, split) (place-ne (r + j) (omega arith) (omega arith))
        where
          split : r + c ≡ r + j + (c - j)
          split = omega arith

      written : get_or (set slots i x) ((r + c) % n) none ≡ x
      written = rw (← e) (
          get_or-set_self slots i x none
            (rw e (omega (arith, mod-lt (r + c) {m = n} (omega arith)))))

  -- Clearing the slot before a window leaves it alone.
  window-pop :
      (r c i : ℕ)
      → c < n
      → i ≡ r % n
      → window (set slots i x) n (r + 1) c ≡ window slots n (r + 1) c
  window-pop r c i hc e = window-set_outside i (r + 1) c λ j hj p.
      place-ne {d = suc j} r (omega arith) (omega arith) (ap (λ k. k % n) (omega arith) ∙ sym p ∙ e)

-- The handles in the ring, oldest first.
abbrev pub contents {ℓ} : {A : Type ℓ} → ℕ → FrameQueue A → List (Option A)
contents k q = window q.slots (2 ^ k) q.read (sub_size q.write q.read)

pow-split : (k d : ℕ) → 2 ^ (k + d) ≡ 2 ^ k * 2 ^ d
pow-split k zero = ap (λ j. 2 ^ j) (add-zero k) ∙ omega arith
pow-split k (suc d) =
    ap (λ j. 2 ^ j) (add-suc k d) ∙ rw (pow-suc 2 (k + d), pow-suc 2 d, pow-split k d) (omega arith)

-- The counters wrap at a multiple of the capacity, so the slot of a counter survives the wrap.
wrap-mod : (k a : ℕ) → k < 64 → a % 2 ^ 64 % 2 ^ k ≡ a % 2 ^ k
wrap-mod k a h =
    mod-mod_of_dvd (2 ^ k) a
      (subst (λ j. 2 ^ k ∣ j) (sym whole) (dvd-mul_right (2 ^ k) (2 ^ (64 - k))))
  where
    whole : 2 ^ 64 ≡ 2 ^ k * 2 ^ (64 - k)
    whole = ap (λ j. 2 ^ j) {x = 64} {y = k + (64 - k)} (omega arith) ∙ pow-split k (64 - k)

module _ {ℓ} {A : Type ℓ} (k : ℕ) (q : FrameQueue A) (v : IsValid k q) where
  open v use {power, slots_len, write_lt, read_lt, bounded}

  small : 2 ^ k ≤ 2 ^ 63
  small = pow-le-pow_right {n = 2} (omega arith) {i = k} {j = 63} (omega arith)

  write_place : bit_and q.write (2 ^ k - 1) ≡ (q.read + sub_size q.write q.read) % 2 ^ k
  write_place =
      bit_and-mask k q.write
      ∙ ap (λ j. j % 2 ^ k) {y = (q.read + sub_size q.write q.read) % 2 ^ 64} (omega arith)
      ∙ wrap-mod k _ power

  next_place : add_size q.read 1 % 2 ^ k ≡ (q.read + 1) % 2 ^ k
  next_place = wrap-mod k (q.read + 1) power

  -- `push` answers as the bounded queue does, and stores the handle at the end of the queue.
  pub push_refines :
      (x : Option A)
      → let (q', done) = push (2 ^ k) q x in (contents k q', done) ≡ put (2 ^ k) (contents k q) x
  unfolding push
  push_refines x = ground (
    arith,
    small,
    length-window q.slots (2 ^ k) q.read (sub_size q.write q.read),
    window-push q.slots (2 ^ k) x q.read (sub_size q.write q.read) (bit_and q.write (2 ^ k - 1)),
    write_place,
  )

  -- `pop` answers as the queue does: the oldest handle, or a null pointer on an empty queue.
  pub pop_refines :
      let (q', frame) = pop (2 ^ k) q in (contents k q', frame) ≡ take_first (contents k q)
  unfolding pop
  pop_refines = elim (Bool-cases (q.read == q.write)) [
    | inl drained ↦
        let level : sub_size q.write q.read ≡ 0 =
          omega (arith, (==_iff q.read q.write).0 drained) in
        ground (arith, window_of_zero q.slots (2 ^ k) q.read (sub_size q.write q.read) level)
    | inr stocked ↦
        let apart : q.read ≢ q.write = ground arith in
        let level : sub_size q.write q.read ≢ 0 = omega arith in
        let rest = sub_size q.write q.read - 1 in
        let next = set q.slots (bit_and q.read (2 ^ k - 1)) none in
        let slot = bit_and-mask k q.read in
        ground (
          arith,
          small,
          slot,
          window_of_ne_zero q.slots (2 ^ k) q.read (sub_size q.write q.read) level,
          window-pop q.slots (2 ^ k) none q.read rest (bit_and q.read (2 ^ k - 1)),
          window-congr next (2 ^ k) (add_size q.read 1) (q.read + 1) rest next_place,
        )
  ]

  pub push-IsValid : (x : Option A) → IsValid k (push (2 ^ k) q x).0
  unfolding push
  push-IsValid x = ground (arith, small, length-set q.slots (bit_and q.write (2 ^ k - 1)) x)

  pub pop-IsValid : IsValid k (pop (2 ^ k) q).0
  unfolding pop
  pop-IsValid = ground (arith, small, length-set q.slots (bit_and q.read (2 ^ k - 1)) none)

  pub size-length : size q ≡ length (contents k q)
  unfolding size
  size-length = sym (length-window q.slots (2 ^ k) q.read (sub_size q.write q.read))
