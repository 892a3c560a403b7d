-- ===== src/Stream/JpegMt/Idle.antt =====
-- Which lanes of src/stream/jpeg_mt_encoder.cpp stay idle.
use ras_pi_zero_cam.Prelude.{
  ℕ, zero, suc, ◌≡◌, refl, ap, true, false, Bool-cases, inl, inr, Option, none, some, List, [], ◌∷◌,
  length, ◌==◌,
}
use ras_pi_zero_cam.Stream.JpegMt.{
  EncodeItem, OutputItem, Lane, lane, start_lane, skip, pop_expected, finish_lane,
}
use ras_pi_zero_cam.Stream.JpegMt.Shutdown.{idle_at}

-- A change of the lanes that keeps their number, and the idle ones idle.
pub record Kept (ls ls' : List Lane) : Type 0 where
  pub size : length ls' ≡ length ls
  pub idle : (i : ℕ) → idle_at i ls ≡ true → idle_at i ls' ≡ true

abbrev pub KeptIf : List Lane → Option (OutputItem × List Lane) → Type 0
KeptIf ls none = Unit {0}
KeptIf ls (some (x, ls')) = Kept ls ls'

abbrev pub StartedIf : List Lane → Option (List Lane) → Type 0
StartedIf ls none = Unit {0}
StartedIf ls (some ls') = length ls' ≡ length ls

Kept-cons : (l : Lane) (ls ls' : List Lane) → Kept ls ls' → Kept (l ∷ ls) (l ∷ ls')
Kept-cons l ls ls' k = record { size = ap suc k.size; idle = at l }
  where
    at : (l : Lane) (i : ℕ) → idle_at i (l ∷ ls) ≡ true → idle_at i (l ∷ ls') ≡ true
    at (lane none out) zero h = refl
    at (lane (some x) out) zero h = h
    at l (suc i) h = k.idle i h

skip-KeptIf :
    (l : Lane) (ls : List Lane) (o : Option (OutputItem × List Lane))
    → KeptIf ls o
    → KeptIf (l ∷ ls) (skip l o)
skip-KeptIf l ls none k = tt
skip-KeptIf l ls (some (x, ls')) k = Kept-cons l ls ls' k

popped-Kept :
    (busy : Option EncodeItem) (x : OutputItem) (out : List OutputItem) (ls : List Lane)
    → Kept (lane busy (x ∷ out) ∷ ls) (lane busy out ∷ ls)
popped-Kept busy x out ls = record { size = refl; idle = at busy }
  where
    at :
        (busy : Option EncodeItem) (i : ℕ)
        → idle_at i (lane busy (x ∷ out) ∷ ls) ≡ true
        → idle_at i (lane busy out ∷ ls) ≡ true
    at none zero h = refl
    at (some y) zero h = h
    at busy (suc i) h = h

pub pop_expected-KeptIf : (n : ℕ) (ls : List Lane) → KeptIf ls (pop_expected n ls)
unfolding pop_expected
pop_expected-KeptIf n [] = tt
pop_expected-KeptIf n (lane busy [] ∷ ls) =
    skip-KeptIf (lane busy []) ls (pop_expected n ls) (pop_expected-KeptIf n ls)
pop_expected-KeptIf n (lane busy (x ∷ out) ∷ ls) = elim (Bool-cases (x.index == n)) [
  | inl e ↦ rw e (popped-Kept busy x out ls)
  | inr e ↦
      rw e (skip-KeptIf (lane busy (x ∷ out)) ls (pop_expected n ls) (pop_expected-KeptIf n ls))
]

pub start_lane-StartedIf :
    (i : ℕ) (x : EncodeItem) (ls : List Lane) → StartedIf ls (start_lane i x ls)
unfolding start_lane
start_lane-StartedIf i x [] = tt
start_lane-StartedIf zero x (lane none out ∷ ls) = refl
start_lane-StartedIf zero x (lane (some y) out ∷ ls) = tt
start_lane-StartedIf (suc i) x (l ∷ ls) = go (start_lane i x ls) (start_lane-StartedIf i x ls)
  where
    go :
        (o : Option (List Lane))
        → StartedIf ls o
        → StartedIf (l ∷ ls) (elim o [ none ↦ none | some ls' ↦ some (l ∷ ls') ])
    go none h = tt
    go (some ls') h = ap suc h

module _ (compress : ℕ → List ℕ) where
  pub finish_lane-Kept : (j : ℕ) (ls : List Lane) → Kept ls (finish_lane compress j ls)
  unfolding finish_lane
  finish_lane-Kept j [] = record { size = refl; idle = λ i h. h }
  finish_lane-Kept zero (lane none out ∷ ls) = record { size = refl; idle = λ i h. h }
  finish_lane-Kept zero (lane (some x) out ∷ ls) = record { size = refl; idle = at }
    where
      at :
          (i : ℕ)
          → idle_at i (lane (some x) out ∷ ls) ≡ true
          → idle_at i (finish_lane compress zero (lane (some x) out ∷ ls)) ≡ true
      at zero h = unfold finish_lane in refl
      at (suc i) h = unfold finish_lane in h
  finish_lane-Kept (suc j) (l ∷ ls) =
      Kept-cons l ls (finish_lane compress j ls) (finish_lane-Kept j ls)

  -- A lane that is idle has nothing to finish.
  pub finish_lane-idle :
      (j : ℕ) (ls : List Lane) → ((i : ℕ) → idle_at i ls ≡ true) → finish_lane compress j ls ≡ ls
  unfolding finish_lane
  finish_lane-idle j [] h = refl
  finish_lane-idle zero (lane none out ∷ ls) h = refl
  finish_lane-idle zero (lane (some x) out ∷ ls) h = absurd (differ (h zero))
    where
      differ : ¬ (false ≡ true)
      differ e = cc
  finish_lane-idle (suc j) (l ∷ ls) h = ap (◌∷◌ l) (finish_lane-idle j ls (λ i. h (suc i)))
