-- ===== src/Camera/FrameQueue/Queue.antt =====
-- The contract of `FrameQueue<N>`: a first-in first-out queue of at most `cap` handles.
use ras_pi_zero_cam.Prelude.{
  ℕ, Bool, true, false, Option, none, List, [], ◌∷◌, ◌++◌, length, ◌==◌, if◌then◌else◌,
}

module _ {ℓ} {A : Type ℓ} where
  abbrev pub put : ℕ → List A → A → List A × Bool
  put cap q x = if length q == cap then (q, false) else (q ++ x ∷ [], true)

  abbrev pub take_first : List (Option A) → List (Option A) × Option A
  take_first [] = ([], none)
  take_first (x ∷ q) = (q, x)

-- A client's calls, and what it sees of each.
pub data Call {ℓ} (A : Type ℓ) : Type ℓ where
  pushes : Option A → Call A
  pops : Call A

pub data Reply {ℓ} (A : Type ℓ) : Type ℓ where
  pushed : Bool → Reply A
  popped : Option A → Reply A

module _ {ℓ} {A : Type ℓ} (cap : ℕ) where
  unfoldable pub run : List (Option A) → List (Call A) → List (Reply A)
  run q [] = []
  run q (pushes x ∷ calls) = let (q', done) = put cap q x in pushed done ∷ run q' calls
  run q (pops ∷ calls) = let (q', frame) = take_first q in popped frame ∷ run q' calls
