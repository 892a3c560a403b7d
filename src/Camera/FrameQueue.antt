-- ===== src/Camera/FrameQueue.antt =====
-- `FrameQueue<N>` of src/camera/frame_buffer.h: a ring of `N` slots with two free-running 64-bit
-- counters. `N` is an argument of each operation, as it is a template argument there. A slot is a
-- shared pointer, `none` where it is null. `push` on a full queue drops its argument; the caller
-- sees that by the result.
pub mod Refine
pub mod Queue
pub mod Runs
use Prim.Native.Nat.{bit_and}
use ras_pi_zero_cam.Prelude.{
  ℕ, ◌+◌, ◌-◌, ◌%◌, ◌^◌, Bool, true, false, Option, none, List, length, get_or, set, replicate,
  ◌==◌, if◌then◌else◌,
}

pub record FrameQueue {ℓ} (A : Type ℓ) : Type ℓ where
  pub slots : List (Option A)
  pub write : ℕ
  pub read : ℕ

-- `size_t` addition and subtraction.
abbrev pub add_size : ℕ → ℕ → ℕ
add_size a b = (a + b) % 2 ^ 64

abbrev pub sub_size : ℕ → ℕ → ℕ
sub_size a b = (a + 2 ^ 64 - b) % 2 ^ 64

module _ {ℓ} {A : Type ℓ} where
  unfoldable pub empty_queue : ℕ → FrameQueue A
  empty_queue n = record { slots = replicate n none; write = 0; read = 0 }

  unfoldable pub push : ℕ → FrameQueue A → Option A → FrameQueue A × Bool
  push n q frame = if sub_size q.write q.read == n then (q, false) else (
    record q { slots = set q.slots (bit_and q.write (n - 1)) frame; write = add_size q.write 1 },
    true,
  )

  unfoldable pub pop : ℕ → FrameQueue A → FrameQueue A × Option A
  pop n q = if q.read == q.write then (q, none) else (
    record q { slots = set q.slots (bit_and q.read (n - 1)) none; read = add_size q.read 1 },
    get_or q.slots (bit_and q.read (n - 1)) none,
  )

  unfoldable pub size : FrameQueue A → ℕ
  size q = sub_size q.write q.read

  unfoldable pub empty : FrameQueue A → Bool
  empty q = size q == 0

  unfoldable pub full : ℕ → FrameQueue A → Bool
  full n q = size q == n

-- The two instances: `CameraFrameQueue` and `StillFrameQueue`.
abbrev pub camera_slots : ℕ
camera_slots = 8

abbrev pub still_slots : ℕ
still_slots = 2
