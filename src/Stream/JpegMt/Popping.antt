-- ===== src/Stream/JpegMt/Popping.antt =====
-- The search of the output thread of src/stream/jpeg_mt_encoder.cpp for the next frame.
use ras_pi_zero_cam.Prelude.{
  ==_iff, Bool-cases, inl, inr, ℕ, suc, ◌+◌, ◌≡◌, ◌≢◌, ◌<◌, refl, Option, none, some, List, [], ◌∷◌,
  ◌==◌, false, arith,
}
use ras_pi_zero_cam.Stream.JpegMt.{EncodeItem, OutputItem, Lane, lane, skip, pop_expected}
use ras_pi_zero_cam.Stream.JpegMt.Counts.{hit, count_lanes, Rises-lower, Sorted, count_out-Rises}

abbrev pub AllIdle : List Lane → Type 0
AllIdle [] = Unit {0}
AllIdle (lane none out ∷ ls) = AllIdle ls
AllIdle (lane (some x) out ∷ ls) = ⊥

-- Popping takes one item of the index out of the lanes, and leaves them sorted and as idle as before.
abbrev pub Taken : ℕ → ℕ → ℕ → List Lane → Option (OutputItem × List Lane) → Type 0
Taken m n k ls none = Unit {0}
Taken m n k ls (some (x, ls')) =
    Sorted m ls' × (count_lanes k ls ≡ count_lanes k ls' + hit k n) × (AllIdle ls → AllIdle ls')

skip-Taken :
    (m n k : ℕ) (l : Lane) (ls : List Lane) (o : Option (OutputItem × List Lane))
    → Sorted m (l ∷ [])
    → Taken m n k ls o
    → Taken m n k (l ∷ ls) (skip l o)
skip-Taken m n k l ls none h t = tt
skip-Taken m n k (lane none out) ls (some (x, ls')) h t =
    ((h.0, t.0), omega (arith, t.1), λ idle. t.2 idle)
skip-Taken m n k (lane (some y) out) ls (some (x, ls')) h t =
    ((h.0, h.1, t.0), omega (arith, t.1), λ idle. absurd idle)

Sorted-tail :
    (m : ℕ) (l : Lane) (ls : List Lane) → Sorted m (l ∷ ls) → Sorted m (l ∷ []) × Sorted m ls
Sorted-tail m (lane none out) ls h = ((h.0, tt), h.1)
Sorted-tail m (lane (some x) out) ls h = ((h.0, h.1, tt), h.2)

hit_eq : (k i n : ℕ) → i ≡ n → hit k i ≡ hit k n
hit_eq k i n e = ground arith

front-Taken :
    (busy : Option EncodeItem) (m n k : ℕ) (x : OutputItem) (out : List OutputItem) (ls : List Lane)
    → x.index ≡ n
    → Sorted m (lane busy (x ∷ out) ∷ ls)
    → Taken m n k (lane busy (x ∷ out) ∷ ls) (some (x, lane busy out ∷ ls))
front-Taken none m n k x out ls e h = (
  (Rises-lower 0 (suc x.index) m out (omega arith) h.0.1, h.1),
  omega (arith, hit_eq k x.index n e),
  λ idle. idle,
)
front-Taken (some y) m n k x out ls e h = (
  (Rises-lower 0 (suc x.index) y.index out (omega arith) h.0.1, h.1, h.2),
  omega (arith, hit_eq k x.index n e),
  λ idle. idle,
)

pub pop_expected-Taken :
    (m n k : ℕ) (ls : List Lane) → Sorted m ls → Taken m n k ls (pop_expected n ls)
unfolding pop_expected
pop_expected-Taken m n k [] h = tt
pop_expected-Taken m n k (lane busy [] ∷ ls) h =
    let parts = Sorted-tail m (lane busy []) ls h in
    skip-Taken m n k (lane busy []) ls (pop_expected n ls) parts.0
      (pop_expected-Taken m n k ls parts.1)
pop_expected-Taken m n k (lane busy (x ∷ out) ∷ ls) h =
    let parts = Sorted-tail m (lane busy (x ∷ out)) ls h in
    elim (Bool-cases (x.index == n)) [
      | inl e ↦ rw e (front-Taken busy m n k x out ls ((==_iff x.index n).0 e) h)
      | inr e ↦ rw e (
          skip-Taken m n k (lane busy (x ∷ out)) ls (pop_expected n ls) parts.0
            (pop_expected-Taken m n k ls parts.1))
    ]

found :
    (x : OutputItem) (ls : List Lane)
    → ¬ ◌≡◌ {A = Option (OutputItem × List Lane)} (some (x, ls)) none
found x ls e = cc

hit_self : (n : ℕ) → hit n n ≡ 1
hit_self n = ground arith

hit_ne : (n k : ℕ) → n < k → hit n k ≡ 0
hit_ne n k h = ground arith

ne_of : (n k : ℕ) → (k == n) ≡ false → k ≢ n
ne_of n k h = ground arith

past : (n k : ℕ) → ¬ (k < n) → k ≢ n → n < k
past n k h e = omega arith

-- When no lane holds an index below `n`, the search fails only if no lane holds `n` itself.
skip-none : (l : Lane) (o : Option (OutputItem × List Lane)) → skip l o ≡ none → o ≡ none
skip-none l none h = refl
skip-none l (some (x, ls)) h = cc

pub pop_expected-none :
    (m n : ℕ) (ls : List Lane)
    → Sorted m ls
    → AllIdle ls
    → ((k : ℕ) → k < n → count_lanes k ls ≡ 0)
    → pop_expected n ls ≡ none
    → count_lanes n ls ≡ 0
unfolding pop_expected
pop_expected-none m n [] h idle low e = refl
pop_expected-none m n (lane (some y) out ∷ ls) h idle low e = absurd idle
pop_expected-none m n (lane none [] ∷ ls) h idle low e = omega (
  arith,
  pop_expected-none m n ls h.1 idle (λ k lt. omega (arith, low k lt))
      (skip-none (lane none []) (pop_expected n ls) e),
)
pop_expected-none m n (lane none (x ∷ out) ∷ ls) h idle low e = elim (Bool-cases (x.index == n)) [
  | inl at ↦ absurd (found x (lane none out ∷ ls) (rw at at e))
  | inr ne ↦
      let rest = skip-none (lane none (x ∷ out)) (pop_expected n ls) (rw ne at e) in
      let ih = pop_expected-none m n ls h.1 idle (λ k lt. omega (arith, low k lt)) rest in
      let above : n < x.index =
        past n x.index (λ lt. omega (arith, low x.index lt, hit_self x.index))
          (ne_of n x.index ne) in
      omega (
        arith,
        ih,
        hit_ne n x.index above,
        count_out-Rises n (suc x.index) m out (omega arith) h.0.1,
      )
]
