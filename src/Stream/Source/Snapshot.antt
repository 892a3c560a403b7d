-- ===== src/Stream/Source/Snapshot.antt =====
-- `take_snapshot` and the JPEG callback of src/stream/gst_camera_source.cpp.
use Prim.Native.String.{String}
use text.Mathlib.Text.{◌==◌ as str_eq}
use mathlib.Core.List.{append-nil}
use ras_pi_zero_cam.Prelude.{
  ℕ, ◌≡◌, refl, Bool, true, false, Option, none, some, List, [], ◌∷◌, ◌++◌, not, arith, sym, ap,
  Bool-cases, inl, inr, ◌∙◌,
}
use ras_pi_zero_cam.Stream.Source.{Source, Sample, on_jpeg_sample, on_jpeg_samples, take_snapshot}

-- The first sample that maps.
abbrev pub first_mapped : List Sample → Option Sample
first_mapped [] = none
first_mapped (x ∷ xs) = elim x.maps [ true ↦ some x | false ↦ first_mapped xs ]

-- What a snapshot at `path` stores from that sample.
abbrev pub stored : String → Option Sample → List (String × List ℕ)
stored path none = []
stored path (some x) = elim x.opens [ true ↦ (path, x.bytes) ∷ [] | false ↦ [] ]

abbrev pub arrived : Option Sample → Bool
arrived none = false
arrived (some x) = true

-- With nothing pending the samples reach the callback only.
not_pending :
    (s : Source) (xs : List Sample)
    → s.snapshot_pending ≡ false
    → ((on_jpeg_samples s xs).snapshot_pending ≡ false) × ((on_jpeg_samples s xs).saved ≡ s.saved)
unfolding on_jpeg_samples
not_pending s [] h = (h, refl)
not_pending s (x ∷ xs) h = ground (arith, not_pending (on_jpeg_sample s x) xs)

-- A sample that maps settles a pending snapshot; another changes nothing.
sample_maps :
    (s : Source) (x : Sample)
    → s.snapshot_pending ≡ true
    → str_eq s.snapshot_path "" ≡ false
    → x.maps ≡ true
    → ((on_jpeg_sample s x).snapshot_pending ≡ false)
      × ((on_jpeg_sample s x).saved ≡ s.saved ++ stored s.snapshot_path (some x))
unfolding on_jpeg_sample
sample_maps s x h e m = ground (arith, append-nil s.saved)

sample_fails : (s : Source) (x : Sample) → x.maps ≡ false → on_jpeg_sample s x ≡ s
unfolding on_jpeg_sample
sample_fails s x m = ground arith

pending :
    (s : Source) (xs : List Sample)
    → s.snapshot_pending ≡ true
    → str_eq s.snapshot_path "" ≡ false
    → ((on_jpeg_samples s xs).snapshot_pending ≡ not (arrived (first_mapped xs)))
      × ((on_jpeg_samples s xs).saved ≡ s.saved ++ stored s.snapshot_path (first_mapped xs))
unfolding on_jpeg_samples
pending s [] h e = (h, sym (append-nil s.saved))
pending s (x ∷ xs) h e = elim (Bool-cases x.maps) [
  | inl m ↦
      let first : first_mapped (x ∷ xs) ≡ some x = ground arith in
      let now = sample_maps s x h e m in
      let later = not_pending (on_jpeg_sample s x) xs now.0 in rw first (later.0, later.1 ∙ now.1)
  | inr m ↦
      let first : first_mapped (x ∷ xs) ≡ first_mapped xs = ground arith in
      let same = sample_fails s x m in
      let rest = pending s xs h e in
      rw first (
        ap (λ t. (on_jpeg_samples t xs).snapshot_pending) same ∙ rest.0,
        ap (λ t. (on_jpeg_samples t xs).saved) same ∙ rest.1,
      )
]

-- `take_snapshot` on a running source with a path succeeds exactly when a sample that maps arrives
-- while it waits. It stores the first such sample if the file opens, and nothing otherwise, also
-- where it succeeds; no snapshot stays pending.
pub take_snapshot_outcome :
    (s : Source) (path : String) (xs : List Sample)
    → s.running ≡ true
    → str_eq path "" ≡ false
    → let (s', ok) = take_snapshot s path xs in
      (ok ≡ arrived (first_mapped xs))
      × (s'.saved ≡ s.saved ++ stored path (first_mapped xs))
      × (s'.snapshot_pending ≡ false)
unfolding take_snapshot
take_snapshot_outcome s path xs run e =
    let armed = record s { snapshot_path = path; snapshot_pending = true } in
    ground (arith, pending armed xs refl e)
