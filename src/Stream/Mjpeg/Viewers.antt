-- ===== src/Stream/Mjpeg/Viewers.antt =====
-- What a viewer of src/stream/mjpeg_server.cpp gets.
use ras_pi_zero_cam.Prelude.{
  Bool-cases, inl, inr, ℕ, ◌+◌, ◌-◌, ◌≡◌, ◌≢◌, ◌<◌, ◌≤◌, refl, sym, ap, ◌∙◌, Bool, true, false,
  List, [], ◌∷◌, ◌++◌, length, length-append, get_or, get_or-append_left, get_or-append_last, leb,
  arith,
}
use ras_pi_zero_cam.Camera.Resolution.{ResolutionConfig}
use ras_pi_zero_cam.Stream.Mjpeg.{
  Mjpeg, Viewer, Event, publishes, provides, on_jpeg_ready, wait_for_jpeg, send_part, provide,
  handle_stream, step, run,
}

-- The written parts carry rising numbers above `lo`, up to `hi`, and part `k` is the `k`-th JPEG
-- that was published.
abbrev pub Rising : List (List ℕ) → ℕ → ℕ → List (ℕ × List ℕ) → Type 0
Rising published lo hi [] = lo ≤ hi
Rising published lo hi ((k, jpeg) ∷ parts) =
    (lo < k) × ((get_or published (k - 1) [] ≡ jpeg) × Rising published k hi parts)

Rising-hi :
    (published : List (List ℕ)) (lo hi : ℕ) (parts : List (ℕ × List ℕ))
    → Rising published lo hi parts
    → lo ≤ hi
Rising-hi published lo hi [] h = h
Rising-hi published lo hi ((k, jpeg) ∷ parts) h =
    omega (arith, h.0, Rising-hi published k hi parts h.1.1)

Rising-grow :
    (published : List (List ℕ)) (jpeg : List ℕ) (lo hi : ℕ) (parts : List (ℕ × List ℕ))
    → hi ≤ length published
    → Rising published lo hi parts
    → Rising (published ++ jpeg ∷ []) lo hi parts
Rising-grow published jpeg lo hi [] le h = h
Rising-grow published jpeg lo hi ((k, part) ∷ parts) le h = (
  h.0,
  (
    get_or-append_left published (jpeg ∷ []) (k - 1) []
          (omega (arith, h.0, Rising-hi published k hi parts h.1.1))
        ∙ h.1.0,
    Rising-grow published jpeg k hi parts le h.1.1,
  ),
)

Rising-snoc :
    (published : List (List ℕ)) (lo hi k : ℕ) (jpeg : List ℕ) (parts : List (ℕ × List ℕ))
    → hi < k
    → get_or published (k - 1) [] ≡ jpeg
    → Rising published lo hi parts
    → Rising published lo k (parts ++ (k, jpeg) ∷ [])
Rising-snoc published lo hi k jpeg [] lt e h = (omega (arith, h), (e, omega arith))
Rising-snoc published lo hi k jpeg ((n, part) ∷ parts) lt e h =
    (h.0, (h.1.0, Rising-snoc published n hi k jpeg parts lt e h.1.1))

pub record Follows (s : Mjpeg) (v : Viewer) : Type 0 where
  pub numbered : s.latest_seq ≡ length s.published
  pub latest : 0 < s.latest_seq → get_or s.published (s.latest_seq - 1) [] ≡ s.latest_jpeg
  pub behind : v.prev_seq ≤ s.latest_seq
  pub parts : Rising s.published 0 v.prev_seq v.written

publish-Follows :
    (s : Mjpeg) (v : Viewer) (jpeg : List ℕ) → Follows s v → Follows (on_jpeg_ready s jpeg) v
unfolding on_jpeg_ready
publish-Follows s v jpeg f = record {
  numbered = omega (arith, f.numbered, length-append s.published (jpeg ∷ []));
  latest = λ h.
      ap (λ n. get_or (s.published ++ jpeg ∷ []) n []) {x = s.latest_seq + 1 - 1}
        {y = length s.published} (omega (arith, f.numbered))
      ∙ get_or-append_last s.published jpeg [];
  behind = omega (arith, f.behind);
  parts =
      Rising-grow s.published jpeg 0 v.prev_seq v.written (omega (arith, f.behind, f.numbered))
        f.parts;
}

send_part-Follows :
    (s : Mjpeg) (v : Viewer) (ok : Bool) (jpeg : List ℕ)
    → v.prev_seq < s.latest_seq
    → jpeg ≡ s.latest_jpeg
    → Follows s v
    → Follows s (send_part v ok (jpeg, s.latest_seq)).0
send_part-Follows s v ok [] lt e f = f
send_part-Follows s v ok (b ∷ jpeg) lt e f = record {
  numbered = f.numbered;
  latest = f.latest;
  behind = omega arith;
  parts =
      Rising-snoc s.published 0 v.prev_seq s.latest_seq (b ∷ jpeg) v.written lt
        (f.latest (omega arith) ∙ sym e) f.parts;
}

above : (a b : ℕ) → leb a b ≡ false → b < a
above a b h = ground arith

provide-Follows : (s : Mjpeg) (v : Viewer) (ok : Bool) → Follows s v → Follows s (provide s v ok).0
unfolding provide wait_for_jpeg
provide-Follows s v ok f = elim (Bool-cases (leb s.latest_seq v.prev_seq)) [
  | inl e ↦ rw e f
  | inr e ↦ rw e (send_part-Follows s v ok s.latest_jpeg (above s.latest_seq v.prev_seq e) refl f)
]

run-Follows :
    (p : Mjpeg × Viewer) (es : List Event) → Follows p.0 p.1 → Follows (run p es).0 (run p es).1
unfolding run step
run-Follows p [] f = f
run-Follows (s, v) (publishes jpeg ∷ es) f =
    run-Follows (on_jpeg_ready s jpeg, v) es (publish-Follows s v jpeg f)
run-Follows (s, v) (provides ok ∷ es) f =
    run-Follows (s, (provide s v ok).0) es (provide-Follows s v ok f)

abbrev pub fresh : ResolutionConfig → Mjpeg
fresh cfg = record {
  running = true;
  cfg = cfg;
  latest_jpeg = [];
  latest_seq = 0;
  client_count = 0;
  published = [];
}

abbrev pub no_viewer : Viewer
no_viewer = record { prev_seq = 0; written = [] }

begin : (cfg : ResolutionConfig) → Follows (fresh cfg) no_viewer
begin cfg = record {
  numbered = refl;
  latest = λ h. absurd (omega arith);
  behind = omega arith;
  parts = omega arith;
}

joins : (s : Mjpeg) (v : Viewer) → Follows s v → Follows (handle_stream s).0 (handle_stream s).1
unfolding handle_stream
joins s v f = record {
  numbered = f.numbered;
  latest = f.latest;
  behind = omega arith;
  parts = omega arith;
}

sends :
    (v : Viewer) (ok : Bool) (jpeg : List ℕ) (seq : ℕ)
    → jpeg ≢ []
    → (send_part v ok (jpeg, seq)).0.written ≡ v.written ++ (seq, jpeg) ∷ []
sends v ok [] seq h = absurd (h refl)
sends v ok (b ∷ jpeg) seq h = refl

is_newer : (a b : ℕ) → b < a → leb a b ≡ false
is_newer a b h = ground arith

newer :
    (s : Mjpeg) (v : Viewer) (ok : Bool)
    → v.prev_seq < s.latest_seq
    → s.latest_jpeg ≢ []
    → (provide s v ok).0.written ≡ v.written ++ (s.latest_seq, s.latest_jpeg) ∷ []
unfolding provide wait_for_jpeg
newer s v ok lt full =
    rw (is_newer s.latest_seq v.prev_seq lt) (sends v ok s.latest_jpeg s.latest_seq full)

-- For a viewer that joins after any events, whatever then happens: the parts that it got carry
-- rising numbers, so that none comes twice or late; part `k` is the `k`-th JPEG that was published;
-- and the next call of its provider, when a JPEG that is not empty is newer than its last part, writes
-- the latest JPEG.
pub viewer_gets_published :
    (cfg : ResolutionConfig) (before es : List Event) (ok : Bool)
    → let joined = handle_stream (run (fresh cfg, no_viewer) before).0 in
      let s = (run joined es).0 in
      let v = (run joined es).1 in
      Rising s.published 0 v.prev_seq v.written
      × ((v.prev_seq ≤ s.latest_seq)
          × (v.prev_seq < s.latest_seq
              → s.latest_jpeg ≢ []
              → (provide s v ok).0.written ≡ v.written ++ (s.latest_seq, s.latest_jpeg) ∷ []))
viewer_gets_published cfg before es ok =
    let joined = handle_stream (run (fresh cfg, no_viewer) before).0 in
    let f = run-Follows joined es (
      joins (run (fresh cfg, no_viewer) before).0 (run (fresh cfg, no_viewer) before).1
        (run-Follows (fresh cfg, no_viewer) before (begin cfg))) in
    (f.parts, (f.behind, newer (run joined es).0 (run joined es).1 ok))
