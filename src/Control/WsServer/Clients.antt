-- ===== src/Control/WsServer/Clients.antt =====
-- The set of clients and their count in src/control/ws_server.cpp.
use ras_pi_zero_cam.Prelude.{
  Bool-cases, inl, inr, ℕ, ◌+◌, ◌≡◌, refl, sym, ap, subst, ◌∙◌, true, false, List, [], ◌∷◌, length,
  ◌==◌, arith,
}
use ras_pi_zero_cam.Control.Dispatcher.{Outcome, returns, throws}
use ras_pi_zero_cam.Control.WsServer.{
  WsServer, Event, connects, reads_text, reads_other, read_fails, is_in, insert, erase, add_client,
  remove_client, opened, reply, closed, step, run, fresh,
}

length-erase : (ws : ℕ) (cs : List ℕ) → is_in ws cs ≡ true → length (erase ws cs) + 1 ≡ length cs
unfolding erase
length-erase ws [] h = absurd (no h)
  where
    no : ¬ (false ≡ true)
    no e = cc
length-erase ws (c ∷ cs) h = elim (Bool-cases (c == ws)) [
  | inl e ↦ rw e (omega arith)
  | inr e ↦ rw e (omega (arith, length-erase ws cs (rw e at h)))
]

-- Each client's handler runs, and the other way round.
pub record Tracks (s : WsServer) : Type 0 where
  pub same : s.clients ≡ s.handling
  pub counted : s.client_count ≡ length s.handling

module _ (on_message : List ℕ → Outcome (List ℕ)) (answers : List ℕ → List ℕ)
    (calm : (msg : List ℕ) → on_message msg ≡ returns (answers msg)) where
  replied-Tracks :
      (s : WsServer) (ws : ℕ) (o : Outcome (List ℕ)) (a : List ℕ)
      → o ≡ returns a
      → Tracks s
      → Tracks (reply s ws o)
  replied-Tracks s ws (returns []) a e t = t
  replied-Tracks s ws (returns (b ∷ bs)) a e t = record { same = t.same; counted = t.counted }
  replied-Tracks s ws (throws what) a e t = absurd (apart e)
    where
      apart : ¬ (throws what ≡ returns a)
      apart e = cc

  step-Tracks : (s : WsServer) (v : Event) → Tracks s → Tracks (step on_message s v)
  unfolding step add_client remove_client
  step-Tracks s (connects ws) t = elim (Bool-cases (is_in ws s.handling)) [
    | inl e ↦ subst Tracks (rw e) t
    | inr e ↦
        let same : insert ws s.clients ≡ ws ∷ s.handling = ap (insert ws) t.same ∙ rw e refl in
        let after : Tracks (add_client (opened s ws) ws) = record {
          same = same;
          counted = omega (arith, t.counted);
        } in
        subst Tracks (rw e) after
  ]
  step-Tracks s (reads_text ws msg) t = elim (Bool-cases (is_in ws s.handling)) [
    | inl e ↦ subst Tracks (rw e) (replied-Tracks s ws (on_message msg) (answers msg) (calm msg) t)
    | inr e ↦ subst Tracks (rw e) t
  ]
  step-Tracks s (reads_other ws) t = t
  step-Tracks s (read_fails ws) t = elim (Bool-cases (is_in ws s.handling)) [
    | inl e ↦
        let after : Tracks (closed (remove_client s ws) ws) = record {
          same = ap (erase ws) t.same;
          counted = omega (arith, t.counted, length-erase ws s.handling e);
        } in
        subst Tracks (rw e) after
    | inr e ↦ subst Tracks (rw e) t
  ]

  run_from-Tracks : (s : WsServer) (vs : List Event) → Tracks s → Tracks (run on_message s vs)
  unfolding run
  run_from-Tracks s [] t = t
  run_from-Tracks s (v ∷ vs) t = run_from-Tracks (step on_message s v) vs (step-Tracks s v t)

  -- While the message handler never throws, after any events the clients are exactly the connections
  -- whose handler runs, and their count is the length of the set.
  pub clients_are_tracked :
      (vs : List Event)
      → let s = run on_message fresh vs in
        (s.clients ≡ s.handling) × (s.client_count ≡ length s.clients)
  clients_are_tracked vs =
      let t = run_from-Tracks fresh vs (record { same = refl; counted = refl }) in
      (t.same, t.counted ∙ ap length (sym t.same))

-- When the message handler throws in the connection of a client, the handler of that connection is
-- left, but the client stays in the set that `broadcast` goes through, and in the count.
pub throwing_client_stays :
    (on_message : List ℕ → Outcome (List ℕ)) (s : WsServer) (ws : ℕ) (msg what : List ℕ)
    → on_message msg ≡ throws what
    → is_in ws s.handling ≡ true
    → let after = step on_message s (reads_text ws msg) in
      (after.clients ≡ s.clients)
      × ((after.client_count ≡ s.client_count) × (length after.handling + 1 ≡ length s.handling))
unfolding step
throwing_client_stays on_message s ws msg what e h =
    rw (h, e) (refl, (refl, length-erase ws s.handling h))
