-- ===== src/Main/Updates/Delivered.antt =====
-- What a client of the WebSocket server gets of the battery updates and of the messages of the main
-- loop of src/main.cpp.
use mathlib.Core.List.{append_assoc, append-nil, map-append}
use ras_pi_zero_cam.Prelude.{
  ℕ, zero, suc, ◌+◌, ◌≡◌, refl, sym, ap, subst, ◌∙◌, Bool, true, false, Bool-cases, inl, inr, List,
  [], ◌∷◌, ◌++◌, map, replicate, ◌==◌, ==_iff, if◌then◌else◌, arith,
}
use ras_pi_zero_cam.Prelude.Counts.{once, count}
use ras_pi_zero_cam.Prelude.Text.{Bytes}
use ras_pi_zero_cam.Power.Ina219.{Bus, Floats, Ina219}
use ras_pi_zero_cam.Power.Battery.{Monitor, Phase, head, napping, ended, poll, tick}
use ras_pi_zero_cam.Power.Battery.Json.{build_json, get_json}
use ras_pi_zero_cam.Control.Dispatcher.{Outcome, returns, throws}
use ras_pi_zero_cam.Control.WsServer
use ras_pi_zero_cam.Control.WsServer.{
  WsServer, connects, reads_text, reads_other, read_fails, is_in, insert, erase, broadcast_to,
  broadcast,
}
use ras_pi_zero_cam.Main.Updates.{Updates, Event, ticks, announces, meets, step, run}

-- The messages that a client got.
abbrev pub inbox : ℕ → List (ℕ × Bytes) → List Bytes
inbox c [] = []
inbox c ((d, msg) ∷ rest) = let later = inbox c rest in if d == c then msg ∷ later else later

inbox-append : (c : ℕ) (xs ys : List (ℕ × Bytes)) → inbox c (xs ++ ys) ≡ inbox c xs ++ inbox c ys
inbox-append c [] ys = refl
inbox-append c ((d, msg) ∷ xs) ys = ground (arith, inbox-append c xs ys)

-- Whose event it is.
abbrev pub client_of : WsServer.Event → ℕ
client_of (connects ws) = ws
client_of (reads_text ws msg) = ws
client_of (reads_other ws) = ws
client_of (read_fails ws) = ws

-- The events of the WebSocket server are those of other clients.
abbrev pub OthersOnly : ℕ → List Event → Type 0
OthersOnly c [] = Unit {0}
OthersOnly c (ticks abort ∷ es) = OthersOnly c es
OthersOnly c (announces text ∷ es) = OthersOnly c es
OthersOnly c (meets e ∷ es) = ((client_of e == c) ≡ false) × OthersOnly c es

-- The texts that the main loop broadcasts.
abbrev pub announced : List Event → List Bytes
announced [] = []
announced (ticks abort ∷ es) = announced es
announced (announces text ∷ es) = text ∷ announced es
announced (meets e ∷ es) = announced es

-- The third list holds the elements of the other two, each list in its order.
pub data Merged : List Bytes → List Bytes → List Bytes → Type 0 where
  empty : Merged [] [] []
  left :
      {xs ys zs : List Bytes} (x : Bytes)
      → Merged xs ys zs
      → Merged (xs ++ x ∷ []) ys (zs ++ x ∷ [])
  right :
      {xs ys zs : List Bytes} (y : Bytes)
      → Merged xs ys zs
      → Merged xs (ys ++ y ∷ []) (zs ++ y ∷ [])

inbox-broadcast :
    (is_open : ℕ → Bool) (c : ℕ) (json : Bytes) (cs : List ℕ)
    → is_open c ≡ true
    → inbox c (broadcast_to is_open json cs) ≡ replicate (count c cs) json
unfolding broadcast_to
inbox-broadcast is_open c json [] h = refl
inbox-broadcast is_open c json (d ∷ cs) h = elim (Bool-cases (d == c)) [
  | inl e ↦
      let opens : is_open d ≡ true = ap is_open ((==_iff d c).0 e) ∙ h in
      let more : suc (count c cs) ≡ 1 + count c cs = omega arith in
      rw (opens, e)
        (ap (◌∷◌ json) (inbox-broadcast is_open c json cs h) ∙ ap (λ n. replicate n json) more)
  | inr e ↦
      let same : count c cs ≡ once c d + count c cs = ground (arith, e) in
      passed e (is_open d) ∙ inbox-broadcast is_open c json cs h ∙ ap (λ n. replicate n json) same
]
  where
    passed :
        (d == c) ≡ false
        → (b : Bool)
        → inbox c
            (if b then (d, json) ∷ broadcast_to is_open json cs else broadcast_to is_open json cs)
          ≡ inbox c (broadcast_to is_open json cs)
    passed e true = rw e refl
    passed e false = refl

count-insert : (c ws : ℕ) (cs : List ℕ) → (ws == c) ≡ false → count c (insert ws cs) ≡ count c cs
count-insert c ws cs h = ground (arith, h)

count-erase : (c ws : ℕ) (cs : List ℕ) → (ws == c) ≡ false → count c (erase ws cs) ≡ count c cs
unfolding erase
count-erase c ws [] h = refl
count-erase c ws (d ∷ cs) h = ground (arith, count-erase c ws cs h)

-- The client stands once among the clients, and has got the texts of the readings that were pushed and
-- the announced ones, `said`.
record Served {F B : Type 0} (fixed3 : F → Bytes) (c : ℕ) (old : List Bytes) (m : Monitor F B)
    (said : List Bytes) (w : WsServer) : Type 0 where
  pub once_in : count c w.clients ≡ 1
  pub new : List Bytes
  pub served : inbox c w.sent ≡ old ++ new
  pub merged : Merged (map (build_json fixed3) m.sent) said new

module _ {F B : Type 0} (fixed3 : F → Bytes) (c : ℕ) (old : List Bytes) (m : Monitor F B)
    (said : List Bytes) where
  replied-Served :
      (w : WsServer) (ws : ℕ) (o : Outcome Bytes)
      → (ws == c) ≡ false
      → Served fixed3 c old m said w
      → Served fixed3 c old m said (WsServer.reply w ws o)
  replied-Served w ws (returns []) h v = v
  replied-Served w ws (returns (b ∷ bs)) h v = record {
    once_in = v.once_in;
    new = v.new;
    merged = v.merged;
    served =
        inbox-append c w.sent ((ws, b ∷ bs) ∷ []) ∙ rw h (append-nil (inbox c w.sent) ∙ v.served);
  }
  replied-Served w ws (throws what) h v = record {
    once_in = v.once_in;
    new = v.new;
    merged = v.merged;
    served = v.served;
  }

  met-Served :
      (on_message : Bytes → Outcome Bytes) (w : WsServer) (e : WsServer.Event)
      → (client_of e == c) ≡ false
      → Served fixed3 c old m said w
      → Served fixed3 c old m said (WsServer.step on_message w e)
  unfolding WsServer.step
  met-Served on_message w (connects ws) h v = elim (Bool-cases (is_in ws w.handling)) [
    | inl q ↦ rw (q, WsServer.step) v
    | inr q ↦
        rw (q, WsServer.step)
          (record {
            once_in = count-insert c ws w.clients h ∙ v.once_in;
            new = v.new;
            merged = v.merged;
            served = v.served;
          })
  ]
  met-Served on_message w (reads_text ws msg) h v = elim (Bool-cases (is_in ws w.handling)) [
    | inl q ↦ rw (q, WsServer.step) (replied-Served w ws (on_message msg) h v)
    | inr q ↦ rw (q, WsServer.step) v
  ]
  met-Served on_message w (reads_other ws) h v = v
  met-Served on_message w (read_fails ws) h v = elim (Bool-cases (is_in ws w.handling)) [
    | inl q ↦
        rw (q, WsServer.step)
          (record {
            once_in = count-erase c ws w.clients h ∙ v.once_in;
            new = v.new;
            merged = v.merged;
            served = v.served;
          })
    | inr q ↦ rw (q, WsServer.step) v
  ]

module _ {F B : Type 0} (bus : Bus B) (floats : Floats F) (sensor : Ina219 F) (fixed3 : F → Bytes)
    (is_open : ℕ → Bool) (on_message : Bytes → Outcome Bytes) (c : ℕ) (opens : is_open c ≡ true)
    (old : List Bytes) where
  -- A broadcast is one more text for the client.
  broadcast_one :
      (w : WsServer) (new : List Bytes) (text : Bytes)
      → count c w.clients ≡ 1
      → inbox c w.sent ≡ old ++ new
      → inbox c (broadcast is_open w text).sent ≡ old ++ (new ++ text ∷ [])
  unfolding broadcast
  broadcast_one w new text once_in served =
      inbox-append c w.sent (broadcast_to is_open text w.clients)
      ∙ (λ i.
          served i
          ++ (inbox-broadcast is_open c text w.clients opens ∙ ap (λ n. replicate n text) once_in)
              i)
      ∙ append_assoc old new (text ∷ [])

  polled-Served :
      (m : Monitor F B) (said : List Bytes) (w : WsServer)
      → Served fixed3 c old m said w
      → let m' = poll bus floats sensor m in
        Served fixed3 c old m' said (broadcast is_open w (get_json fixed3 m'))
  unfolding poll broadcast get_json
  polled-Served m said w v =
      let m' = poll bus floats sensor m in
      let json = get_json fixed3 m' in
      record {
        once_in = v.once_in;
        new = v.new ++ json ∷ [];
        served = broadcast_one w v.new json v.once_in v.served;
        merged =
            subst (λ xs. Merged xs said (v.new ++ json ∷ []))
              (sym (map-append (build_json fixed3) m.sent (m'.reading ∷ [])))
              (Merged.left json v.merged);
      }

  announced-Served :
      (m : Monitor F B) (said : List Bytes) (w : WsServer) (text : Bytes)
      → Served fixed3 c old m said w
      → Served fixed3 c old m (said ++ text ∷ []) (broadcast is_open w text)
  unfolding broadcast
  announced-Served m said w text v = record {
    once_in = v.once_in;
    new = v.new ++ text ∷ [];
    served = broadcast_one w v.new text v.once_in v.served;
    merged = Merged.right text v.merged;
  }

  ticked-Served :
      (phase : Phase) (m : Monitor F B) (said : List Bytes) (w : WsServer) (abort : Bool)
      → Served fixed3 c old m said w
      → let u =
          step bus floats sensor fixed3 is_open on_message
            (record { thread = (phase, m); ws_server = w })
            (ticks abort) in
        Served fixed3 c old u.thread.1 said u.ws_server
  unfolding step tick
  ticked-Served head m said w true v = v
  ticked-Served head m said w false v = v
  ticked-Served (napping (suc n)) m said w true v = v
  ticked-Served (napping (suc n)) m said w false v = v
  ticked-Served (napping zero) m said w true v = v
  ticked-Served (napping zero) m said w false v = polled-Served m said w v
  ticked-Served ended m said w abort v = v

  run-Served :
      (u : Updates F B) (said : List Bytes) (es : List Event)
      → OthersOnly c es
      → Served fixed3 c old u.thread.1 said u.ws_server
      → let u' = run bus floats sensor fixed3 is_open on_message u es in
        Served fixed3 c old u'.thread.1 (said ++ announced es) u'.ws_server
  unfolding run
  run-Served u said [] h v =
      subst (λ ts. Served fixed3 c old u.thread.1 ts u.ws_server) (sym (append-nil said)) v
  run-Served u said (ticks abort ∷ es) h v =
      run-Served (step bus floats sensor fixed3 is_open on_message u (ticks abort)) said es h
        (ticked-Served u.thread.0 u.thread.1 said u.ws_server abort v)
  run-Served u said (announces text ∷ es) h v =
      let u' =
        run bus floats sensor fixed3 is_open on_message
          (step bus floats sensor fixed3 is_open on_message u (announces text)) es in
      subst (λ ts. Served fixed3 c old u'.thread.1 ts u'.ws_server)
        (append_assoc said (text ∷ []) (announced es))
        (run-Served (step bus floats sensor fixed3 is_open on_message u (announces text))
          (said ++ text ∷ []) es h
          (unfold step in announced-Served u.thread.1 said u.ws_server text v))
  run-Served u said (meets e ∷ es) h v =
      run-Served (step bus floats sensor fixed3 is_open on_message u (meets e)) said es h.1
        (unfold step in met-Served fixed3 c old u.thread.1 said on_message u.ws_server e h.0 v)

  -- From any moment at which an open client stands once among the clients of the WebSocket server, and
  -- while that client neither connects again, sends nor leaves, whatever the polling thread, the main
  -- loop and the other clients do: behind what it had got before, it gets the JSON texts of the
  -- readings that the battery monitor pushes from then on, each once and in order, and among them the
  -- texts that the main loop broadcasts, each once and in order, and nothing else.
  pub updates_reach_client :
      (u : Updates F B) (es : List Event)
      → count c u.ws_server.clients ≡ 1
      → u.thread.1.sent ≡ []
      → inbox c u.ws_server.sent ≡ old
      → OthersOnly c es
      → let u' = run bus floats sensor fixed3 is_open on_message u es in
        (new : List Bytes) × (inbox c u'.ws_server.sent ≡ old ++ new)
        × Merged (map (build_json fixed3) u'.thread.1.sent) (announced es) new
  updates_reach_client u es once_in none_sent before h =
      let v = run-Served u [] es h (record {
        once_in = once_in;
        new = [];
        served = before ∙ sym (append-nil old);
        merged =
            subst (λ rs. Merged (map (build_json fixed3) rs) [] []) (sym none_sent) Merged.empty;
      }) in
      (v.new, v.served, v.merged)
