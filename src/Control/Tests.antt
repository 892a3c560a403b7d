-- ===== src/Control/Tests.antt =====
-- The control channel at concrete inputs.
use ras_pi_zero_cam.Prelude.{
  ℕ, zero, suc, ◌==◌, if◌then◌else◌, ◌≡◌, refl, true, List, [], ◌∷◌, length,
}
use ras_pi_zero_cam.Control.Dispatcher.{Outcome, Reply, returns, throws, Handlers}
use ras_pi_zero_cam.Control.WsServer.{WsServer, Event, connects, reads_text, read_fails, fresh}
use ras_pi_zero_cam.Control.WsServer
use ras_pi_zero_cam.Control.WsServer.Clients.{clients_are_tracked}

-- A message is its command; 0 is no JSON, and 91 opens an array.
abbrev parse : List ℕ → Outcome (List ℕ)
parse [] = throws (1 ∷ [])
parse (zero ∷ cs) = throws (1 ∷ [])
parse (suc c ∷ cs) = returns (suc c ∷ cs)

abbrev value_cmd : List ℕ → Outcome (List ℕ)
value_cmd [] = returns []
value_cmd (c ∷ cs) = if c == 91 then throws (2 ∷ []) else returns (c ∷ cs)

abbrev none_registered : Handlers (List ℕ) parse value_cmd
none_registered = []

abbrev ping : List ℕ
ping = 112 ∷ []

abbrev echo : List ℕ → Outcome (List ℕ)
echo msg = returns msg

clients_are_tracked_example :
    let s =
      WsServer.run echo fresh
        (connects 1 ∷ connects 2 ∷ reads_text 1 (112 ∷ []) ∷ read_fails 1 ∷ []) in
    (s.clients ≡ s.handling) × (s.client_count ≡ length s.clients)
clients_are_tracked_example =
    clients_are_tracked echo (λ msg. msg) (λ msg. refl)
      (connects 1 ∷ connects 2 ∷ reads_text 1 (112 ∷ []) ∷ read_fails 1 ∷ [])

abbrev one_client : WsServer
one_client = record fresh { running = true; clients = 1 ∷ []; client_count = 1; handling = 1 ∷ [] }

-- Every reply dumps to one byte.
abbrev dump : Reply → List ℕ
dump r = 123 ∷ []
