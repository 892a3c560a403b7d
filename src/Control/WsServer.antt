-- ===== src/Control/WsServer.antt =====
-- `WsServer` of src/control/ws_server.cpp. A client is the address of its WebSocket, a number. An
-- event is what the HTTP library does: it calls the handler for a new connection, or `ws.read`
-- returns in it. `handling` are the connections whose handler runs, and `sent` records `ws.send`.
pub mod Clients
use ras_pi_zero_cam.Prelude.{
  ℕ, ◌+◌, ◌-◌, Bool, true, false, Option, none, some, List, [], ◌∷◌, ◌++◌, ◌==◌, ◌||◌, not,
  if◌then◌else◌,
}
use ras_pi_zero_cam.Control.Dispatcher.{Outcome, returns, throws}

pub record WsServer : Type 0 where
  pub running : Bool
  pub clients : List ℕ
  pub client_count : ℕ
  pub handling : List ℕ
  pub sent : List (ℕ × List ℕ)

pub data Event : Type 0 where
  connects : ℕ → Event
  reads_text : ℕ → List ℕ → Event
  reads_other : ℕ → Event
  read_fails : ℕ → Event

abbrev pub is_in : ℕ → List ℕ → Bool
is_in ws [] = false
is_in ws (c ∷ cs) = (c == ws) || is_in ws cs

-- The clients are a set.
abbrev pub insert : ℕ → List ℕ → List ℕ
insert ws cs = if is_in ws cs then cs else ws ∷ cs

unfoldable pub erase : ℕ → List ℕ → List ℕ
erase ws [] = []
erase ws (c ∷ cs) = let rest = erase ws cs in if c == ws then cs else c ∷ rest

unfoldable pub add_client : WsServer → ℕ → WsServer
add_client s ws = record s { clients = insert ws s.clients }

unfoldable pub remove_client : WsServer → ℕ → WsServer
unfolding erase
remove_client s ws = record s { clients = erase ws s.clients }

abbrev pub opened : WsServer → ℕ → WsServer
opened s ws = record s { client_count = s.client_count + 1; handling = ws ∷ s.handling }

-- A reply that is not empty is sent back. An exception leaves the handler.
abbrev pub reply : WsServer → ℕ → Outcome (List ℕ) → WsServer
reply s ws (returns []) = s
reply s ws (returns (b ∷ bs)) = record s { sent = s.sent ++ (ws, b ∷ bs) ∷ [] }
reply s ws (throws what) = record s { handling = erase ws s.handling }

abbrev pub closed : WsServer → ℕ → WsServer
closed s ws = record s { client_count = s.client_count - 1; handling = erase ws s.handling }

module _ (on_message : List ℕ → Outcome (List ℕ)) where
  -- A live connection has an address of its own, and reads come while its handler runs.
  unfoldable pub step : WsServer → Event → WsServer
  unfolding add_client remove_client
  step s (connects ws) = if is_in ws s.handling then s else add_client (opened s ws) ws
  step s (reads_text ws msg) = if is_in ws s.handling then reply s ws (on_message msg) else s
  step s (reads_other ws) = s
  step s (read_fails ws) = if is_in ws s.handling then closed (remove_client s ws) ws else s

  unfoldable pub run : WsServer → List Event → WsServer
  unfolding step
  run s [] = s
  run s (v ∷ vs) = run (step s v) vs

-- Every client that is open gets the message.
unfoldable pub broadcast_to : (ℕ → Bool) → List ℕ → List ℕ → List (ℕ × List ℕ)
broadcast_to is_open json [] = []
broadcast_to is_open json (c ∷ cs) =
    let rest = broadcast_to is_open json cs in if is_open c then (c, json) ∷ rest else rest

unfoldable pub broadcast : (ℕ → Bool) → WsServer → List ℕ → WsServer
unfolding broadcast_to
broadcast is_open s json = record s { sent = s.sent ++ broadcast_to is_open json s.clients }

abbrev pub fresh : WsServer
fresh = record { running = false; clients = []; client_count = 0; handling = []; sent = [] }

-- `start` and `stop`; the listening thread clears `running_` when it ends.
unfoldable pub start : WsServer → WsServer × Bool
start s = if s.running then (s, false) else (record s { running = true }, true)

unfoldable pub stop : WsServer → WsServer
stop s = record s { running = false }
