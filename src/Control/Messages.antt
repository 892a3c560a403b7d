-- ===== src/Control/Messages.antt =====
-- The message handler that src/main.cpp gives to the WebSocket server: the dispatcher of
-- src/control/command_dispatcher.cpp. The parameter `dump` turns a reply into the bytes of its JSON.
use ras_pi_zero_cam.Prelude.{ℕ, List}
use ras_pi_zero_cam.Control.Dispatcher.{Outcome, returns, throws, Reply, Handlers, dispatch}
use ras_pi_zero_cam.Control.WsServer.{WsServer}

module _ (Json : Type 0) (parse : List ℕ → Outcome Json) (value_cmd : Json → Outcome (List ℕ))
    (dump : Reply → List ℕ) where
  abbrev pub dumped : Outcome Reply → Outcome (List ℕ)
  dumped (returns r) = returns (dump r)
  dumped (throws what) = throws what

  unfoldable pub on_message : Handlers Json parse value_cmd → List ℕ → Outcome (List ℕ)
  on_message handlers raw = dumped (dispatch Json parse value_cmd handlers raw)
