-- ===== src/Main/UpdateTests.antt =====
-- A battery update on its way to a client at concrete inputs.
use ras_pi_zero_cam.Prelude.{ℕ, zero, ◌≡◌, refl, true, false, List, [], ◌∷◌, map}
use ras_pi_zero_cam.Prelude.Text.{Bytes, codes}
use ras_pi_zero_cam.Prelude.Decimal.{print}
use ras_pi_zero_cam.Power.Battery.{napping}
use ras_pi_zero_cam.Power.Battery.Json.{build_json}
use ras_pi_zero_cam.Power.Tests.{Cells, cells_bus, micro, sensor, monitor}
use ras_pi_zero_cam.Control.Dispatcher.{Outcome, returns}
use ras_pi_zero_cam.Control.WsServer.{WsServer, connects, read_fails}
use ras_pi_zero_cam.Main.Updates.{Updates, Event, ticks, announces, meets, run}
use ras_pi_zero_cam.Main.Updates.Delivered.{inbox, Merged, updates_reach_client}

abbrev shown : ℕ → Bytes
shown n = print n

abbrev silent : Bytes → Outcome Bytes
silent msg = returns []

abbrev two_clients : WsServer
two_clients = record {
  running = true;
  clients = 9 ∷ 4 ∷ [];
  client_count = 2;
  handling = 9 ∷ 4 ∷ [];
  sent = (4, codes "hello") ∷ (9, codes "hi") ∷ [];
}

abbrev waiting : Updates ℕ Cells
waiting = record { thread = (napping zero, monitor); ws_server = two_clients }

abbrev events : List Event
events =
    ticks false
    ∷ announces (codes "full")
    ∷ meets (connects 5)
    ∷ meets (read_fails 9)
    ∷ ticks false
    ∷ []

updates_reach_client_example :
    let u = run cells_bus micro sensor shown (λ ws. true) silent waiting events in
    (new : List Bytes) × (inbox 4 u.ws_server.sent ≡ codes "hello" ∷ new)
    × Merged (map (build_json shown) u.thread.1.sent) (codes "full" ∷ []) new
updates_reach_client_example =
    updates_reach_client cells_bus micro sensor shown (λ ws. true) silent 4 refl
      (codes "hello" ∷ []) waiting events refl refl refl (refl, (refl, tt))
