-- ===== src/Main/Updates.antt =====
-- How src/main.cpp joins the battery monitor, the main loop and the WebSocket server: the callback that
-- `battery.start` gets broadcasts each JSON text, and the main loop broadcasts its recording status and
-- its storage warnings, whose texts are arguments. `is_open` says which WebSockets are open, and `fixed3` is what a
-- float is written as.
pub mod Delivered
use ras_pi_zero_cam.Prelude.{ℕ, zero, Bool, true, false, List, [], ◌∷◌, if◌then◌else◌}
use ras_pi_zero_cam.Prelude.Text.{Bytes}
use ras_pi_zero_cam.Power.Ina219.{Bus, Floats, Ina219}
use ras_pi_zero_cam.Power.Battery.{Monitor, Phase, napping, poll, tick}
use ras_pi_zero_cam.Power.Battery.Json.{get_json}
use ras_pi_zero_cam.Control.Dispatcher.{Outcome}
use ras_pi_zero_cam.Control.WsServer
use ras_pi_zero_cam.Control.WsServer.{WsServer, broadcast}

pub record Updates (F B : Type 0) : Type 0 where
  pub thread : Phase × Monitor F B
  pub ws_server : WsServer

-- Does the thread poll when it sees this value of `abort_`?
abbrev pub polls : Phase → Bool → Bool
polls (napping zero) abort = if abort then false else true
polls phase abort = false

pub data Event : Type 0 where
  ticks : Bool → Event
  announces : Bytes → Event
  meets : WsServer.Event → Event

module _ {F B : Type 0} (bus : Bus B) (floats : Floats F) (sensor : Ina219 F) (fixed3 : F → Bytes)
    (is_open : ℕ → Bool) (on_message : Bytes → Outcome Bytes) where
  -- The callback of the thread.
  abbrev pub push_cb : Updates F B → Phase × Monitor F B → Updates F B
  push_cb u t = record {
    thread = t;
    ws_server = broadcast is_open u.ws_server (get_json fixed3 t.1);
  }

  -- A message of the main loop.
  abbrev pub announce : Updates F B → Bytes → Updates F B
  announce u text = record u { ws_server = broadcast is_open u.ws_server text }

  unfoldable pub step : Updates F B → Event → Updates F B
  step u (ticks abort) =
      let t = tick bus floats sensor u.thread abort in
      if polls u.thread.0 abort then push_cb u t else record u { thread = t }
  step u (announces text) = announce u text
  step u (meets e) = record u { ws_server = WsServer.step on_message u.ws_server e }

  unfoldable pub run : Updates F B → List Event → Updates F B
  unfolding step
  run u [] = u
  run u (e ∷ es) = run (step u e) es
