-- ===== src/Main/Program.antt =====
-- `main` of src/main.cpp: the wiring of the camera source, the HTTP server, the WebSocket server and
-- the battery monitor, their start, and the shutdown after the loop. The commands and the events of
-- the threads come in any order.
pub mod Settled
pub mod Wired
pub mod Shutdown
use Prim.Native.String.{String}
use ras_pi_zero_cam.Prelude.{
  ℕ, Bool, true, false, Option, none, some, List, [], ◌∷◌, ◌++◌, ◌&&◌, not, if◌then◌else◌,
}
use ras_pi_zero_cam.Camera.Resolution.{Resolution, config_of}
use ras_pi_zero_cam.Camera.Frame.{Frame}
use ras_pi_zero_cam.Record.Recorder.{Launch}
use ras_pi_zero_cam.Stream.Source
use ras_pi_zero_cam.Stream.Source.{Source, Built, Sample, BusMessage, new_source}
use ras_pi_zero_cam.Stream.Mjpeg
use ras_pi_zero_cam.Stream.Mjpeg.{Mjpeg, on_jpeg_ready}
use ras_pi_zero_cam.Stream.Mjpeg.Viewers
use ras_pi_zero_cam.Control.WsServer
use ras_pi_zero_cam.Control.WsServer.{WsServer}
use ras_pi_zero_cam.Main.Commands
use ras_pi_zero_cam.Main.Commands.{App}

-- `exit_code` is there once `main` has returned.
pub record Program : Type 0 where
  pub g_running : Bool
  pub power_ok : Bool
  pub battery_running : Bool
  pub app : App
  pub ws_server : WsServer
  pub exit_code : Option ℕ

-- The callback that `main` gives to the camera source hands each JPEG to the HTTP server.
unfoldable pub serve : Mjpeg → Bool → Sample → Mjpeg
serve streamer jpeg_cb sample =
    if sample.maps && jpeg_cb then on_jpeg_ready streamer sample.bytes else streamer

unfoldable pub serve_all : Mjpeg → Bool → List Sample → Mjpeg
unfolding serve
serve_all streamer jpeg_cb [] = streamer
serve_all streamer jpeg_cb (sample ∷ rest) = serve_all (serve streamer jpeg_cb sample) jpeg_cb rest

unfoldable pub receive : App → Sample → App
unfolding serve
receive a sample = record a {
  gst_cam = Source.on_jpeg_sample a.gst_cam sample;
  streamer = serve a.streamer a.gst_cam.jpeg_cb sample;
}

-- The samples that arrive while the command waits reach the HTTP server too.
unfoldable pub take_snapshot : App → Option String → String → List Sample → App
unfolding serve_all
take_snapshot a filename next_name samples =
    record (Commands.snapshot a filename next_name samples).0 {
      streamer =
          if a.gst_cam.running then serve_all a.streamer a.gst_cam.jpeg_cb samples else a.streamer;
    }

pub data Event : Type 0 where
  signal : Event
  set_resolution : ℕ → ℕ → Built → Event
  record_start : Option String → String → Launch → ℕ → Event
  record_stop : ℕ → Event
  record_restart : String → Launch → ℕ → Event
  snapshot : Option String → String → List Sample → Event
  sample_arrives : Sample → Event
  drain : Frame → Bool → Bool → Event
  bus_message : BusMessage → Event

abbrev pub with_app : Program → App → Program
with_app p a = record p { app = a }

abbrev pub with_cam : Program → Source → Program
with_cam p cam = let a = p.app in record p { app = record a { gst_cam = cam } }

unfoldable pub step : Program → Event → Program
unfolding receive take_snapshot
step p signal = record p { g_running = false }
step p (set_resolution w h b) = with_app p (Commands.set_resolution p.app w h b).0
step p (record_start filename next_name l now) =
    with_app p (Commands.record_start p.app filename next_name l now).0
step p (record_stop now) = with_app p (Commands.record_stop p.app now).0
step p (record_restart next_name l now) =
    with_app p (Commands.record_restart p.app next_name l now).0
step p (snapshot filename next_name samples) =
    with_app p (take_snapshot p.app filename next_name samples)
step p (sample_arrives sample) = with_app p (receive p.app sample)
step p (drain frame maps accepted) =
    with_cam p (Source.drain_sample p.app.gst_cam frame maps accepted).0
step p (bus_message msg) = with_cam p (Source.on_bus_message p.app.gst_cam msg)

unfoldable pub run : Program → List Event → Program
unfolding step
run p [] = p
run p (v ∷ vs) = run (step p v) vs

-- The test of the main loop.
unfoldable pub goes_on : Program → Bool
goes_on p = p.g_running && p.app.gst_cam.running

-- What follows the start of the camera source, with its answer.
abbrev pub launched : Bool → Mjpeg → Source × Bool → Program
launched power_ok streamer (cam, true) = record {
  g_running = true;
  power_ok = power_ok;
  battery_running = power_ok;
  app = record { cfg = config_of Resolution.medium; gst_cam = cam; streamer = streamer };
  ws_server = (WsServer.start WsServer.fresh).0;
  exit_code = none;
}
launched power_ok streamer (cam, false) = record {
  g_running = true;
  power_ok = power_ok;
  battery_running = false;
  app = record {
    cfg = config_of Resolution.medium;
    gst_cam = Source.destroy cam;
    streamer = Mjpeg.stop streamer;
  };
  ws_server = WsServer.fresh;
  exit_code = some 1;
}

-- The HTTP server and the camera source before they start, with the callback.
abbrev pub new_streamer : Mjpeg
new_streamer = record (Viewers.fresh (config_of Resolution.medium)) { running = false }

abbrev pub new_cam : Source
new_cam = record (new_source (config_of Resolution.medium)) { jpeg_cb = true }

-- From the start of `main` to the main loop, or to the return when the camera does not come up; the
-- destructor of the camera source runs then. `power_ok` is what `INA219::initialize` answered.
unfoldable pub launch : Bool → Built → Program
launch power_ok b =
    launched power_ok (Mjpeg.start new_streamer (config_of Resolution.medium)).0
      (Source.start new_cam b)

-- After the loop, and the destructor of the camera source.
unfoldable pub shut_down : Program → Program
shut_down p = record p {
  battery_running = if p.power_ok then false else p.battery_running;
  ws_server = WsServer.stop p.ws_server;
  app =
      let a = p.app in
      record a {
        gst_cam = Source.destroy (Source.stop a.gst_cam);
        streamer = Mjpeg.stop a.streamer;
      };
  exit_code = some 0;
}
