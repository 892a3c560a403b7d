-- ===== src/Record/SessionTests.antt =====
-- Launch lines and a hardware session at concrete inputs.
use ras_pi_zero_cam.Prelude.{◌+◌, none, false, ◌≡◌, refl, true, some, List, [], ◌∷◌, ◌++◌, map}
use ras_pi_zero_cam.Prelude.Text.{codes}
use ras_pi_zero_cam.Prelude.Decimal.{print}
use ras_pi_zero_cam.Camera.Resolution.{Resolution, ResolutionConfig, config_of}
use ras_pi_zero_cam.Camera.Frame.{Frame, empty_frame}
use ras_pi_zero_cam.Gst.{elements, setting_of, number, factory}
use ras_pi_zero_cam.Gst.Caps.{caps_size}
use ras_pi_zero_cam.Record.Recorder.{Recorder, RecorderState, BusMessage, warning, fresh_recorder}
use ras_pi_zero_cam.Record.Recorder.Pipeline.{
  build_pipeline_str, software_kinds, launch_line_reads_back,
}
use ras_pi_zero_cam.Codec.Pool.{take_slot}
use ras_pi_zero_cam.Record.H264
use ras_pi_zero_cam.Record.Recorder
use ras_pi_zero_cam.Record.H264.{Captured, Polled, streaming, output_ends}
use ras_pi_zero_cam.Record.Session.{
  Session, Event, pushes, polls, takes, outputs, stops_polling, stops_output, run, stop,
}
use ras_pi_zero_cam.Record.Session.Outputs.{stamps}
use ras_pi_zero_cam.Record.Session.Stopping.{stop_pushes_outputs}

abbrev low : ResolutionConfig
low = config_of Resolution.low

software_text :
    build_pipeline_str true low (codes "a.mp4")
    ≡ codes
        "appsrc name=src format=time is-live=true block=false caps=video/x-raw,format=NV12,width=640,height=480,framerate=30/1 ! videoconvert ! queue max-size-buffers=4 leaky=downstream ! openh264enc bitrate=500000 multi-thread=2 scene-change-detection=true ! h264parse config-interval=-1 ! mp4mux ! filesink name=sink sync=false location=a.mp4"
unfolding build_pipeline_str print
software_text = refl

launch_line_reads_back_example :
    let es = elements (build_pipeline_str true low (codes "a.mp4")) in
    (map factory es ≡ software_kinds)
    × (caps_size es "appsrc" ≡ some (some 640, some 480, some 30))
    × (setting_of es "filesink" "location" ≡ some (codes "a.mp4"))
    × (number (setting_of es "openh264enc" "bitrate") ≡ some 500_000)
launch_line_reads_back_example = launch_line_reads_back true low (codes "a.mp4") refl

abbrev camera_frame : Frame
camera_frame = record empty_frame { dma_fd = some 5 }

abbrev recorder : Recorder
recorder = record (fresh_recorder low) {
  state = RecorderState.recording;
  hw_encoder = true;
  pipeline = true;
  appsrc = true;
  bus = true;
}

abbrev captured_at : Captured
captured_at = record {
  index = 2;
  bytes_used = 700;
  length = 524288;
  sec = 3;
  usec = 40;
  keyframe = true;
}

abbrev events : List Event
events =
    pushes camera_frame 7 true
    ∷ polls (Polled.readable (some 0) (some captured_at))
    ∷ takes
    ∷ outputs (some warning) true
    ∷ []

one_output :
    (run (record { recorder = recorder; encoder = streaming 6 12 }) events).recorder.pushed
    ≡ record { pts = 0; duration = 33_333_333 } ∷ []
unfolding run streaming H264.take_output H264.poll_pass H264.encode take_slot Recorder.on_output
    Recorder.push_frame
one_output = refl

abbrev early : List Event
early = pushes camera_frame 7 true ∷ polls (Polled.readable (some 0) (some captured_at)) ∷ []

abbrev late : List Event
late = stops_polling ∷ takes ∷ stops_output ∷ outputs none true ∷ []

abbrev begun : Session
begun = record { recorder = recorder; encoder = streaming 6 12 }

still_records : (run begun early).recorder.state ≡ RecorderState.recording
unfolding run streaming H264.poll_pass H264.encode take_slot Recorder.push_frame
still_records = refl

output_ended : output_ends (stop (run begun early) late).0.encoder ≡ true
unfolding stop streaming H264.poll_pass H264.encode take_slot Recorder.push_frame H264.take_output
    H264.deliver output_ends Recorder.on_output
output_ended = refl

nothing_held : (stop (run begun early) late).0.encoder.delivering ≡ none
unfolding stop streaming H264.poll_pass H264.encode take_slot Recorder.push_frame H264.take_output
    H264.deliver Recorder.on_output
nothing_held = refl

stop_pushes_outputs_example :
    let s = run begun early in
    let out = stop s late in
    (out.1 ≡ true)
    × (out.0.recorder.pushed ≡ stamps out.0.recorder.cfg.fps out.0.encoder.captured)
    × (out.0.recorder.eos_sent ≡ s.recorder.eos_sent + 1)
    × (out.0.recorder.ended
        ≡ s.recorder.ended ++ stamps out.0.recorder.cfg.fps out.0.encoder.captured ∷ [])
    × (out.0.recorder.state ≡ RecorderState.idle)
    × (out.0.recorder.pipeline ≡ false)
stop_pushes_outputs_example =
    stop_pushes_outputs recorder 6 12 early late refl refl ((5, refl), (tt, tt))
      (tt, (tt, (tt, (tt, tt)))) still_records output_ended nothing_held
