-- ===== src/Record/Recorder/Pipeline.antt =====
-- `Recorder::build_pipeline_str` of src/record/recorder.cpp: the launch line of the mux pipeline.
use Prim.Native.String.{String}
use text.Mathlib.Text.{◌==◌ as str_eq}
use ras_pi_zero_cam.Prelude.{
  ℕ, ◌*◌, ◌%◌, ◌^◌, ◌≡◌, refl, ap, ◌∙◌, Bool, true, false, none, some, List, [], ◌∷◌, ◌++◌, map,
  if◌then◌else◌, not, ◌||◌, ◌==◌, arith,
}
use ras_pi_zero_cam.Prelude.Text
use ras_pi_zero_cam.Prelude.Text.{Bytes, codes, Piece, lit, val, write, split_by, any}
use ras_pi_zero_cam.Prelude.Decimal.{print, read-print_end}
use ras_pi_zero_cam.Camera.Resolution.{ResolutionConfig}
use ras_pi_zero_cam.Record.Recorder.{Recorder, Launch, start}
use ras_pi_zero_cam.Gst.Caps.{
  caps_size, raw_caps, h264_caps, says_size-raw_caps, says_size-h264_caps,
}
use ras_pi_zero_cam.Gst.{
  elements-link, is_space, is_bang, elements, number, setting_of, factory, any_space,
}

-- `bitrate_kbps * 1000` is computed on 32 bits.
abbrev pub bitrate : ResolutionConfig → ℕ
bitrate cfg = (cfg.bitrate_kbps * 1000) % 2 ^ 32

-- What is written to the stream, for each encoder.
abbrev pub software_pieces : ResolutionConfig → List Piece
software_pieces cfg =
    lit "appsrc name=src format=time is-live=true block=false"
    ∷ lit " caps=video/x-raw,format=NV12"
    ∷ lit ",width="
    ∷ val (print cfg.width)
    ∷ lit ",height="
    ∷ val (print cfg.height)
    ∷ lit ",framerate="
    ∷ val (print cfg.fps)
    ∷ lit "/1"
    ∷ lit " ! videoconvert"
    ∷ lit " ! queue max-size-buffers=4 leaky=downstream"
    ∷ lit " ! openh264enc"
    ∷ lit " bitrate="
    ∷ val (print (bitrate cfg))
    ∷ lit " multi-thread=2"
    ∷ lit " scene-change-detection=true"
    ∷ lit " ! h264parse config-interval=-1"
    ∷ lit " ! mp4mux"
    ∷ lit " ! filesink name=sink sync=false location="
    ∷ []

abbrev pub hardware_pieces : ResolutionConfig → List Piece
hardware_pieces cfg =
    lit "appsrc name=src format=time is-live=true block=false"
    ∷ lit " caps=video/x-h264"
    ∷ lit ",stream-format=byte-stream"
    ∷ lit ",alignment=au"
    ∷ lit ",width="
    ∷ val (print cfg.width)
    ∷ lit ",height="
    ∷ val (print cfg.height)
    ∷ lit ",framerate="
    ∷ val (print cfg.fps)
    ∷ lit "/1"
    ∷ lit " ! h264parse"
    ∷ lit " ! mp4mux"
    ∷ lit " ! filesink name=sink sync=false location="
    ∷ []

unfoldable pub build_pipeline_str : Bool → ResolutionConfig → Bytes → Bytes
build_pipeline_str sw_encoder cfg path =
    if sw_encoder
    then write (software_pieces cfg ++ val path ∷ [])
    else write (hardware_pieces cfg ++ val path ∷ [])

-- What `start` hands to `gst_parse_launch`.
unfoldable pub launch_line : Recorder → Bytes
launch_line r = build_pipeline_str r.sw_encoder r.cfg (codes r.current_file)

-- The kinds of the elements.
abbrev pub software_kinds : List Bytes
software_kinds =
    codes "appsrc"
    ∷ codes "videoconvert"
    ∷ codes "queue"
    ∷ codes "openh264enc"
    ∷ codes "h264parse"
    ∷ codes "mp4mux"
    ∷ codes "filesink"
    ∷ []

abbrev pub hardware_kinds : List Bytes
hardware_kinds = codes "appsrc" ∷ codes "h264parse" ∷ codes "mp4mux" ∷ codes "filesink" ∷ []

-- The elements of the two lines.
abbrev pub filesink : Bytes → List Bytes
filesink path =
    codes "filesink" ∷ codes "name=sink" ∷ codes "sync=false" ∷ (codes "location=" ++ path) ∷ []

abbrev pub appsrc : Bytes → List Bytes
appsrc caps =
    codes "appsrc"
    ∷ codes "name=src"
    ∷ codes "format=time"
    ∷ codes "is-live=true"
    ∷ codes "block=false"
    ∷ (codes "caps=" ++ caps)
    ∷ []

abbrev pub software_elements : ResolutionConfig → Bytes → List (List Bytes)
software_elements cfg path =
    appsrc (raw_caps cfg)
    ∷ (codes "videoconvert" ∷ [])
    ∷ (codes "queue" ∷ codes "max-size-buffers=4" ∷ codes "leaky=downstream" ∷ [])
    ∷ (codes "openh264enc"
        ∷ (codes "bitrate=" ++ (print (bitrate cfg) ++ []))
        ∷ codes "multi-thread=2"
        ∷ codes "scene-change-detection=true"
        ∷ [])
    ∷ (codes "h264parse" ∷ codes "config-interval=-1" ∷ [])
    ∷ (codes "mp4mux" ∷ [])
    ∷ filesink path
    ∷ []

abbrev pub hardware_elements : ResolutionConfig → Bytes → List (List Bytes)
hardware_elements cfg path =
    appsrc (h264_caps cfg) ∷ (codes "h264parse" ∷ []) ∷ (codes "mp4mux" ∷ []) ∷ filesink path ∷ []

-- A byte that GStreamer reads as more than itself in a value: white space, a quote or a backslash.
abbrev pub is_special : ℕ → Bool
is_special c =
    is_space c
    || (c == b'\t'
        || (c == b'\n'
            || (c == 11 || (c == 12 || (c == b'\r' || (c == 34 || (c == 39 || c == 92)))))))

-- A value that GStreamer takes as it stands.
abbrev pub is_ordinary : Bytes → Bool
is_ordinary [] = false
is_ordinary (c ∷ cs) = not (any is_special (c ∷ cs))

both_false : (a b : Bool) → (a || b) ≡ false → (a ≡ false) × (b ≡ false)
both_false a b h = ground arith

no_space : (path : Bytes) → any is_special path ≡ false → any is_space path ≡ false
no_space [] h = refl
no_space (c ∷ cs) h =
    let first = both_false (is_special c) (any is_special cs) h in
    ground (arith, first.0, no_space cs first.1)

ordinary_path : (path : Bytes) → is_ordinary path ≡ true → any is_space path ≡ false
ordinary_path [] h = refl
ordinary_path (c ∷ cs) h = no_space (c ∷ cs) (flip (any is_special (c ∷ cs)) h)
  where
    flip : (b : Bool) → not b ≡ true → b ≡ false
    flip b h = ground arith

module _ (cfg : ResolutionConfig) (path : Bytes) (plain : any is_space path ≡ false) where
  software_line :
      elements (write (software_pieces cfg ++ val path ∷ [])) ≡ software_elements cfg path
  software_line = ap (split_by is_bang) (
      Text.split_by-write is_space (software_pieces cfg ++ val path ∷ []) (
        any_space cfg.width,
        (any_space cfg.height, (any_space cfg.fps, (any_space (bitrate cfg), (plain, tt)))),
      ))

  hardware_line :
      elements (write (hardware_pieces cfg ++ val path ∷ [])) ≡ hardware_elements cfg path
  hardware_line = ap (split_by is_bang) (
      Text.split_by-write is_space (hardware_pieces cfg ++ val path ∷ [])
        (any_space cfg.width, (any_space cfg.height, (any_space cfg.fps, (plain, tt)))))

-- Each launch line, for a path that is not empty and has no white space, quote or backslash: GStreamer makes the elements of the encoder in order;
-- the caps of the source say the width, the height and the frame rate of the preset, the location of
-- the sink is the path, and the software encoder's bit rate is that of the preset, on 32 bits.
pub launch_line_reads_back :
    (sw_encoder : Bool) (cfg : ResolutionConfig) (path : Bytes)
    → is_ordinary path ≡ true
    → let es = elements (build_pipeline_str sw_encoder cfg path) in
      (map factory es ≡ (if sw_encoder then software_kinds else hardware_kinds))
      × (caps_size es "appsrc" ≡ some (some cfg.width, some cfg.height, some cfg.fps))
      × (setting_of es "filesink" "location" ≡ some path)
      × (number (setting_of es "openh264enc" "bitrate")
          ≡ (if sw_encoder then some (bitrate cfg) else none))
unfolding build_pipeline_str
launch_line_reads_back true cfg path h =
    let line = software_line cfg path (ordinary_path path h) in
    (
      ap (map factory) line,
      ap (λ es. caps_size es "appsrc") line ∙ ap some (says_size-raw_caps cfg),
      ap (λ es. setting_of es "filesink" "location") line,
      ap (λ es. number (setting_of es "openh264enc" "bitrate")) line ∙ read-print_end (bitrate cfg),
    )
launch_line_reads_back false cfg path h =
    let line = hardware_line cfg path (ordinary_path path h) in
    (
      ap (map factory) line,
      ap (λ es. caps_size es "appsrc") line ∙ ap some (says_size-h264_caps cfg),
      ap (λ es. setting_of es "filesink" "location") line,
      ap (λ es. number (setting_of es "openh264enc" "bitrate")) line,
    )

-- A path that goes on behind ` ! ` adds elements to the pipeline: those of the rest.
pub path_adds_elements :
    (sw_encoder : Bool) (cfg : ResolutionConfig) (path more : Bytes)
    → elements (build_pipeline_str sw_encoder cfg (path ++ (codes " ! " ++ more)))
      ≡ elements (build_pipeline_str sw_encoder cfg path) ++ elements more
unfolding build_pipeline_str
path_adds_elements true cfg path more =
    ap elements (Text.write-last (software_pieces cfg) path (codes " ! " ++ more))
    ∙ elements-link (write (software_pieces cfg ++ val path ∷ [])) more
path_adds_elements false cfg path more =
    ap elements (Text.write-last (hardware_pieces cfg) path (codes " ! " ++ more))
    ∙ elements-link (write (hardware_pieces cfg ++ val path ∷ [])) more

pub source_caps :
    (cfg : ResolutionConfig) (path : Bytes)
    → any is_space path ≡ false
    → setting_of (elements (build_pipeline_str true cfg path)) "appsrc" "caps" ≡ some (raw_caps cfg)
unfolding build_pipeline_str
source_caps cfg path h = ap (λ es. setting_of es "appsrc" "caps") (software_line cfg path h)

-- A start that succeeds launches the line of its arguments.
pub started_line :
    (r : Recorder) (cfg : ResolutionConfig) (filename default_name : String) (sw_encoder : Bool)
    (l : Launch)
    → str_eq filename "" ≡ false
    → (start r cfg filename sw_encoder default_name l).1 ≡ true
    → launch_line (start r cfg filename sw_encoder default_name l).0
      ≡ build_pipeline_str sw_encoder cfg (codes filename)
unfolding start launch_line
started_line r cfg filename default_name sw_encoder l h k = ground arith
