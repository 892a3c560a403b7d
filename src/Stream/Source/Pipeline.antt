-- ===== src/Stream/Source/Pipeline.antt =====
-- `GstCameraSource::build_pipeline` of src/stream/gst_camera_source.cpp: the launch line of the live
-- pipeline, and what GStreamer reads in it.
use Prim.Native.String.{String}
use ras_pi_zero_cam.Prelude.{
  ℕ, ◌≡◌, refl, sym, ap, ◌∙◌, Bool, true, false, Option, none, some, List, [], ◌∷◌, ◌++◌, map, ◌==◌,
}
use ras_pi_zero_cam.Prelude.Text
use ras_pi_zero_cam.Prelude.Text.{Bytes, codes, same, Piece, lit, val, write, split_by, any}
use ras_pi_zero_cam.Prelude.Decimal.{print, any-print, read-print_end}
use ras_pi_zero_cam.Camera.Resolution.{ResolutionConfig}
use ras_pi_zero_cam.Gst.{
  is_comma, any_comma, is_space, is_bang, bind, words, elements, setting, setting_of, field, number,
  factory, any_space,
}
use ras_pi_zero_cam.Gst.Caps.{says_size, raw_caps, says_size-raw_caps}
use ras_pi_zero_cam.Record.Recorder.Pipeline.{build_pipeline_str, source_caps}

-- The pieces up to the tee, and the two branches behind it.
abbrev pub tee_pieces : ResolutionConfig → List Piece
tee_pieces cfg =
    lit "libcamerasrc"
    ∷ lit " ! video/x-raw,format=NV12"
    ∷ lit ",width="
    ∷ val (print cfg.width)
    ∷ lit ",height="
    ∷ val (print cfg.height)
    ∷ lit ",framerate="
    ∷ val (print cfg.fps)
    ∷ lit "/1"
    ∷ lit " ! tee name=t"
    ∷ []

abbrev pub jpeg_pieces : ℕ → List Piece
jpeg_pieces jpeg_quality =
    lit " t. ! queue max-size-buffers=2 leaky=downstream"
    ∷ lit " ! v4l2jpegenc"
    ∷ lit " extra-controls=\"controls,compression_quality="
    ∷ val (print jpeg_quality)
    ∷ lit "\""
    ∷ lit " ! appsink name=mjpeg_sink emit-signals=false sync=false"
    ∷ lit " max-buffers=2 drop=true"
    ∷ []

abbrev pub raw_pieces : List Piece
raw_pieces =
    lit " t. ! queue max-size-buffers=4 leaky=downstream"
    ∷ lit " ! appsink name=rec_sink emit-signals=false sync=false"
    ∷ lit " max-buffers=2 drop=true"
    ∷ []

unfoldable pub build_pipeline : ResolutionConfig → ℕ → Bytes
build_pipeline cfg jpeg_quality = write (tee_pieces cfg ++ (jpeg_pieces jpeg_quality ++ raw_pieces))

-- The words `t.` start a branch at the tee; the empty first element of a branch stands for its pad.
abbrev pub is_tee : Bytes → Bool
is_tee w = same w (codes "t.")

abbrev pub branches : Bytes → List (List (List Bytes))
branches line = map (split_by is_bang) (split_by is_tee (words line))

abbrev pub is_quote : ℕ → Bool
is_quote c = c == b'"'

abbrev pub tee_branch : ResolutionConfig → List (List Bytes)
tee_branch cfg =
    (codes "libcamerasrc" ∷ []) ∷ (raw_caps cfg ∷ []) ∷ (codes "tee" ∷ codes "name=t" ∷ []) ∷ []

abbrev pub appsink : String → List Bytes
appsink name =
    codes "appsink"
    ∷ codes name
    ∷ codes "emit-signals=false"
    ∷ codes "sync=false"
    ∷ codes "max-buffers=2"
    ∷ codes "drop=true"
    ∷ []

abbrev pub jpeg_branch : ℕ → List (List Bytes)
jpeg_branch jpeg_quality =
    []
    ∷ (codes "queue" ∷ codes "max-size-buffers=2" ∷ codes "leaky=downstream" ∷ [])
    ∷ (codes "v4l2jpegenc"
        ∷ (codes "extra-controls=\"controls,compression_quality="
            ++ (print jpeg_quality ++ codes "\""))
        ∷ [])
    ∷ appsink "name=mjpeg_sink"
    ∷ []

abbrev pub raw_branch : List (List Bytes)
raw_branch =
    []
    ∷ (codes "queue" ∷ codes "max-size-buffers=4" ∷ codes "leaky=downstream" ∷ [])
    ∷ appsink "name=rec_sink"
    ∷ []

pub build_pipeline-branches :
    (cfg : ResolutionConfig) (jpeg_quality : ℕ)
    → branches (build_pipeline cfg jpeg_quality)
      ≡ tee_branch cfg ∷ jpeg_branch jpeg_quality ∷ raw_branch ∷ []
unfolding build_pipeline
build_pipeline-branches cfg jpeg_quality =
    ap (λ ws. map (split_by is_bang) (split_by is_tee ws))
      (Text.split_by-write is_space (tee_pieces cfg ++ (jpeg_pieces jpeg_quality ++ raw_pieces)) (
        any_space cfg.width,
        (any_space cfg.height, (any_space cfg.fps, (any_space jpeg_quality, tt))),
      ))

abbrev pub middle : List Bytes → Option Bytes
middle (a ∷ b ∷ c ∷ []) = some b
middle parts = none

abbrev pub unquote : Option Bytes → Option Bytes
unquote s = bind s (λ t. middle (split_by is_quote t))

-- The caps that the camera's frames pass through: the second element.
abbrev caps_of : List (List Bytes) → Option Bytes
caps_of [] = none
caps_of (e ∷ []) = none
caps_of (e ∷ caps ∷ es) = some (factory caps)

abbrev pub camera_caps : List (List (List Bytes)) → Option Bytes
camera_caps [] = none
camera_caps (es ∷ bs) = caps_of es

-- The field of the quoted controls of the encoder.
abbrev pub quality_in : Option Bytes → Option ℕ
quality_in controls = number (bind controls (field (codes "compression_quality")))

abbrev pub quality : List (List Bytes) → Option ℕ
quality es = quality_in (unquote (setting_of es "v4l2jpegenc" "extra-controls"))

any_quote : (n : ℕ) → any is_quote (print n) ≡ false
any_quote n = any-print b'"' n refl

quality_reads : (q : ℕ) → quality (jpeg_branch q) ≡ some q
quality_reads q =
    ap (λ parts. quality_in (middle parts))
      (Text.split_by-write is_quote
        (lit "\"controls,compression_quality=" ∷ val (print q) ∷ lit "\"" ∷ []) (any_quote q, tt))
    ∙ ap (λ fs. number (setting (codes "compression_quality") fs))
        (Text.split_by-write is_comma
          (lit "controls,compression_quality=" ∷ val (print q) ∷ lit "" ∷ []) (any_comma q, tt))
    ∙ read-print_end q

-- What the line says of each branch.
abbrev pub kinds : ResolutionConfig → List (List Bytes)
kinds cfg =
    (codes "libcamerasrc" ∷ raw_caps cfg ∷ codes "tee" ∷ [])
    ∷ ([] ∷ codes "queue" ∷ codes "v4l2jpegenc" ∷ codes "appsink" ∷ [])
    ∷ ([] ∷ codes "queue" ∷ codes "appsink" ∷ [])
    ∷ []

abbrev pub sink_name : List (List Bytes) → Option Bytes
sink_name es = setting_of es "appsink" "name"

abbrev pub sink_names : List (Option Bytes)
sink_names = none ∷ some (codes "mjpeg_sink") ∷ some (codes "rec_sink") ∷ []

-- The launch line of the live pipeline has three branches: the camera with the caps of the preset's
-- size and rate and the tee, then at the tee the JPEG encoder, with the given quality, and the raw
-- frames, each with a sink of the name that `start` looks up. A recorder with the software encoder and
-- the same preset takes exactly these caps from its source, for a path with no space.
pub camera_line_reads_back :
    (cfg : ResolutionConfig) (jpeg_quality : ℕ) (path : Bytes)
    → any is_space path ≡ false
    → let bs = branches (build_pipeline cfg jpeg_quality) in
      (map (map factory) bs ≡ kinds cfg)
      × (map sink_name bs ≡ sink_names)
      × (map quality bs ≡ none ∷ some jpeg_quality ∷ none ∷ [])
      × (says_size (raw_caps cfg) ≡ (some cfg.width, some cfg.height, some cfg.fps))
      × (camera_caps bs ≡ setting_of (elements (build_pipeline_str true cfg path)) "appsrc" "caps")
camera_line_reads_back cfg q path h =
    let lines = build_pipeline-branches cfg q in
    (
      ap (map (map factory)) lines,
      ap (map sink_name) lines,
      ap (map quality) lines ∙ (λ i. none ∷ quality_reads q i ∷ none ∷ []),
      says_size-raw_caps cfg,
      ap camera_caps lines ∙ sym (source_caps cfg path h),
    )
