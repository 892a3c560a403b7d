-- ===== src/Gst/Caps.antt =====
-- The caps that the launch lines of src/record/recorder.cpp and src/stream/gst_camera_source.cpp end
-- a format in: the size and the rate of a preset.
use Prim.Native.String.{String}
use ras_pi_zero_cam.Prelude.{ℕ, ◌≡◌, ap, ◌∙◌, Option, none, some, List, [], ◌∷◌, ◌++◌, map}
use ras_pi_zero_cam.Prelude.Text
use ras_pi_zero_cam.Prelude.Text.{Bytes, codes, Piece, lit, val, write, split_by, glue_all}
use ras_pi_zero_cam.Prelude.Decimal.{print, read-print_end}
use ras_pi_zero_cam.Camera.Resolution.{ResolutionConfig}
use ras_pi_zero_cam.Gst.{
  is_comma, is_slash, setting, setting_of, number, upper_part, numerator, any_comma, any_slash,
}

-- The fields that both caps end in.
abbrev pub size_pieces : ResolutionConfig → List Piece
size_pieces cfg =
    lit ",width="
    ∷ val (print cfg.width)
    ∷ lit ",height="
    ∷ val (print cfg.height)
    ∷ lit ",framerate="
    ∷ val (print cfg.fps)
    ∷ lit "/1"
    ∷ []

rate_reads : (n : ℕ) → numerator (some (print n ++ codes "/1")) ≡ some n
rate_reads n =
    ap (λ parts. number (upper_part parts))
      (Text.split_by-write is_slash (val (print n) ∷ lit "/1" ∷ []) (any_slash n, tt))
    ∙ read-print_end n

-- The size and the rate that the fields of a caps text say.
abbrev pub says_fields : List Bytes → Option ℕ × Option ℕ × Option ℕ
says_fields fs = (
  number (setting (codes "width") fs),
  number (setting (codes "height") fs),
  numerator (setting (codes "framerate") fs),
)

abbrev pub says_size : Bytes → Option ℕ × Option ℕ × Option ℕ
says_size caps = says_fields (split_by is_comma caps)

abbrev size_of : Option Bytes → Option (Option ℕ × Option ℕ × Option ℕ)
size_of none = none
size_of (some caps) = some (says_size caps)

-- The size and the rate in the caps of the first element of a kind.
abbrev pub caps_size : List (List Bytes) → String → Option (Option ℕ × Option ℕ × Option ℕ)
caps_size es kind = size_of (setting_of es kind "caps")

abbrev pub raw_caps : ResolutionConfig → Bytes
raw_caps cfg = codes "video/x-raw,format=NV12" ++ write (size_pieces cfg)

abbrev pub h264_caps : ResolutionConfig → Bytes
h264_caps cfg =
    codes "video/x-h264,stream-format=byte-stream,alignment=au" ++ write (size_pieces cfg)

module _ (cfg : ResolutionConfig) where
  fields_of :
      (head : String)
      → split_by is_comma (codes head ++ write (size_pieces cfg))
        ≡ glue_all (map (Text.cut is_comma) (lit head ∷ size_pieces cfg))
  fields_of head =
      Text.split_by-write is_comma (lit head ∷ size_pieces cfg)
        (any_comma cfg.width, (any_comma cfg.height, (any_comma cfg.fps, tt)))

  -- The caps of either line say the preset's size and rate.
  size_reads :
      says_fields (glue_all (map (Text.cut is_comma) (size_pieces cfg)))
      ≡ (some cfg.width, some cfg.height, some cfg.fps)
  size_reads = λ i. (read-print_end cfg.width i, read-print_end cfg.height i, rate_reads cfg.fps i)

  pub says_size-raw_caps :
      says_size (raw_caps cfg) ≡ (some cfg.width, some cfg.height, some cfg.fps)
  says_size-raw_caps = ap says_fields (fields_of "video/x-raw,format=NV12") ∙ size_reads

  pub says_size-h264_caps :
      says_size (h264_caps cfg) ≡ (some cfg.width, some cfg.height, some cfg.fps)
  says_size-h264_caps =
      ap says_fields (fields_of "video/x-h264,stream-format=byte-stream,alignment=au") ∙ size_reads
