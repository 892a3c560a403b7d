-- ===== src/Gst.antt =====
-- How GStreamer reads the launch lines that src/record/recorder.cpp and
-- src/stream/gst_camera_source.cpp write: words between spaces, elements between the words `!`,
-- settings `key=value` of an element, and the fields of a caps setting between commas. Quotes and
-- escapes, which the lines do not use across a space, are left out.
pub mod Caps
use Prim.Native.String.{String}
use ras_pi_zero_cam.Prelude.{
  ℕ, ◌≡◌, refl, ap, ◌∙◌, Bool, true, false, Option, none, some, List, [], ◌∷◌, ◌++◌, map, ◌==◌,
  ◌&&◌, if◌then◌else◌, arith,
}
use ras_pi_zero_cam.Prelude.Text.{Bytes, same, codes, split_by, any, find_prefix}
use ras_pi_zero_cam.Prelude.Text
use ras_pi_zero_cam.Prelude.Decimal.{print, any-print, read}

abbrev pub is_space : ℕ → Bool
is_space c = c == b' '

abbrev pub is_comma : ℕ → Bool
is_comma c = c == b','

abbrev pub is_slash : ℕ → Bool
is_slash c = c == b'/'

abbrev pub is_bang : Bytes → Bool
is_bang [] = false
is_bang (c ∷ []) = c == b'!'
is_bang (c ∷ d ∷ cs) = false

abbrev pub words : Bytes → List Bytes
words s = split_by is_space s

abbrev pub elements : Bytes → List (List Bytes)
elements line = split_by is_bang (words line)

-- The kind of an element, and the first element of a kind.
abbrev pub factory : List Bytes → Bytes
factory [] = []
factory (w ∷ ws) = w

abbrev pub find_element : Bytes → List (List Bytes) → List Bytes
find_element kind [] = []
find_element kind (e ∷ es) =
    let rest = find_element kind es in if same (factory e) kind then e else rest

-- The value of the first setting with this key.
abbrev pub setting : Bytes → List Bytes → Option Bytes
setting key ws = find_prefix (key ++ b'=' ∷ []) ws

abbrev pub bind : Option Bytes → (Bytes → Option Bytes) → Option Bytes
bind none f = none
bind (some s) f = f s

-- A number, and the numerator of a fraction.
abbrev pub number : Option Bytes → Option ℕ
number none = none
number (some s) = read s

abbrev pub upper_part : List Bytes → Option Bytes
upper_part (n ∷ d ∷ []) = some n
upper_part ns = none

abbrev pub numerator : Option Bytes → Option ℕ
numerator s = number (bind s (λ n. upper_part (split_by is_slash n)))

abbrev pub field : Bytes → Bytes → Option Bytes
field key caps = setting key (split_by is_comma caps)

-- What a line says: a setting of the first element of a kind, and a field of its caps.
abbrev pub setting_of : List (List Bytes) → String → String → Option Bytes
setting_of es kind key = setting (codes key) (find_element (codes kind) es)

abbrev pub caps_field : List (List Bytes) → String → String → Option Bytes
caps_field es kind key = bind (setting_of es kind "caps") (field (codes key))

pub any_space : (n : ℕ) → any is_space (print n) ≡ false
any_space n = any-print b' ' n refl

pub any_comma : (n : ℕ) → any is_comma (print n) ≡ false
any_comma n = any-print b',' n refl

pub any_slash : (n : ℕ) → any is_slash (print n) ≡ false
any_slash n = any-print b'/' n refl

-- A line that goes on behind ` ! ` has the elements of both lines.
pub elements-link :
    (line more : Bytes) → elements (line ++ (codes " ! " ++ more)) ≡ elements line ++ elements more
elements-link line more =
    ap (split_by is_bang) (Text.split_by-at is_space line b' ' (b'!' ∷ b' ' ∷ more) refl)
    ∙ Text.split_by-at is_bang (words line) (b'!' ∷ []) (words more) refl
