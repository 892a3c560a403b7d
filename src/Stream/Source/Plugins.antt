-- ===== src/Stream/Source/Plugins.antt =====
-- The plugin path that the constructor of src/stream/gst_camera_source.cpp sets up.

use mathlib.Core.List.{append-nil}
use ras_pi_zero_cam.Prelude.{
  ℕ, ◌≡◌, refl, ap, ◌∙◌, Bool, false, Option, none, some, List, [], ◌∷◌, ◌++◌, ◌==◌, ◌||◌,
}
use ras_pi_zero_cam.Prelude.Text
use ras_pi_zero_cam.Prelude.Text.{
  Bytes, codes, same, Piece, lit, val, write, split_by, any, glue_all,
}

-- The constructor: GST_PLUGIN_PATH after it, from HOME and the old value; an empty old value counts as
-- none.
abbrev pub behind : Option Bytes → Bytes
behind none = []
behind (some []) = []
behind (some (c ∷ cs)) = codes ":" ++ c ∷ cs

unfoldable pub plugin_path : Option Bytes → Option Bytes → Option Bytes
plugin_path none existing = existing
plugin_path (some home) existing = some ((home ++ codes "/gst-plugins") ++ behind existing)

abbrev pub is_colon : ℕ → Bool
is_colon c = c == b':'

abbrev pub directories : Option Bytes → List Bytes
directories none = []
directories (some []) = []
directories (some (c ∷ cs)) = split_by is_colon (c ∷ cs)

abbrev plugins : Bytes
plugins = codes "/gst-plugins"

directories-append :
    (home : Bytes) (rest : Bytes)
    → directories (some ((home ++ plugins) ++ rest)) ≡ split_by is_colon ((home ++ plugins) ++ rest)
directories-append [] rest = refl
directories-append (c ∷ home) rest = refl

plugins_dir :
    (home : Bytes)
    → any is_colon home ≡ false
    → split_by is_colon (home ++ plugins) ≡ (home ++ plugins) ∷ []
plugins_dir home h =
    Text.split_by-plain is_colon (home ++ plugins)
      (Text.any-append is_colon home plugins ∙ ap (λ b. b || false) h)

home_only :
    (home : Bytes)
    → any is_colon home ≡ false
    → directories (some ((home ++ plugins) ++ [])) ≡ (home ++ plugins) ∷ []
home_only home h =
    directories-append home []
    ∙ ap (split_by is_colon) (append-nil (home ++ plugins))
    ∙ plugins_dir home h

-- For a home directory with no colon, the directories that GStreamer searches are its plugin directory
-- and then the old ones.
pub plugin_path-directories :
    (home : Bytes) (existing : Option Bytes)
    → any is_colon home ≡ false
    → directories (plugin_path (some home) existing) ≡ (home ++ plugins) ∷ directories existing
unfolding plugin_path
plugin_path-directories home none h = home_only home h
plugin_path-directories home (some []) h = home_only home h
plugin_path-directories home (some (c ∷ cs)) h =
    directories-append home (b':' ∷ c ∷ cs)
    ∙ Text.split_by-at is_colon (home ++ plugins) b':' (c ∷ cs) refl
    ∙ ap (λ ds. ds ++ split_by is_colon (c ∷ cs)) (plugins_dir home h)
