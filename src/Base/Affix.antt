-- ===== src/Base/Affix.antt =====
-- `starts_with` and `ends_with` on texts.
use Prim.Native.Char.{code}
use Prim.Native.String.{String}
use mathlib.Core.Bool.{Bool, true, false, ◌&&◌, ◌||◌}
use text.Mathlib.Text.{◌==◌ as str_eq}
use essentials_merchant.Base.Tests.{◌==◌}

-- `s.starts_with(prefix)`
abbrev pub starts_with : String → String → Bool
starts_with s String.[] = true
starts_with String.[] (String.◌∷◌ p ps) = false
starts_with (String.◌∷◌ c cs) (String.◌∷◌ p ps) = code c == code p && starts_with cs ps

-- `s.ends_with(suffix)`
abbrev pub ends_with : String → String → Bool
ends_with String.[] suffix = str_eq String.[] suffix
ends_with (String.◌∷◌ c cs) suffix = str_eq (String.◌∷◌ c cs) suffix || ends_with cs suffix
