-- ===== src/Texts.antt =====
-- Python texts: `str.strip`, and the hexadecimal digits of a digest or a run id.
use foxhound.Prelude.{String, Bool, true, false, ◌&&◌, if◌then◌else◌}
use Prim.Native.Char.{code}
use foxhound.Schema.{is_hex}
use foxhound.Operation.{is_space}

-- `str.strip`, from the left and from the right.
unfoldable pub strip_left : String → String
unfolding is_space
strip_left String.[] = String.[]
strip_left (String.◌∷◌ c s) =
    let rest = strip_left s in if is_space (code c) then rest else String.◌∷◌ c s

is_empty : String → Bool
is_empty String.[] = true
is_empty (String.◌∷◌ c s) = false

unfoldable pub strip_right : String → String
unfolding is_space is_empty
strip_right String.[] = String.[]
strip_right (String.◌∷◌ c s) =
    let rest = strip_right s in
    if is_empty rest && is_space (code c) then String.[] else String.◌∷◌ c rest

unfoldable pub strip : String → String
unfolding strip_left strip_right
strip s = strip_right (strip_left s)

unfoldable pub all_hex : String → Bool
unfolding is_hex
all_hex String.[] = true
all_hex (String.◌∷◌ c s) = is_hex (code c) && all_hex s
