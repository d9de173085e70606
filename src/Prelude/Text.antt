-- ===== src/Prelude/Text.antt =====
-- `String.prototype.trim` and `join`, over the native text.
use Prim.Native.Nat.{ℕ}
use Prim.Native.Char.{code}
use Prim.Native.String
use Prim.Native.String.{String, [], ◌∷◌}
use mathlib.Core.Bool.{Bool, ◌&&◌, ◌||◌}
use mathlib.Core.List.{List}
use text.Mathlib.Text.{◌==◌ as str_eq}
use pi_agentworks.Prelude.Tests.{leb, ◌==◌, if◌then◌else◌}

-- The white space and line terminators of ECMAScript.
is_white_space : ℕ → Bool
is_white_space c =
    (leb 9 c && leb c 13)
    || c == 0x20
    || c == 0xa0
    || c == 0x1680
    || (leb 0x2000 c && leb c 0x200a)
    || c == 0x2028
    || c == 0x2029
    || c == 0x202f
    || c == 0x205f
    || c == 0x3000
    || c == 0xfeff

trim_start : String → String
trim_start [] = []
trim_start (c ∷ s) = if is_white_space (code c) then trim_start s else c ∷ s

trim_end : String → String
trim_end [] = []
trim_end (c ∷ s) =
    let rest = trim_end s in if str_eq rest "" && is_white_space (code c) then "" else c ∷ rest

unfoldable pub trim : String → String
unfolding is_white_space trim_start trim_end
trim s = trim_end (trim_start s)

-- `parts.join(separator)`.
unfoldable pub join : String → List String → String
join separator List.[] = ""
join separator (List.◌∷◌ part List.[]) = part
join separator (List.◌∷◌ part (List.◌∷◌ next parts)) =
    String.◌++◌ part (String.◌++◌ separator (join separator (List.◌∷◌ next parts)))
