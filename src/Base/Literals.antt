-- ===== src/Base/Literals.antt =====
-- String literals of the source as texts.
use Prim.Native.Char.{code}
use Prim.Native.String as S
use Prim.Native.String.{String}
use mathlib.Core.List.{[], ◌∷◌}
use operating_systems_lab.Base.Words.{Text}

abbrev pub chars : String → Text
chars S.[] = []
chars (S.◌∷◌ c s) = code c ∷ chars s
