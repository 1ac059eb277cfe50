-- ===== src/Prelude/Text.antt =====
-- Python's `str` as the list of its code points, which concatenates, splits and compares as a list.
use Prim.Native.Nat.{ℕ}
use Prim.Native.Char.{code}
use Prim.Native.String.{String}
use mathlib.Core.List.{List, [], ◌∷◌}
use mathlib.Core.Option.{Option, none, some}
use mathlib.Core.Bool.{Bool, true, false, ◌&&◌}
use petrosa_cio.Prelude.Tests.{◌==◌}
use native.Mathlib.Decide.{ℕ_discrete}

abbrev pub Str : Type 0
Str = List ℕ

-- A literal.
abbrev pub str : String → Str
str String.[] = []
str (String.◌∷◌ c s) = code c ∷ str s

unfoldable pub Str-discrete : Discrete Str
unfolding ℕ_discrete
Str-discrete = hlevel ℕ_discrete

-- `s or t` on a string that may be `None`: the empty string is falsy too.
abbrev pub or_else : Option Str → Str → Str
or_else none t = t
or_else (some []) t = t
or_else (some (c ∷ s)) t = c ∷ s

-- `s.startswith(prefix)`.
unfoldable pub starts_with : Str → Str → Bool
starts_with [] s = true
starts_with (x ∷ prefix) [] = false
starts_with (x ∷ prefix) (y ∷ s) = let rest = starts_with prefix s in x == y && rest
