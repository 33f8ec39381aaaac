-- ===== src/Prelude/Text.antt =====
-- The functions of Go's package strings that the repository calls, on texts of one-byte characters.
use Prim.Native.Char.{Char, code}
use Prim.Native.Nat.{ℕ}
use Prim.Native.String.{String, ◌++◌}
use mathlib.Core.Bool.{Bool, true, false}
use mathlib.Core.List.{List, [], ◌∷◌}
use mathlib.Core.Option.{Option, none, some}
use wavefront_collector_for.Prelude.Tests.{eqb, if◌then◌else◌}

-- strings.HasPrefix, with the prefix first
unfoldable pub is_prefix : String → String → Bool
is_prefix String.[] s = true
is_prefix (String.◌∷◌ c p) String.[] = false
is_prefix (String.◌∷◌ c p) (String.◌∷◌ d s) =
    let rest = is_prefix p s in if eqb (code c) (code d) then rest else false

-- strings.Contains, with the text that is sought first
unfoldable pub contains : String → String → Bool
unfolding is_prefix
contains p String.[] = is_prefix p String.[]
contains p (String.◌∷◌ c s) =
    let rest = contains p s in if is_prefix p (String.◌∷◌ c s) then true else rest

-- the first piece of a split grows by one character
abbrev onto_first : Char → List String → List String
onto_first c [] = (String.◌∷◌ c String.[]) ∷ []
onto_first c (s ∷ ss) = (String.◌∷◌ c s) ∷ ss

-- strings.Split at a separator of one byte
unfoldable pub split : ℕ → String → List String
split sep String.[] = "" ∷ []
split sep (String.◌∷◌ c s) =
    let rest = split sep s in if eqb (code c) sep then "" ∷ rest else onto_first c rest

abbrev pub onto_both : Char → Option (String × String) → Option (String × String)
onto_both c none = none
onto_both c (some (s, t)) = some (String.◌∷◌ c s, t)

-- strings.SplitN(s, sep, 2), if it gives two pieces
unfoldable pub split_once : ℕ → String → Option (String × String)
split_once sep String.[] = none
split_once sep (String.◌∷◌ c s) =
    let rest = split_once sep s in if eqb (code c) sep then some ("", s) else onto_both c rest

-- strings.Replace of one character by another, everywhere
unfoldable pub replace : ℕ → Char → String → String
replace old new String.[] = ""
replace old new (String.◌∷◌ c s) =
    String.◌∷◌ (if eqb (code c) old then new else c) (replace old new s)

-- strings.Join
unfoldable pub join : String → List String → String
join sep [] = ""
join sep (s ∷ []) = s
join sep (s ∷ t ∷ ss) = s ++ sep ++ join sep (t ∷ ss)
