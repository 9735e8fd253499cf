-- ===== src/Base/Text.antt =====
-- The functions of Go's `strings` that the program calls, on byte sequences, and their laws.
use Prim.Native.Char.{code}
use Prim.Native.Nat.{ℕ}
use Prim.Native.String.{String}
use mathlib.Core.Bool.{Bool, true, false, ◌&&◌}
use mathlib.Core.List.{List, [], ◌∷◌, ◌++◌}
use snmpproxy.Base.Tests.{nat_beq, if◌then◌else◌}
use snmpproxy.Base.Equality.{Str}

-- The bytes of a literal, which is ASCII.
abbrev pub lit : String → Str
lit String.[] = []
lit (String.◌∷◌ c s) = code c ∷ lit s

-- `strings.HasPrefix(s, p)`, with the prefix first.
unfoldable pub has_prefix : Str → Str → Bool
has_prefix [] s = true
has_prefix (a ∷ p) [] = false
has_prefix (a ∷ p) (b ∷ s) = nat_beq a b && has_prefix p s

abbrev pub cons_head : ℕ → List Str → List Str
cons_head c [] = (c ∷ []) ∷ []
cons_head c (part ∷ rest) = (c ∷ part) ∷ rest

-- `strings.Split(s, "/")` for the separator byte `sep`.
unfoldable pub split : ℕ → Str → List Str
split sep [] = [] ∷ []
split sep (c ∷ s) = let rest = split sep s in if nat_beq c sep then [] ∷ rest else cons_head c rest

-- `strings.Join(parts, "/")`
unfoldable pub join : ℕ → List Str → Str
join sep [] = []
join sep (p ∷ []) = p
join sep (p ∷ q ∷ rest) = p ++ (sep ∷ join sep (q ∷ rest))
