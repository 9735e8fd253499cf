-- ===== src/Base/Keys.antt =====
-- Keys that are names joined by slashes, for names without a slash.
use mathlib.Core.Path.{◌≡◌, refl}
use mathlib.Core.Bool.{Bool, true, not, ◌&&◌}
use mathlib.Core.List.{[], ◌∷◌, ◌++◌}
use native.Mathlib.Omega.{arith}
use snmpproxy.Base.Tests.{nat_beq}
use snmpproxy.Base.Equality.{Str, str_beq}
use snmpproxy.Base.Text.{has_prefix}

-- No byte of the name is a slash.
abbrev pub slash_free : Str → Bool
slash_free [] = true
slash_free (c ∷ s) = not (nat_beq c b'/') && slash_free s

pub has_prefix-slash :
    (a b x y : Str)
    → slash_free a ≡ true
    → slash_free b ≡ true
    → has_prefix (a ++ (b'/' ∷ x)) (b ++ (b'/' ∷ y)) ≡ (str_beq a b && has_prefix x y)
unfolding has_prefix str_beq
has_prefix-slash [] [] x y h k = ground arith
has_prefix-slash [] (d ∷ b) x y h k = ground arith
has_prefix-slash (c ∷ a) [] x y h k = ground arith
has_prefix-slash (c ∷ a) (d ∷ b) x y h k = ground (arith, has_prefix-slash a b x y)

pub str_beq-slash :
    (a b x y : Str)
    → slash_free a ≡ true
    → slash_free b ≡ true
    → str_beq (a ++ (b'/' ∷ x)) (b ++ (b'/' ∷ y)) ≡ (str_beq a b && str_beq x y)
unfolding str_beq
str_beq-slash [] [] x y h k = ground arith
str_beq-slash [] (d ∷ b) x y h k = ground arith
str_beq-slash (c ∷ a) [] x y h k = ground arith
str_beq-slash (c ∷ a) (d ∷ b) x y h k = ground (arith, str_beq-slash a b x y)

pub has_prefix-append : (a x : Str) → has_prefix a (a ++ x) ≡ true
unfolding has_prefix
has_prefix-append [] x = refl
has_prefix-append (c ∷ a) x = ground (arith, has_prefix-append a x)
