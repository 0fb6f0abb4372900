-- ===== src/Base/Text.antt =====
-- Go strings are sequences of bytes: a list of numbers. `bytes` spells an ASCII literal.
use Prim.Native.Nat.{ℕ}
use Prim.Native.Char.{code}
use Prim.Native.String.{String}
use mathlib.Core.Path.{◌≡◌, refl}
use mathlib.Core.Logic.{dite}
use mathlib.Core.Bool.{Bool, true, false, ◌&&◌, Bool-discrete}
use mathlib.Core.List.{List, [], ◌∷◌}
use native.Mathlib.Omega.{arith}
use group_bridge.Base.Equality.{Eq, ◌==◌, if◌then◌else◌, number_eq}
use group_bridge.Base.Numbers.{ltb}

abbrev pub Str : Type 0
Str = List ℕ

unfoldable pub bytes : String → Str
bytes String.[] = []
bytes (String.◌∷◌ c s) = code c ∷ bytes s

unfoldable pub same : Str → Str → Bool
same [] [] = true
same (a ∷ s) (b ∷ t) = a == b && same s t
same _ _ = false

pub same→eq : (s t : Str) → same s t ≡ true → s ≡ t
unfolding same
same→eq [] [] h = refl
same→eq [] (b ∷ t) h = ground arith
same→eq (a ∷ s) [] h = ground arith
same→eq (a ∷ s) (b ∷ t) h = ground (arith, same→eq s t)

same_refl : (s : Str) → same s s ≡ true
unfolding same
same_refl [] = refl
same_refl (a ∷ s) = ground (arith, same_refl s)

pub differ : (s t : Str) → s ≡ t → same s t ≡ true
differ s t p = rw p (same_refl t)

-- Shut in proofs, where a split on `s == t` yields the equation or its negation.
instance unfoldable pub str_eq : Eq Str
unfolding same number_eq
str_eq = record {
  dec = λ s t.
      dite (Bool-discrete (same s t) true) (λ h. yes (same→eq s t h))
        (λ h. no (λ p. h (differ s t p)));
}

-- s == ""
abbrev pub is_empty : Str → Bool
is_empty [] = true
is_empty (c ∷ s) = false

-- a < b on Go strings: byte by byte.
unfoldable pub str_lt : Str → Str → Bool
str_lt s [] = false
str_lt [] (b ∷ t) = true
str_lt (a ∷ s) (b ∷ t) = if ltb a b then true else a == b && str_lt s t

-- strings.HasPrefix
unfoldable pub has_prefix : Str → Str → Bool
has_prefix s [] = true
has_prefix [] (b ∷ t) = false
has_prefix (a ∷ s) (b ∷ t) = a == b && has_prefix s t
