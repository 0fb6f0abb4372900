-- ===== src/Base/Numbers.antt =====
-- Boolean orders on the native numbers, and the signed integers of Go's int64 times.
use Prim.Native.Nat.{ℕ, suc, ◌+◌, ◌%◌, ◌^◌, ◌≤◌, ◌<◌, compare, Ordering}
use mathlib.Core.Path.{◌≡◌, refl}
use mathlib.Core.Logic.{◌⊎◌, inl, inr}
use mathlib.Core.Bool.{Bool, true, false}
use native.Mathlib.Omega.{arith}

abbrev pub ltb : ℕ → ℕ → Bool
ltb a b = elim (compare a b) [ Ordering.lt ↦ true | _ ↦ false ]

abbrev pub leb : ℕ → ℕ → Bool
leb a b = elim (compare a b) [ Ordering.gt ↦ false | _ ↦ true ]

pub ltb→lt : (a b : ℕ) → ltb a b ≡ true → a < b
ltb→lt a b h = ground arith

pub leb→le : (a b : ℕ) → leb a b ≡ true → a ≤ b
leb→le a b h = ground arith

pub le_or_lt : (a b : ℕ) → (a ≤ b) ⊎ (b < a)
le_or_lt a b = by_test (leb a b) (λ h. ground arith) (λ h. ground arith)
  where
    by_test : (t : Bool) → (t ≡ true → a ≤ b) → (t ≡ false → b < a) → (a ≤ b) ⊎ (b < a)
    by_test true small big = inl (small refl)
    by_test false small big = inr (big refl)

-- `negsuc n` is -(n + 1).
pub data ℤ : Type 0 where
  pos : ℕ → ℤ
  negsuc : ℕ → ℤ

abbrev pub pos_part : ℤ → ℕ
pos_part (pos n) = n
pos_part (negsuc n) = 0

abbrev pub neg_part : ℤ → ℕ
neg_part (pos n) = 0
neg_part (negsuc n) = suc n

-- a ≤ b + k, the one comparison of times that the code makes.
abbrev pub within : ℤ → ℤ → ℕ → Bool
within a b k = leb (pos_part a + neg_part b) (pos_part b + neg_part a + k)

-- An atomic 64-bit counter after `Add(n)`.
pub counted : ℕ → ℕ → ℕ
counted total n = (total + n) % 2 ^ 64
