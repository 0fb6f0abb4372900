-- ===== src/Base/Counting.antt =====
-- Calls of which each adds at most so much to what their state counts.
use group_bridge.Base.Exec.{Result, ok, err, Exec, continue, ◌>>=◌}
use Prim.Native.Nat.{ℕ, ◌+◌, ◌≤◌}
use native.Mathlib.Omega.{arith}

module _ {E S : Type 0} (count : S → ℕ) where
  abbrev Adds : {A : Type 0} → ℕ → Exec E S A → Type 0
  Adds n m = (c : S) → count (m c).1 ≤ count c + n

  pub Adds-bind :
      {A B : Type 0} (j k : ℕ) (m : Exec E S A) (f : A → Exec E S B)
      → Adds j m
      → ((a : A) → Adds k (f a))
      → Adds (j + k) (m >>= f)
  Adds-bind {A = A} j k m f h g c = of_result (m c) (h c)
    where
      of_result :
          (r : Result E A × S)
          → count r.1 ≤ count c + j
          → count (continue r.0 f r.1).1 ≤ count c + (j + k)
      of_result (ok a, d) p = ground (arith, g a d, p)
      of_result (err e, d) p = ground (arith, p)

  pub Adds-more : {A : Type 0} (j k : ℕ) (m : Exec E S A) → j ≤ k → Adds j m → Adds k m
  Adds-more j k m l h c = let p = h c in ground (arith, p, l)
