-- ===== src/Base/Map.antt =====
-- Go maps as association lists. The order of the list is the order of an iteration, which Go
-- leaves open: what is proved holds for every order.
use group_bridge.Base.Equality.{Eq, ◌==◌, if◌then◌else◌}
use group_bridge.Base.Lists.{length}
use Prim.Native.Nat.{suc, ◌≤◌}
use mathlib.Core.Path.{◌≡◌, refl}
use mathlib.Core.Bool.{Bool, true, false}
use mathlib.Core.Option.{Option, none, some}
use mathlib.Core.List.{List, [], ◌∷◌}
use native.Mathlib.Omega.{arith}

abbrev pub Map {ℓ κ} : Type ℓ → Type κ → Type (ℓ ⊔ κ)
Map K V = List (K × V)

abbrev pub values {ℓ κ} : {K : Type ℓ} {V : Type κ} → Map K V → List V
values [] = []
values ((k, v) ∷ m) = v ∷ values m

abbrev pub when_kept {κ} : {V : Type κ} → (V → Bool) → Option V → Option V
when_kept p none = none
when_kept p (some v) = if p v then some v else none

module _ {ℓ κ} {K : Type ℓ} {V : Type κ} ⦃e : Eq K⦄ where
  -- v, ok := m[k]
  unfoldable pub lookup : K → Map K V → Option V
  lookup k [] = none
  lookup k ((j, v) ∷ m) = if k == j then some v else lookup k m

  unfoldable pub has : K → Map K V → Bool
  has k [] = false
  has k ((j, v) ∷ m) = if k == j then true else has k m

  -- m[k] = v
  unfoldable pub insert : K → V → Map K V → Map K V
  insert k v [] = (k, v) ∷ []
  insert k v ((j, w) ∷ m) = if k == j then (k, v) ∷ m else (j, w) ∷ insert k v m

  -- delete(m, k)
  unfoldable pub erase : K → Map K V → Map K V
  erase k [] = []
  erase k ((j, w) ∷ m) = let rest = erase k m in if k == j then rest else (j, w) ∷ rest

  pub lookup-insert :
      (j k : K) (v : V) (m : Map K V)
      → lookup j (insert k v m) ≡ (if j == k then some v else lookup j m)
  unfolding insert lookup
  lookup-insert j k v [] = ground arith
  lookup-insert j k v (_ ∷ m) = ground (arith, lookup-insert j k v m)

  pub lookup-erase :
      (j k : K) (m : Map K V) → lookup j (erase k m) ≡ (if j == k then none else lookup j m)
  unfolding erase lookup
  lookup-erase j k [] = ground arith
  lookup-erase j k (_ ∷ m) = ground (arith, lookup-erase j k m)

  pub has-eq_lookup :
      (k : K) (m : Map K V) → has k m ≡ elim (lookup k m) [ none ↦ false | some v ↦ true ]
  unfolding has lookup
  has-eq_lookup k [] = refl
  has-eq_lookup k (_ ∷ m) = ground (arith, has-eq_lookup k m)

  -- An insertion adds at most one key, and none if the key is there.
  pub length-insert :
      (k : K) (v : V) (m : Map K V)
      → length (insert k v m) ≡ (if has k m then length m else suc (length m))
  unfolding insert has
  length-insert k v [] = refl
  length-insert k v (_ ∷ m) = ground (arith, length-insert k v m)

  pub length-erase : (k : K) (m : Map K V) → length (erase k m) ≤ length m
  unfolding erase
  length-erase k [] = omega arith
  length-erase k (_ ∷ m) = ground (arith, length-erase k m)

  -- No key is there twice.
  abbrev pub IsUnique : Map K V → Type κ
  IsUnique [] = Unit
  IsUnique ((k, v) ∷ m) = (lookup k m ≡ none) × IsUnique m

  pub insert-IsUnique : (k : K) (v : V) (m : Map K V) → IsUnique m → IsUnique (insert k v m)
  unfolding insert lookup
  insert-IsUnique k v [] u = (refl, tt)
  insert-IsUnique k v ((j, w) ∷ m) u = ground (arith, insert-IsUnique k v m, lookup-insert j k v m)

  pub erase-IsUnique : (k : K) (m : Map K V) → IsUnique m → IsUnique (erase k m)
  unfolding erase
  erase-IsUnique k [] u = tt
  erase-IsUnique k ((j, w) ∷ m) u = ground (arith, erase-IsUnique k m, lookup-erase j k m)

  -- for k, v := range m { if !p(v) { delete(m, k) } }
  unfoldable pub keep_if : (V → Bool) → Map K V → Map K V
  keep_if p [] = []
  keep_if p ((j, w) ∷ m) = let rest = keep_if p m in if p w then (j, w) ∷ rest else rest

  pub lookup-keep_if :
      (p : V → Bool) (k : K) (m : Map K V)
      → IsUnique m
      → lookup k (keep_if p m) ≡ when_kept p (lookup k m)
  unfolding keep_if lookup
  lookup-keep_if p k [] u = refl
  lookup-keep_if p k ((j, w) ∷ m) u = ground (arith, lookup-keep_if p k m)

  pub keep_if-IsUnique : (p : V → Bool) (m : Map K V) → IsUnique m → IsUnique (keep_if p m)
  unfolding keep_if
  keep_if-IsUnique p [] u = tt
  keep_if-IsUnique p ((j, w) ∷ m) u = ground (arith, keep_if-IsUnique p m, lookup-keep_if p j m)

  pub length-keep_if : (p : V → Bool) (m : Map K V) → length (keep_if p m) ≤ length m
  unfolding keep_if
  length-keep_if p [] = omega arith
  length-keep_if p ((j, w) ∷ m) = ground (arith, length-keep_if p m)

  pub lookup-insert_self : (k : K) (v : V) (m : Map K V) → lookup k (insert k v m) ≡ some v
  lookup-insert_self k v m = ground (arith, lookup-insert k k v m)

  -- A new entry that is dropped leaves what is kept of the others.
  pub keep_if-insert :
      (p : V → Bool) (k : K) (v : V) (m : Map K V)
      → lookup k m ≡ none
      → p v ≡ false
      → keep_if p (insert k v m) ≡ keep_if p m
  unfolding keep_if insert lookup
  keep_if-insert p k v [] e d = ground arith
  keep_if-insert p k v ((j, w) ∷ m) e d = ground (arith, keep_if-insert p k v m)

  pub lookup-keep_if-none :
      (p : V → Bool) (k : K) (m : Map K V) → lookup k m ≡ none → lookup k (keep_if p m) ≡ none
  unfolding keep_if lookup
  lookup-keep_if-none p k [] e = refl
  lookup-keep_if-none p k ((j, w) ∷ m) e = ground (arith, lookup-keep_if-none p k m)

  pub length-erase_has :
      (k : K) (v : V) (m : Map K V) → lookup k m ≡ some v → suc (length (erase k m)) ≤ length m
  unfolding erase lookup
  length-erase_has k v [] h = ground arith
  length-erase_has k v ((j, w) ∷ m) h = ground (arith, length-erase_has k v m, length-erase k m)

  pub length-insert_le : (k : K) (v : V) (m : Map K V) → length (insert k v m) ≤ suc (length m)
  length-insert_le k v m = ground (arith, length-insert k v m)

  pub length-insert_known :
      (k : K) (v w : V) (m : Map K V) → lookup k m ≡ some w → length (insert k v m) ≡ length m
  length-insert_known k v w m h = ground (arith, length-insert k v m, has-eq_lookup k m)

  -- Every entry of the first map stands in the second: an iteration over a map that it changes.
  abbrev pub Stands : Map K V → Map K V → Type κ
  Stands [] m = Unit
  Stands ((k, v) ∷ rest) m = (lookup k m ≡ some v) × (lookup k rest ≡ none) × Stands rest m

  Stands-cons :
      (rest : Map K V) (j : K) (w : V) (m : Map K V)
      → lookup j rest ≡ none
      → Stands rest m
      → Stands rest ((j, w) ∷ m)
  unfolding lookup
  Stands-cons [] j w m h s = tt
  Stands-cons ((k, v) ∷ rest) j w m h s = ground (arith, Stands-cons rest j w m)

  pub Stands-self : (m : Map K V) → IsUnique m → Stands m m
  unfolding lookup
  Stands-self [] u = tt
  Stands-self ((k, v) ∷ m) u = ground (arith, Stands-cons m k v m, Stands-self m)

  pub Stands-erase :
      (rest : Map K V) (k : K) (m : Map K V)
      → lookup k rest ≡ none
      → Stands rest m
      → Stands rest (erase k m)
  unfolding lookup
  Stands-erase [] k m h s = tt
  Stands-erase ((j, w) ∷ rest) k m h s = ground (arith, Stands-erase rest k m, lookup-erase j k m)

  pub has-insert :
      (j k : K) (v : V) (m : Map K V) → has j (insert k v m) ≡ (if j == k then true else has j m)
  unfolding has insert
  has-insert j k v [] = refl
  has-insert j k v (_ ∷ m) = ground (arith, has-insert j k v m)

  pub has-erase : (j k : K) (m : Map K V) → has j (erase k m) ≡ (if j == k then false else has j m)
  unfolding has erase
  has-erase j k [] = ground arith
  has-erase j k (_ ∷ m) = ground (arith, has-erase j k m)
