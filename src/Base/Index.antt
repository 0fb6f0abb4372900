-- ===== src/Base/Index.antt =====
-- Maps whose entries lie under a key that the value itself determines, written out as a list of
-- values in the order of their keys and read back.
use group_bridge.Base.Equality.{◌==◌, if◌then◌else◌}
use group_bridge.Base.Text.{Str, str_eq, str_lt}
use group_bridge.Base.Map.{Map, values, lookup, insert, erase, lookup-insert, lookup-erase}
use mathlib.Core.Path.{◌≡◌, refl}
use mathlib.Core.Option.{Option, none, some, or_else}
use mathlib.Core.List.{List, [], ◌∷◌}
use native.Mathlib.Omega.{arith}

module _ {ℓ} {V : Type ℓ} (key : V → Str) where
  insert_by : V → List V → List V
  insert_by x [] = x ∷ []
  insert_by x (y ∷ ys) =
      let rest = insert_by x ys in if str_lt (key y) (key x) then y ∷ rest else x ∷ y ∷ ys

  -- sort.Slice by key. No two values of a map have one key, so stability plays no part.
  unfoldable pub sort_by : List V → List V
  unfolding insert_by
  sort_by [] = []
  sort_by (x ∷ xs) = insert_by x (sort_by xs)

  -- for _, v := range list { m[key(v)] = v }
  unfoldable pub load : List V → Map Str V → Map Str V
  load [] m = m
  load (v ∷ l) m = load l (insert (key v) v m)

  -- Every value lies under its own key, and no key is there twice.
  abbrev pub IsKeyed : Map Str V → Type ℓ
  IsKeyed [] = Unit
  IsKeyed ((k, v) ∷ m) = (k ≡ key v) × (lookup k m ≡ none) × IsKeyed m

  pub insert-IsKeyed :
      (k : Str) (v : V) (m : Map Str V) → k ≡ key v → IsKeyed m → IsKeyed (insert k v m)
  unfolding insert lookup
  insert-IsKeyed k v [] e h = (e, refl, tt)
  insert-IsKeyed k v ((j, w) ∷ m) e h = ground (arith, insert-IsKeyed k v m, lookup-insert j k v m)

  pub erase-IsKeyed : (k : Str) (m : Map Str V) → IsKeyed m → IsKeyed (erase k m)
  unfolding erase
  erase-IsKeyed k [] h = tt
  erase-IsKeyed k ((j, w) ∷ m) h = ground (arith, erase-IsKeyed k m, lookup-erase j k m)

  -- The value under its own key.
  pub lookup-IsKeyed :
      (k : Str) (v : V) (m : Map Str V) → IsKeyed m → lookup k m ≡ some v → k ≡ key v
  unfolding lookup
  lookup-IsKeyed k v [] h e = ground arith
  lookup-IsKeyed k v ((j, w) ∷ m) h e = ground (arith, lookup-IsKeyed k v m)

  pick : Str → List V → Option V
  pick k [] = none
  pick k (v ∷ l) = if k == key v then some v else pick k l

  abbrev Distinct : List V → Type ℓ
  Distinct [] = Unit
  Distinct (v ∷ l) = (pick (key v) l ≡ none) × Distinct l

  pick-values : (k : Str) (m : Map Str V) → IsKeyed m → pick k (values m) ≡ lookup k m
  unfolding pick lookup
  pick-values k [] h = refl
  pick-values k ((j, w) ∷ m) h = ground (arith, pick-values k m)

  values-Distinct : (m : Map Str V) → IsKeyed m → Distinct (values m)
  values-Distinct [] h = tt
  values-Distinct ((j, w) ∷ m) h = ground (arith, values-Distinct m, pick-values (key w) m)

  pick-insert_by :
      (k : Str) (x : V) (l : List V)
      → pick (key x) l ≡ none
      → pick k (insert_by x l) ≡ (if k == key x then some x else pick k l)
  unfolding pick insert_by
  pick-insert_by k x [] h = refl
  pick-insert_by k x (y ∷ l) h = ground (arith, pick-insert_by k x l)

  insert_by-Distinct : (x : V) (l : List V) → Distinct (x ∷ l) → Distinct (insert_by x l)
  unfolding pick insert_by
  insert_by-Distinct x [] h = ground arith
  insert_by-Distinct x (y ∷ l) h =
      ground (arith, insert_by-Distinct x l, pick-insert_by (key y) x l)

  pick-sort_by :
      (k : Str) (l : List V) → Distinct l → (pick k (sort_by l) ≡ pick k l) × Distinct (sort_by l)
  unfolding pick sort_by
  pick-sort_by k [] h = (refl, tt)
  pick-sort_by k (x ∷ l) h = ground (
    arith,
    pick-sort_by k l,
    pick-sort_by (key x) l,
    pick-insert_by k x (sort_by l),
    insert_by-Distinct x (sort_by l),
  )

  lookup-load :
      (k : Str) (l : List V) (m : Map Str V)
      → Distinct l
      → lookup k (load l m) ≡ or_else (pick k l) (lookup k m)
  unfolding load pick or_else
  lookup-load k [] m h = refl
  lookup-load k (v ∷ l) m h =
      ground (arith, lookup-load k l (insert (key v) v m), lookup-insert k (key v) v m)

  -- A map that is written out in order and read back has every entry that it had, and no more.
  pub lookup-load-sort_by :
      (k : Str) (m : Map Str V) → IsKeyed m → lookup k (load (sort_by (values m)) []) ≡ lookup k m
  unfolding or_else lookup
  lookup-load-sort_by k m h = ground (
    arith,
    lookup-load k (sort_by (values m)) [],
    pick-sort_by k (values m),
    pick-values k m,
    values-Distinct m,
  )

  pub load-IsKeyed : (l : List V) (m : Map Str V) → IsKeyed m → IsKeyed (load l m)
  unfolding load
  load-IsKeyed [] m h = h
  load-IsKeyed (v ∷ l) m h = load-IsKeyed l (insert (key v) v m) (insert-IsKeyed (key v) v m refl h)
