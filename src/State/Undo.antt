-- ===== src/State/Undo.antt =====
-- The maps after an undo of each kind: what they answer, and that their keys stay right.
use group_bridge.Base.{◌≡◌, refl, Str, str_eq, Option, none, some, arith}
use group_bridge.Base.Map.{Map, lookup, insert, erase, lookup-insert, lookup-erase}
use group_bridge.Base.Index.{IsKeyed, insert-IsKeyed, erase-IsKeyed, lookup-IsKeyed}
use group_bridge.State.Operations.{restore, put_back}

pub lookup-restore {ℓ} :
    {V : Type ℓ} (j k : Str) (v : V) (m : Map Str V)
    → lookup j (restore k (lookup k m) (insert k v m)) ≡ lookup j m
lookup-restore j k v m =
    elim (lookup k m)
        as (λ o. lookup k m ≡ o → lookup j (restore k o (insert k v m)) ≡ lookup j m) [
          | none ↦ λ e. ground (arith, e, lookup-erase j k (insert k v m), lookup-insert j k v m)
          | some w ↦
              λ e. ground (arith, e, lookup-insert j k w (insert k v m), lookup-insert j k v m)
        ]
      refl

pub lookup-put_back {ℓ} :
    {V : Type ℓ} (j k : Str) (m : Map Str V)
    → lookup j (put_back k (lookup k m) (erase k m)) ≡ lookup j m
lookup-put_back j k m =
    elim (lookup k m) as (λ o. lookup k m ≡ o → lookup j (put_back k o (erase k m)) ≡ lookup j m) [
      | none ↦ λ e. ground (arith, e, lookup-erase j k m)
      | some w ↦ λ e. ground (arith, e, lookup-insert j k w (erase k m), lookup-erase j k m)
    ]
      refl

pub lookup-undo_erase {ℓ} :
    {V : Type ℓ} (j k : Str) (v : V) (m : Map Str V)
    → lookup k m ≡ some v
    → lookup j (insert k v (erase k m)) ≡ lookup j m
lookup-undo_erase j k v m h = ground (arith, lookup-insert j k v (erase k m), lookup-erase j k m)

pub lookup-undo_join {ℓ} :
    {V : Type ℓ} (j old new : Str) (v w moved : V) (m : Map Str V)
    → lookup old m ≡ some v
    → lookup new m ≡ some w
    → lookup j (insert new w (insert old v (erase old (insert new moved m)))) ≡ lookup j m
lookup-undo_join j old new v w moved m x y = ground (
  arith,
  lookup-insert j new w (insert old v (erase old (insert new moved m))),
  lookup-insert j old v (erase old (insert new moved m)),
  lookup-erase j old (insert new moved m),
  lookup-insert j new moved m,
)

pub lookup-undo_rekey {ℓ} :
    {V : Type ℓ} (j old new : Str) (v moved : V) (m : Map Str V)
    → lookup old m ≡ some v
    → lookup new m ≡ none
    → lookup j (insert old v (erase new (insert new moved (erase old m)))) ≡ lookup j m
lookup-undo_rekey j old new v moved m x y = ground (
  arith,
  lookup-insert j old v (erase new (insert new moved (erase old m))),
  lookup-erase j new (insert new moved (erase old m)),
  lookup-insert j new moved (erase old m),
  lookup-erase j old m,
)

module _ {ℓ} {V : Type ℓ} (key : V → Str) where
  pub put_back-IsKeyed :
      (k : Str) (m n : Map Str V)
      → IsKeyed key m
      → IsKeyed key n
      → IsKeyed key (put_back k (lookup k m) n)
  put_back-IsKeyed k m n hm hn = by_lookup (lookup k m) refl
    where
      by_lookup : (o : Option V) → lookup k m ≡ o → IsKeyed key (put_back k o n)
      by_lookup none e = hn
      by_lookup (some v) e = insert-IsKeyed key k v n (lookup-IsKeyed key k v m hm e) hn

  pub restore-IsKeyed :
      (k : Str) (m n : Map Str V)
      → IsKeyed key m
      → IsKeyed key n
      → IsKeyed key (restore k (lookup k m) n)
  restore-IsKeyed k m n hm hn = by_lookup (lookup k m) refl
    where
      by_lookup : (o : Option V) → lookup k m ≡ o → IsKeyed key (restore k o n)
      by_lookup none e = erase-IsKeyed key k n hn
      by_lookup (some v) e = insert-IsKeyed key k v n (lookup-IsKeyed key k v m hm e) hn
