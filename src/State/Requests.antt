-- ===== src/State/Requests.antt =====
-- The operations of the store as data, so that one statement speaks of all of them.
use group_bridge.Base.{◌≡◌, Str, str_eq}
use group_bridge.Base.Map.{lookup}
use group_bridge.Base.Index.{IsKeyed}
use group_bridge.Base.Exec.{Result, ok, err}
use group_bridge.State.Ledger.{
  GroupMapping, Store, StateError, Faults, membership_key, mapping_key, absence_key,
}
use group_bridge.State.Operations.{
  mark_managed, unmark, put_group, delete_group, move_group, confirm_absent, reset_absent,
}

pub data Request : Type 0 where
  mark remove confirm reset delete : Str → Str → Str → Request
  put : GroupMapping → Request
  move : Str → Str → Str → Str → Str → Str → Request

abbrev pub forget {ℓ κ} :
    {E : Type ℓ} {A : Type κ} → Result E A × Store → Result E (Unit {0}) × Store
forget (ok _, s) = (ok tt, s)
forget (err e, s) = (err e, s)

unfoldable pub perform : Faults → Request → Store → Result StateError (Unit {0}) × Store
perform f (mark p g u) s = mark_managed f p g u s
perform f (remove p g u) s = unmark f p g u s
perform f (confirm p g u) s = forget (confirm_absent f p g u s)
perform f (reset p g u) s = reset_absent f p g u s
perform f (delete p r i) s = delete_group f p r i s
perform f (put m) s = put_group f m s
perform f (move p r i j n q) s = move_group f p r i j n q s

-- The two stores answer every query alike, whatever the order of their entries.
pub record SameMemory (s t : Store) : Type 0 where
  pub records : (k : Str) → lookup k s.records ≡ lookup k t.records
  pub groups : (k : Str) → lookup k s.groups ≡ lookup k t.groups
  pub absences : (k : Str) → lookup k s.absences ≡ lookup k t.absences

-- Every entry lies under its own key, once.
pub record IsWellKeyed (s : Store) : Type 0 where
  pub records : IsKeyed membership_key s.records
  pub groups : IsKeyed mapping_key s.groups
  pub absences : IsKeyed absence_key s.absences
