-- ===== src/State/Operations.antt =====
-- internal/state/store.go: the methods of the store. The mutex makes each method one step.
use group_bridge.Base.{
  ◌+◌, Bool, true, false, Option, none, some, List, ◌==◌, if◌then◌else◌, Str, str_eq, leb,
}
use group_bridge.Base.Map.{Map, values, lookup, insert, erase}
use group_bridge.Base.Exec.{Result, ok, err, Exec}
use group_bridge.Base.Index.{sort_by}
use group_bridge.State.Ledger.{
  Membership, GroupMapping, Absence, Store, StateError, no_legacy_mapping, different_target, Faults,
  key, group_key, mapping_key, save_locked,
}

-- if err := s.saveLocked(); err != nil { undo; return err }
abbrev pub or_undo :
    Result StateError (Unit {0}) × Store → (Store → Store) → Result StateError (Unit {0}) × Store
or_undo (ok _, s) undo = (ok tt, s)
or_undo (err e, s) undo = (err e, undo s)

-- if existed { m[k] = previous } else { delete(m, k) }
abbrev pub restore {ℓ} : {V : Type ℓ} → Str → Option V → Map Str V → Map Str V
restore k none m = erase k m
restore k (some v) m = insert k v m

-- if existed { m[k] = previous }
abbrev pub put_back {ℓ} : {V : Type ℓ} → Str → Option V → Map Str V → Map Str V
put_back k none m = m
put_back k (some v) m = insert k v m

abbrev pub is_some {ℓ} : {A : Type ℓ} → Option A → Bool
is_some none = false
is_some (some a) = true

unfoldable pub is_managed : Str → Str → Str → Store → Bool
is_managed provider group_id user_id s = is_some (lookup (key provider group_id user_id) s.records)

unfoldable pub mark_managed : Faults → Str → Str → Str → Exec StateError Store (Unit {0})
mark_managed f provider group_id user_id s =
    let k = key provider group_id user_id in
    let m : Membership = record { provider = provider; group_id = group_id; user_id = user_id } in
    let previous = lookup k s.records in
    or_undo (save_locked f (record s { records = insert k m s.records }))
      λ t. record t { records = restore k previous t.records }

unfoldable pub unmark : Faults → Str → Str → Str → Exec StateError Store (Unit {0})
unmark f provider group_id user_id s =
    let k = key provider group_id user_id in
    let previous = lookup k s.records in
    or_undo (save_locked f (record s { records = erase k s.records }))
      λ t. record t { records = put_back k previous t.records }

unfoldable pub group : Str → Str → Str → Store → Option GroupMapping
group provider rule source_group_id s = lookup (group_key provider rule source_group_id) s.groups

unfoldable pub group_mappings : Store → List GroupMapping
group_mappings s = sort_by mapping_key (values s.groups)

unfoldable pub put_group : Faults → GroupMapping → Exec StateError Store (Unit {0})
put_group f mapping s =
    let k = mapping_key mapping in
    let previous = lookup k s.groups in
    or_undo (save_locked f (record s { groups = insert k mapping s.groups }))
      λ t. record t { groups = restore k previous t.groups }

-- `delete_group` once the mapping is looked up.
unfoldable pub drop_group : Faults → Str → Option GroupMapping → Exec StateError Store (Unit {0})
drop_group f k none s = (ok tt, s)
drop_group f k (some previous) s =
    or_undo (save_locked f (record s { groups = erase k s.groups }))
      λ t. record t { groups = insert k previous t.groups }

unfoldable pub delete_group : Faults → Str → Str → Str → Exec StateError Store (Unit {0})
unfolding drop_group
delete_group f provider rule source_group_id s =
    let k = group_key provider rule source_group_id in drop_group f k (lookup k s.groups) s

-- The mapping at the old key joins the one at the new key, whose target is the same.
unfoldable pub join_mappings :
    Faults → Str → Str → GroupMapping → GroupMapping → Str → Str → Exec StateError Store (Unit {0})
join_mappings f old_key new_key mapping existing native_id source_path s =
    let moved : GroupMapping = record existing {
      source_native_id = native_id;
      source_group_path = source_path;
    } in
    or_undo (save_locked f (record s { groups = erase old_key (insert new_key moved s.groups) }))
      λ t. record t { groups = insert new_key existing (insert old_key mapping t.groups) }

-- The mapping at the old key moves to the new key, where there is none.
unfoldable pub rekey_mapping :
    Faults → Str → Str → GroupMapping → Str → Str → Str → Exec StateError Store (Unit {0})
rekey_mapping f old_key new_key mapping new_source_group_id native_id source_path s =
    let moved : GroupMapping = record mapping {
      source_group_id = new_source_group_id;
      source_native_id = native_id;
      source_group_path = source_path;
    } in
    or_undo (save_locked f (record s { groups = insert new_key moved (erase old_key s.groups) }))
      λ t. record t { groups = insert old_key mapping (erase new_key t.groups) }

unfoldable pub same_target : GroupMapping → GroupMapping → Bool
same_target existing mapping =
    if existing.target_group_id == mapping.target_group_id
    then existing.target_group_path == mapping.target_group_path
    else false

-- `move_group` once both keys are looked up, the old one first.
unfoldable pub move_found :
    Faults
    → Str
    → Str
    → Option GroupMapping
    → Option GroupMapping
    → Str
    → Str
    → Str
    → Exec StateError Store (Unit {0})
unfolding join_mappings rekey_mapping same_target
move_found f old_key new_key none found new_id native_id source_path s = (err no_legacy_mapping, s)
move_found f old_key new_key (some mapping) (some existing) new_id native_id source_path s =
    if same_target existing mapping
    then join_mappings f old_key new_key mapping existing native_id source_path s
    else (err different_target, s)
move_found f old_key new_key (some mapping) none new_id native_id source_path s =
    rekey_mapping f old_key new_key mapping new_id native_id source_path s

unfoldable pub move_group :
    Faults → Str → Str → Str → Str → Str → Str → Exec StateError Store (Unit {0})
unfolding move_found
move_group f provider rule old_id new_id native_id source_path s =
    let old_key = group_key provider rule old_id in
    let new_key = group_key provider rule new_id in
    move_found f old_key new_key (lookup old_key s.groups) (lookup new_key s.groups) new_id
      native_id source_path s

-- The observation that follows `previous`.
abbrev pub observe : Str → Str → Str → Option Absence → Absence
observe provider group_id user_id none = record {
  provider = provider;
  group_id = group_id;
  user_id = user_id;
  observations = 1;
}
observe provider group_id user_id (some a) = record {
  provider = provider;
  group_id = group_id;
  user_id = user_id;
  observations = a.observations + 1;
}

-- return current.Observations >= 2, nil
abbrev pub answer : Bool → Result StateError (Unit {0}) × Store → Result StateError Bool × Store
answer b (ok _, s) = (ok b, s)
answer b (err e, s) = (err e, s)

unfoldable pub confirm_absent : Faults → Str → Str → Str → Exec StateError Store Bool
confirm_absent f provider group_id user_id s =
    let k = key provider group_id user_id in
    let previous = lookup k s.absences in
    let current = observe provider group_id user_id previous in
    answer (leb 2 current.observations) (
      or_undo (save_locked f (record s { absences = insert k current s.absences }))
        λ t. record t { absences = restore k previous t.absences })

-- `reset_absent` once the observation is looked up.
unfoldable pub drop_absence : Faults → Str → Option Absence → Exec StateError Store (Unit {0})
drop_absence f k none s = (ok tt, s)
drop_absence f k (some previous) s =
    or_undo (save_locked f (record s { absences = erase k s.absences }))
      λ t. record t { absences = insert k previous t.absences }

unfoldable pub reset_absent : Faults → Str → Str → Str → Exec StateError Store (Unit {0})
unfolding drop_absence
reset_absent f provider group_id user_id s =
    let k = key provider group_id user_id in drop_absence f k (lookup k s.absences) s
