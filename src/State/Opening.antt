-- ===== src/State/Opening.antt =====
-- internal/state/store.go: opening and closing the store.
use group_bridge.Base.{Bool, true, false, [], ◌||◌, ◌==◌, if◌then◌else◌, number_eq}
use group_bridge.Base.Exec.{Result, ok, err, Exec}
use group_bridge.Base.Index.{load}
use group_bridge.State.Ledger.{
  DiskState, StateFile, missing, unreadable, garbage, document, Store, StateError, dir_failed,
  lock_failed, already_locked, read_failed, decode_failed, unlock_failed, close_failed,
  unsupported_version, membership_key, mapping_key, absence_key,
}

abbrev pub fresh_store : StateFile → Store
fresh_store file = record { records = []; groups = []; absences = []; file = file; locked = true }

abbrev pub loaded : StateFile → DiskState → Store
loaded file d = record {
  records = load membership_key d.memberships [];
  groups = load mapping_key d.group_mappings [];
  absences = load absence_key d.absences [];
  file = file;
  locked = true;
}

unfoldable pub read_state : StateFile → Result StateError Store
read_state missing = ok (fresh_store missing)
read_state unreadable = err read_failed
read_state garbage = err decode_failed
read_state (document d) =
    if d.version == 2 || d.version == 3
    then ok (loaded (document d) d)
    else err (unsupported_version d.version)

-- The calls of `Open` before the file is read: each may fail, and the lock may be another's.
pub record OpenFaults : Type 0 where
  pub dir_fails : Bool
  pub lock_fails : Bool
  pub held : Bool

unfoldable pub open_store : OpenFaults → StateFile → Result StateError Store
unfolding read_state
open_store f file =
    if f.dir_fails
    then err dir_failed
    else if f.lock_fails
    then err lock_failed
    else if f.held
    then err already_locked
    else read_state file

-- A failing unlock keeps the lock file; a failing close gives it up all the same.
unfoldable pub close_store : Bool → Bool → Exec StateError Store (Unit {0})
close_store unlock_fails close_fails s =
    if s.locked
    then (if unlock_fails
        then (err unlock_failed, s)
        else (if close_fails then err close_failed else ok tt, record s { locked = false }))
    else (ok tt, s)
