-- ===== src/State/Ledger.antt =====
-- internal/state/store.go: the records of the ownership ledger, its keys and the save.
-- The file holds a decoded document, since encoding/json writes and reads every field of these
-- structs. Every call of the operating system may fail: a save takes the set of those that do.
use group_bridge.Base.{ℕ, Bool, List, ◌∷◌, ◌++◌, if◌then◌else◌, Str}
use group_bridge.Base.Map.{Map, values}
use group_bridge.Base.Exec.{ok, err, Exec, ◌>>◌}
use group_bridge.Base.Index.{sort_by}

pub record Membership : Type 0 where
  pub provider : Str
  pub group_id : Str
  pub user_id : Str

pub record GroupMapping : Type 0 where
  pub provider : Str
  pub rule : Str
  pub source_group_id : Str
  pub source_native_id : Str
  pub source_group_path : Str
  pub target_group_id : Str
  pub target_group_path : Str
  pub owned : Bool

pub record Absence : Type 0 where
  pub provider : Str
  pub group_id : Str
  pub user_id : Str
  pub observations : ℕ

pub record DiskState : Type 0 where
  pub version : ℕ
  pub memberships : List Membership
  pub group_mappings : List GroupMapping
  pub absences : List Absence

-- What stands at the state path.
pub data StateFile : Type 0 where
  missing unreadable garbage : StateFile
  document : DiskState → StateFile

pub record Store : Type 0 where
  pub records : Map Str Membership
  pub groups : Map Str GroupMapping
  pub absences : Map Str Absence
  pub file : StateFile
  pub locked : Bool

-- The calls of `saveLocked`, in their order.
pub data SaveStep : Type 0 where
  encode make_dir create_temp secure write sync close replace open_dir sync_dir close_dir : SaveStep

pub data StateError : Type 0 where
  save_failed : SaveStep → StateError
  no_legacy_mapping different_target : StateError
  dir_failed lock_failed already_locked read_failed decode_failed unlock_failed close_failed :
      StateError
  unsupported_version : ℕ → StateError

-- `true` for a step that fails.
abbrev pub Faults : Type 0
Faults = SaveStep → Bool

-- The three parts of a composite key are joined by a NUL byte.
unfoldable pub key : Str → Str → Str → Str
key provider group_id user_id = provider ++ (0 ∷ (group_id ++ (0 ∷ user_id)))

unfoldable pub group_key : Str → Str → Str → Str
group_key provider rule source_group_id = provider ++ (0 ∷ (rule ++ (0 ∷ source_group_id)))

abbrev pub membership_key : Membership → Str
membership_key m = key m.provider m.group_id m.user_id

abbrev pub mapping_key : GroupMapping → Str
mapping_key g = group_key g.provider g.rule g.source_group_id

abbrev pub absence_key : Absence → Str
absence_key a = key a.provider a.group_id a.user_id

-- The document that a save writes.
unfoldable pub snapshot : Store → DiskState
snapshot s = record {
  version = 3;
  memberships = sort_by membership_key (values s.records);
  group_mappings = sort_by mapping_key (values s.groups);
  absences = sort_by absence_key (values s.absences);
}

pub attempt : Faults → SaveStep → Exec StateError Store (Unit {0})
attempt f step s = (if f step then err (save_failed step) else ok tt, s)

-- os.Rename puts the new document in place of the old one.
pub rename : Faults → Exec StateError Store (Unit {0})
rename f s =
    if f replace
    then (err (save_failed replace), s)
    else (ok tt, record s { file = document (snapshot s) })

unfoldable pub save_locked : Faults → Exec StateError Store (Unit {0})
unfolding attempt rename
save_locked f = do
  attempt f encode
  attempt f make_dir
  attempt f create_temp
  attempt f secure
  attempt f write
  attempt f sync
  attempt f close
  rename f
  attempt f open_dir
  attempt f sync_dir
  attempt f close_dir
