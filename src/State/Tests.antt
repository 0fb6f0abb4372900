-- ===== src/State/Tests.antt =====
-- Runs of the store, and its theorems at concrete data.
use group_bridge.Base.{◌≡◌, refl, number_eq, str_eq, Str, bytes, true, false, List, [], ◌∷◌, arith}
use group_bridge.Base.Map.{lookup, insert}
use group_bridge.Base.Exec.{ok, err}
use group_bridge.State.Ledger.{
  GroupMapping, Store, missing, encode, sync_dir, save_failed, Faults, key, group_key, snapshot,
  save_locked,
}
use group_bridge.State.Saving.{late_outcome, outcome}
use group_bridge.State.Operations.{is_managed, mark_managed, put_group, move_group, confirm_absent}
use group_bridge.State.Opening.{fresh_store, read_state}
use group_bridge.State.Requests.{Request, mark, remove, confirm, reset, perform, SameMemory}
use group_bridge.State.Durable.{
  save_locked-read_state, call, here, next, perform-err, recovery, mark_managed_unsynced,
}
use group_bridge.State.Absences.{run, tally, tally_step, verdict, observed, confirm_absent-run}
use group_bridge.State.Moves.{IsMoved, key_injective, move_group-ok}

abbrev calm : Faults
calm step = false

abbrev full_disk : Faults
full_disk encode = true
full_disk step = false

abbrev lost_sync : Faults
lost_sync sync_dir = true
lost_sync step = false

abbrev start : Store
start = fresh_store missing

abbrev gitlab : Str
gitlab = bytes "gitlab@1"

abbrev mapping : GroupMapping
mapping = record {
  provider = gitlab;
  rule = bytes "r";
  source_group_id = bytes "id-1";
  source_native_id = bytes "id-1";
  source_group_path = bytes "/a";
  target_group_id = bytes "7";
  target_group_path = bytes "platform/a";
  owned = true;
}

marked :
    is_managed gitlab
      (bytes "7")
      (bytes "3")
      (mark_managed calm gitlab (bytes "7") (bytes "3") start).1
    ≡ true
unfolding is_managed mark_managed save_locked snapshot key bytes str_eq lookup insert
marked = refl

abbrev mapped : Store
mapped = (put_group calm mapping start).1

perform-err_example :
    SameMemory (perform full_disk (mark gitlab (bytes "7") (bytes "3")) start).1 start
unfolding perform mark_managed save_locked
perform-err_example =
    perform-err full_disk (mark gitlab (bytes "7") (bytes "3")) start (save_failed encode) refl

abbrev after_two : Store
after_two =
    (perform full_disk (remove gitlab (bytes "7") (bytes "3"))
      (perform calm (mark gitlab (bytes "7") (bytes "3")) start).1).1

recovery_example : (u : Store) × (read_state after_two.file ≡ ok u) × SameMemory u after_two
unfolding read_state late_outcome outcome
recovery_example = recovery missing start after_two refl (
    next (next here (call calm (mark gitlab (bytes "7") (bytes "3")) start refl tt))
      (call full_disk (remove gitlab (bytes "7") (bytes "3")) _ refl tt))

mark_managed_unsynced_example :
    ((mark_managed lost_sync gitlab (bytes "7") (bytes "3") start).0 ≡ err (save_failed sync_dir))
    × (is_managed gitlab
          (bytes "7")
          (bytes "3")
          (mark_managed lost_sync gitlab (bytes "7") (bytes "3") start).1
        ≡ false)
    × ((t : Store) × (read_state
            (mark_managed lost_sync gitlab (bytes "7") (bytes "3") start).1.file
          ≡ ok t)
        × (is_managed gitlab (bytes "7") (bytes "3") t ≡ true))
unfolding outcome is_managed lookup
mark_managed_unsynced_example =
    mark_managed_unsynced lost_sync sync_dir gitlab (bytes "7") (bytes "3") start
      (record { records = tt; groups = tt; absences = tt }) refl refl

abbrev history : List (Faults × Request)
history =
    (calm, confirm gitlab (bytes "7") (bytes "3"))
    ∷ (calm, reset gitlab (bytes "7") (bytes "3"))
    ∷ (calm, confirm gitlab (bytes "7") (bytes "3"))
    ∷ (full_disk, reset gitlab (bytes "7") (bytes "3"))
    ∷ []

confirmed_twice :
    verdict (outcome calm) (tally (key gitlab (bytes "7") (bytes "3")) history 0) ≡ ok true
unfolding verdict outcome tally tally_step key bytes str_eq
confirmed_twice = refl

confirm_absent-run_example :
    (confirm_absent calm gitlab (bytes "7") (bytes "3") (run history start)).0
    ≡ verdict (outcome calm) (
        tally
          (key gitlab (bytes "7") (bytes "3"))
          history
          (observed (key gitlab (bytes "7") (bytes "3")) start))
confirm_absent-run_example = confirm_absent-run history calm gitlab (bytes "7") (bytes "3") start

save_locked-read_state_example :
    (t : Store) × (read_state (save_locked calm mapped).1.file ≡ ok t) × SameMemory t mapped
unfolding save_locked put_group insert group_key lookup
save_locked-read_state_example =
    save_locked-read_state calm mapped
      (record { records = tt; groups = (refl, refl, tt); absences = tt }) refl

key_injective_example : (gitlab ≡ gitlab) × (bytes "7" ≡ bytes "7") × (bytes "3" ≡ bytes "3")
unfolding bytes
key_injective_example =
    key_injective gitlab gitlab (bytes "7") (bytes "7") (bytes "3") (bytes "3") (omega arith)
      (omega arith) (omega arith) (omega arith) refl

move_group-ok_example :
    IsMoved
      (group_key gitlab (bytes "r") (bytes "id-1"))
      (group_key gitlab (bytes "r") (bytes "/a"))
      mapping
      (bytes "/a")
      (bytes "id-2")
      (bytes "/a")
      mapped
      (move_group calm gitlab
        (bytes "r")
        (bytes "id-1")
        (bytes "/a")
        (bytes "id-2")
        (bytes "/a")
        mapped).1
unfolding move_group put_group save_locked snapshot group_key bytes str_eq lookup insert
move_group-ok_example =
    move_group-ok calm gitlab (bytes "r") (bytes "id-1") (bytes "/a") (bytes "id-2") (bytes "/a")
      mapped mapping (λ p. ground (arith, p)) refl refl
