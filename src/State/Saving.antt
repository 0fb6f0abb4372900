-- ===== src/State/Saving.antt =====
-- What a save does: one of three outcomes, by the first step that fails.
use group_bridge.Base.{◌≢◌, ◌≡◌, arith, if◌then◌else◌}
use group_bridge.Base.Exec.{Result, ok, err}
use group_bridge.State.Ledger.{
  SaveStep, encode, make_dir, create_temp, secure, write, sync, close, replace, open_dir, sync_dir,
  close_dir, StateError, save_failed, Store, document, snapshot, Faults, save_locked,
}

-- `refused`: nothing was written. `unsynced`: the new document is in place, but the save failed.
pub data Outcome : Type 0 where
  committed : Outcome
  refused unsynced : SaveStep → Outcome

unfoldable pub late_outcome : Faults → Outcome
late_outcome f =
    if f open_dir
    then unsynced open_dir
    else if f sync_dir
    then unsynced sync_dir
    else if f close_dir
    then unsynced close_dir
    else committed

unfoldable pub outcome : Faults → Outcome
unfolding late_outcome
outcome f =
    if f encode
    then refused encode
    else if f make_dir
    then refused make_dir
    else if f create_temp
    then refused create_temp
    else if f secure
    then refused secure
    else if f write
    then refused write
    else if f sync
    then refused sync
    else if f close
    then refused close
    else if f replace
    then refused replace
    else late_outcome f

abbrev pub written : Store → Store
written s = record s { file = document (snapshot s) }

abbrev pub saved : Outcome → Store → Result StateError (Unit {0}) × Store
saved committed s = (ok tt, written s)
saved (refused step) s = (err (save_failed step), s)
saved (unsynced step) s = (err (save_failed step), written s)

pub save_locked_lem : (f : Faults) (s : Store) → save_locked f s ≡ saved (outcome f) s
unfolding save_locked outcome
save_locked_lem f s = ground arith

-- A step fails after the rename only if one of the last three does.
pub outcome-unsynced :
    (f : Faults) (step : SaveStep) → late_outcome f ≡ committed → outcome f ≢ unsynced step
unfolding outcome
outcome-unsynced f step h = ground arith
