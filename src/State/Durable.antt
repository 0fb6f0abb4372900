-- ===== src/State/Durable.antt =====
-- What a restart finds: the file of the store against its memory, over any run of operations.
use group_bridge.Base.{
  ◌≡◌, refl, sym, ap, subst, ◌∙◌, Str, str_eq, number_eq, true, false, [], arith,
}
use group_bridge.Base.Map.{insert, lookup-insert}
use group_bridge.Base.Index.{load-IsKeyed, insert-IsKeyed}
use group_bridge.Base.Exec.{ok, err}
use group_bridge.State.Ledger.{
  DiskState, Store, StateError, StateFile, missing, unreadable, garbage, document, Faults, SaveStep,
  save_failed, key, membership_key, mapping_key, absence_key, save_locked,
}
use group_bridge.State.Saving.{
  written, Outcome, refused, saved, committed, unsynced, late_outcome, outcome, save_locked_lem,
}
use group_bridge.State.Operations.{mark_managed, is_managed}
use group_bridge.State.Opening.{fresh_store, loaded, read_state}
use group_bridge.State.Kept.{IsRecoverable, written-IsRecoverable}
use group_bridge.State.Methods.{NamesOwn, perform-IsKept}
use group_bridge.State.Undo.{lookup-restore}
use group_bridge.State.Requests.{Request, perform, SameMemory, IsWellKeyed}

-- An operation that fails leaves every entry of the three maps as it was, whatever the operation
-- is and whichever step of the save failed.
pub perform-err :
    (f : Faults) (q : Request) (s : Store) (e : StateError)
    → (perform f q s).0 ≡ err e
    → SameMemory (perform f q s).1 s
perform-err f q s = (perform-IsKept f q s).failed

SameMemory-refl : (s : Store) → SameMemory s s
SameMemory-refl s = record { records = λ k. refl; groups = λ k. refl; absences = λ k. refl }

loaded-IsWellKeyed : (file : StateFile) (d : DiskState) → IsWellKeyed (loaded file d)
loaded-IsWellKeyed file d = record {
  records = load-IsKeyed membership_key d.memberships [] tt;
  groups = load-IsKeyed mapping_key d.group_mappings [] tt;
  absences = load-IsKeyed absence_key d.absences [] tt;
}

-- The store that a file gives is well keyed, and the file gives it again.
pub read_state-IsRecoverable :
    (file : StateFile) (s : Store) → read_state file ≡ ok s → IsWellKeyed s × IsRecoverable s
unfolding read_state
read_state-IsRecoverable missing s h =
    let q : fresh_store missing ≡ s = ground arith in
    subst (λ t. IsWellKeyed t × IsRecoverable t) q
      (
        record { records = tt; groups = tt; absences = tt },
        (fresh_store missing, refl, SameMemory-refl _),
      )
read_state-IsRecoverable unreadable s h = cc
read_state-IsRecoverable garbage s h = cc
read_state-IsRecoverable (document d) s h =
    let q : loaded (document d) d ≡ s = ground arith in
    subst (λ t. IsWellKeyed t × IsRecoverable t) q
      (
        loaded-IsWellKeyed (document d) d,
        (loaded (document d) d, h ∙ ap ok (sym q), SameMemory-refl _),
      )

-- One call of a method. Its save may fail, but not after the rename.
pub data Step : Store → Store → Type 0 where
  call :
      (f : Faults) (q : Request) (s : Store)
      → late_outcome f ≡ committed
      → NamesOwn q s
      → Step s (perform f q s).1

pub data Reach (s : Store) : Store → Type 0 where
  here : Reach s s
  next : {t u : Store} → Reach s t → Step t u → Reach s u

pub Reach-IsRecoverable :
    {s t : Store} → IsWellKeyed s × IsRecoverable s → Reach s t → IsWellKeyed t × IsRecoverable t
Reach-IsRecoverable h here = h
Reach-IsRecoverable h (next r (call f q t late names)) =
    let k = perform-IsKept f q t in
    let b = Reach-IsRecoverable h r in (k.keyed (b.0, names), k.recoverable late (b.0, names) b.1)

-- Opened from any readable file, and after any calls, some of which failed before the rename and of
-- which a move is asked only for a mapping that names the provider and the rule of the call, a
-- restart finds a store that answers every query as the running one does.
pub recovery :
    (file : StateFile) (s t : Store)
    → read_state file ≡ ok s
    → Reach s t
    → (u : Store) × (read_state t.file ≡ ok u) × SameMemory u t
recovery file s t h r = (Reach-IsRecoverable (read_state-IsRecoverable file s h) r).1

-- What a save writes, a read of the file gives back: after a save of a well-keyed store that
-- succeeds, the file is read as a store that answers every query as the saved one does.
pub save_locked-read_state :
    (f : Faults) (s : Store)
    → IsWellKeyed s
    → (save_locked f s).0 ≡ ok tt
    → (t : Store) × (read_state (save_locked f s).1.file ≡ ok t) × SameMemory t s
save_locked-read_state f s w h =
    subst (λ r. (t : Store) × (read_state r.1.file ≡ ok t) × SameMemory t s)
      (sym (save_locked_lem f s))
      (by_outcome (outcome f) (sym (ap (λ r. r.0) (save_locked_lem f s)) ∙ h))
  where
    again : (t : Store) × (read_state (written s).file ≡ ok t) × SameMemory t s
    again =
        let q = written-IsRecoverable s w in
        (q.0, q.1, record { records = q.2.records; groups = q.2.groups; absences = q.2.absences })

    by_outcome :
        (o : Outcome)
        → (saved o s).0 ≡ ok tt
        → (t : Store) × (read_state (saved o s).1.file ≡ ok t) × SameMemory t s
    by_outcome committed e = again
    by_outcome (refused step) e = absurd (ground (arith, e))
    by_outcome (unsynced step) e = again

-- Marking a new membership in a well-keyed store, with a save that fails after the rename: the
-- caller is told that the membership was not recorded, and the memory agrees, but a restart finds it
-- recorded.
pub mark_managed_unsynced :
    (f : Faults) (step : SaveStep) (p g u : Str) (s : Store)
    → IsWellKeyed s
    → outcome f ≡ unsynced step
    → is_managed p g u s ≡ false
    → ((mark_managed f p g u s).0 ≡ err (save_failed step))
      × (is_managed p g u (mark_managed f p g u s).1 ≡ false)
      × ((t : Store) × (read_state (mark_managed f p g u s).1.file ≡ ok t)
          × (is_managed p g u t ≡ true))
unfolding mark_managed is_managed
mark_managed_unsynced f step p g u s w o h =
    let s' : Store = record s {
      records = insert (key p g u) (record { provider = p; group_id = g; user_id = u }) s.records;
    } in
    let back = written-IsRecoverable s' (record {
      records = insert-IsKeyed membership_key _ _ s.records refl w.records;
      groups = w.groups;
      absences = w.absences;
    }) in
    rw (save_locked_lem, o)
      (
        refl,
        rw lookup-restore h,
        (back.0, back.1, rw (back.2.records (key p g u), lookup-insert) (ground arith)),
      )
