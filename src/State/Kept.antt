-- ===== src/State/Kept.antt =====
-- Each operation of the store: a failure leaves the memory as it was, the maps stay well keyed,
-- and the file goes on to give the memory back.
use group_bridge.Base.{◌≡◌, refl, sym, ◌∙◌, str_eq, number_eq, Bool}
use group_bridge.Base.Index.{lookup-load-sort_by}
use group_bridge.Base.Exec.{Result, ok, err}
use group_bridge.State.Ledger.{
  Store, StateError, StateFile, document, snapshot, Faults, membership_key, mapping_key,
  absence_key, save_locked,
}
use group_bridge.State.Saving.{
  Outcome, committed, refused, unsynced, late_outcome, outcome, written, saved, save_locked_lem,
  outcome-unsynced,
}
use group_bridge.State.Operations.{or_undo, answer}
use group_bridge.State.Opening.{loaded, read_state}
use group_bridge.State.Requests.{forget, SameMemory, IsWellKeyed}

-- Reading the file gives a store that answers every query as this one does.
abbrev pub IsRecoverable : Store → Type 0
IsRecoverable s = (t : Store) × (read_state s.file ≡ ok t) × SameMemory t s

pub SameMemory-trans : {s t u : Store} → SameMemory s t → SameMemory t u → SameMemory s u
SameMemory-trans p q = record {
  records = λ k. p.records k ∙ q.records k;
  groups = λ k. p.groups k ∙ q.groups k;
  absences = λ k. p.absences k ∙ q.absences k;
}

pub SameMemory-sym : {s t : Store} → SameMemory s t → SameMemory t s
SameMemory-sym p = record {
  records = λ k. sym (p.records k);
  groups = λ k. sym (p.groups k);
  absences = λ k. sym (p.absences k);
}

-- What a store writes, it reads back.
pub written-IsRecoverable : (s : Store) → IsWellKeyed s → IsRecoverable (written s)
unfolding read_state snapshot number_eq
written-IsRecoverable s h = (
  loaded (document (snapshot s)) (snapshot s),
  refl,
  record {
    records = λ k. lookup-load-sort_by membership_key k s.records h.records;
    groups = λ k. lookup-load-sort_by mapping_key k s.groups h.groups;
    absences = λ k. lookup-load-sort_by absence_key k s.absences h.absences;
  },
)

-- An operation that found the store `t`, was called as `C` says, and came back with `r`.
pub record IsKept {ℓ} {A : Type ℓ} (f : Faults) (t : Store) (C : Type 0)
    (r : Result StateError A × Store) : Type ℓ where
  pub failed : (e : StateError) → r.0 ≡ err e → SameMemory r.1 t
  pub keyed : IsWellKeyed t × C → IsWellKeyed r.1
  pub recoverable :
      late_outcome f ≡ committed → IsWellKeyed t × C → IsRecoverable t → IsRecoverable r.1

-- A change of `t` into `s`, and its undo.
pub record IsUndone (C : Type 0) (t s : Store) (undo : Store → Store) : Type 0 where
  pub same : (file : StateFile) → SameMemory (undo (record s { file = file })) t
  pub file_kept : (file : StateFile) → (undo (record s { file = file })).file ≡ file
  pub file_before : s.file ≡ t.file
  pub keyed : IsWellKeyed t × C → IsWellKeyed s
  pub undone_keyed :
      IsWellKeyed t × C → (file : StateFile) → IsWellKeyed (undo (record s { file = file }))

module _ (f : Faults) (t : Store) (C : Type 0) (s : Store) (undo : Store → Store)
    (u : IsUndone C t s undo) where
  IsKept-saved : (o : Outcome) → (o ≡ outcome f) → IsKept f t C (or_undo (saved o s) undo)
  IsKept-saved committed q = record {
    failed = λ e h. cc;
    keyed = λ h. record {
      records = (u.keyed h).records;
      groups = (u.keyed h).groups;
      absences = (u.keyed h).absences;
    };
    recoverable = λ c h r. written-IsRecoverable s (u.keyed h);
  }
  IsKept-saved (refused step) q = record {
    failed = λ e h. u.same s.file;
    keyed = λ h. u.undone_keyed h s.file;
    recoverable = λ c h r. (
      r.0,
      rw (u.file_kept s.file, u.file_before) r.1,
      SameMemory-trans r.2 (SameMemory-sym (u.same s.file)),
    );
  }
  IsKept-saved (unsynced step) q = record {
    failed = λ e h. u.same (document (snapshot s));
    keyed = λ h. u.undone_keyed h (document (snapshot s));
    recoverable = λ c h r. absurd (outcome-unsynced f step c (sym q));
  }

  pub IsKept-or_undo : IsKept f t C (or_undo (save_locked f s) undo)
  IsKept-or_undo = rw save_locked_lem (IsKept-saved (outcome f) refl)

-- An operation that changes nothing.
pub IsKept-unchanged {ℓ} :
    {A : Type ℓ} (f : Faults) (t : Store) (C : Type 0) (r : Result StateError A)
    → IsKept f t C (r, t)
IsKept-unchanged f t C r = record {
  failed = λ e h. record { records = λ k. refl; groups = λ k. refl; absences = λ k. refl };
  keyed = λ h. h.0;
  recoverable = λ c h r. r;
}

-- A result that is handed on with the state that it came with.
pub IsKept-answer :
    (f : Faults) (t : Store) (C : Type 0) (b : Bool) (r : Result StateError (Unit {0}) × Store)
    → IsKept f t C r
    → IsKept f t C (forget (answer b r))
IsKept-answer f t C b (ok _, s) k = record {
  failed = λ e h. cc;
  keyed = k.keyed;
  recoverable = k.recoverable;
}
IsKept-answer f t C b (err e, s) k = k
