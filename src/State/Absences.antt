-- ===== src/State/Absences.antt =====
-- How often a membership was seen to be absent, against the history of the calls.
use group_bridge.Base.{
  ◌≡◌, refl, ap, ◌∙◌, ℕ, ◌+◌, Str, str_eq, Bool, true, false, Option, none, some, List, [], ◌∷◌,
  arith, ◌==◌, leb, if◌then◌else◌,
}
use group_bridge.Base.Map.{lookup, insert, erase, lookup-insert, lookup-erase}
use group_bridge.Base.Exec.{Result, ok, err}
use group_bridge.State.Ledger.{
  Absence, Store, StateError, GroupMapping, StateFile, document, snapshot, different_target,
  save_failed, Faults, key, save_locked,
}
use group_bridge.State.Saving.{
  Outcome, committed, refused, unsynced, saved, outcome, save_locked_lem,
}
use group_bridge.State.Operations.{
  or_undo, answer, observe, restore, confirm_absent, reset_absent, drop_absence, mark_managed,
  unmark, put_group, drop_group, delete_group, same_target, move_group, move_found, join_mappings,
}
use group_bridge.State.Undo.{lookup-restore, lookup-undo_erase}
use group_bridge.State.Requests.{
  Request, mark, remove, confirm, reset, delete, put, move, forget, perform,
}

abbrev count : Option Absence → ℕ
count none = 0
count (some a) = a.observations

-- The observations on record under a key.
unfoldable pub observed : Str → Store → ℕ
observed k s = count (lookup k s.absences)

abbrev pub is_committed : Outcome → Bool
is_committed committed = true
is_committed _ = false

-- One call's part in the tally: a recorded observation adds one, a recorded reset starts anew.
unfoldable pub tally_step : Str → Faults → Request → ℕ → ℕ
tally_step k f (confirm p g u) n =
    if key p g u == k then (if is_committed (outcome f) then n + 1 else n) else n
tally_step k f (reset p g u) n =
    if key p g u == k then (if is_committed (outcome f) then 0 else n) else n
tally_step k f _ n = n

-- The absences recorded under `k` since its last recorded reset, oldest call first.
unfoldable pub tally : Str → List (Faults × Request) → ℕ → ℕ
tally k [] n = n
tally k ((f, q) ∷ history) n = tally k history (tally_step k f q n)

unfoldable pub run : List (Faults × Request) → Store → Store
run [] s = s
run ((f, q) ∷ history) s = run history (perform f q s).1

module _ (k : Str) (f : Faults) (p g u : Str) (s : Store) where
  observed-confirm :
      observed k (confirm_absent f p g u s).1 ≡ tally_step k f (confirm p g u) (observed k s)
  unfolding observed tally_step confirm_absent
  observed-confirm = rw save_locked_lem (by_outcome (outcome f))
    where
      found : Option Absence
      found = lookup (key p g u) s.absences

      by_outcome :
          (o : Outcome)
          → count (
              lookup k
                (answer (leb 2 (observe p g u found).observations) (
                  or_undo
                    (saved o
                      (record s { absences = insert (key p g u) (observe p g u found) s.absences }))
                    (λ t. record t {
                      absences = restore (key p g u) found t.absences;
                    }))).1.absences)
            ≡ (if key p g u == k
                then (if is_committed o
                    then count (lookup k s.absences) + 1
                    else count (lookup k s.absences))
                else count (lookup k s.absences))
      by_outcome committed =
          ground (arith, lookup-insert k (key p g u) (observe p g u found) s.absences)
      by_outcome (refused step) =
          ground (arith, lookup-restore k (key p g u) (observe p g u found) s.absences)
      by_outcome (unsynced step) =
          ground (arith, lookup-restore k (key p g u) (observe p g u found) s.absences)

  observed-drop :
      (o : Option Absence)
      → lookup (key p g u) s.absences ≡ o
      → observed k (drop_absence f (key p g u) o s).1 ≡ tally_step k f (reset p g u) (observed k s)
  unfolding observed tally_step drop_absence
  observed-drop none e = ground arith
  observed-drop (some a) e = rw save_locked_lem (by_outcome (outcome f))
    where
      by_outcome :
          (o : Outcome)
          → count (
              lookup k
                (or_undo
                  (saved o (record s { absences = erase (key p g u) s.absences }))
                  (λ t. record t { absences = insert (key p g u) a t.absences })).1.absences)
            ≡ (if key p g u == k
                then (if is_committed o then 0 else count (lookup k s.absences))
                else count (lookup k s.absences))
      by_outcome committed = ground (arith, lookup-erase k (key p g u) s.absences)
      by_outcome (refused step) = ground (arith, lookup-undo_erase k (key p g u) a s.absences e)
      by_outcome (unsynced step) = ground (arith, lookup-undo_erase k (key p g u) a s.absences e)

-- An operation on the other two maps leaves the observations alone.
absences-or_undo :
    (f : Faults) (s t : Store) (undo : Store → Store)
    → s.absences ≡ t.absences
    → ((file : StateFile) → (undo (record s { file = file })).absences ≡ t.absences)
    → (or_undo (save_locked f s) undo).1.absences ≡ t.absences
absences-or_undo f s t undo e u = rw save_locked_lem (by_outcome (outcome f))
  where
    by_outcome : (o : Outcome) → (or_undo (saved o s) undo).1.absences ≡ t.absences
    by_outcome committed = e
    by_outcome (refused step) = u s.file
    by_outcome (unsynced step) = u (document (snapshot s))

module _ (f : Faults) (s : Store) where
  absences-drop_group :
      (k : Str) (o : Option GroupMapping) → (drop_group f k o s).1.absences ≡ s.absences
  unfolding drop_group
  absences-drop_group k none = refl
  absences-drop_group k (some m) = absences-or_undo f _ s _ refl (λ file. refl)

  absences-move_found :
      (old new : Str) (o c : Option GroupMapping) (id n q : Str)
      → (move_found f old new o c id n q s).1.absences ≡ s.absences
  unfolding move_found
  absences-move_found old new none c id n q = refl
  absences-move_found old new (some m) none id n q = absences-or_undo f _ s _ refl (λ file. refl)
  absences-move_found old new (some m) (some c) id n q = by_target (same_target c m)
    where
      by_target :
          (b : Bool)
          → (if b then join_mappings f old new m c n q s else (err different_target, s)).1.absences
            ≡ s.absences
      by_target true = absences-or_undo f _ s _ refl (λ file. refl)
      by_target false = refl

forget_state {ℓ κ} : {E : Type ℓ} {A : Type κ} (r : Result E A × Store) → (forget r).1 ≡ r.1
forget_state (ok _, s) = refl
forget_state (err e, s) = refl

observed-perform :
    (k : Str) (f : Faults) (q : Request) (s : Store)
    → observed k (perform f q s).1 ≡ tally_step k f q (observed k s)
unfolding perform reset_absent
observed-perform k f (mark p g u) s =
    unfold mark_managed observed tally_step in
    ap (λ a. count (lookup k a)) (absences-or_undo f _ s _ refl (λ file. refl))
observed-perform k f (remove p g u) s =
    unfold unmark observed tally_step in
    ap (λ a. count (lookup k a)) (absences-or_undo f _ s _ refl (λ file. refl))
observed-perform k f (confirm p g u) s = rw forget_state (observed-confirm k f p g u s)
observed-perform k f (reset p g u) s = observed-drop k f p g u s _ refl
observed-perform k f (delete p r i) s =
    unfold delete_group observed tally_step in
    ap (λ a. count (lookup k a)) (absences-drop_group f s _ _)
observed-perform k f (put m) s =
    unfold put_group observed tally_step in
    ap (λ a. count (lookup k a)) (absences-or_undo f _ s _ refl (λ file. refl))
observed-perform k f (move p r i j n q) s =
    unfold move_group observed tally_step in
    ap (λ a. count (lookup k a)) (absences-move_found f s _ _ _ _ _ _ _)

pub observed-run :
    (k : Str) (history : List (Faults × Request)) (s : Store)
    → observed k (run history s) ≡ tally k history (observed k s)
unfolding run tally
observed-run k [] s = refl
observed-run k ((f, q) ∷ history) s =
    observed-run k history _ ∙ ap (tally k history) (observed-perform k f q s)

-- The answer to an observation that `n` recorded ones precede.
unfoldable pub verdict : Outcome → ℕ → Result StateError Bool
verdict committed n = ok (leb 1 n)
verdict (refused step) n = err (save_failed step)
verdict (unsynced step) n = err (save_failed step)

confirm_absent-eq_verdict :
    (f : Faults) (p g u : Str) (s : Store)
    → (confirm_absent f p g u s).0 ≡ verdict (outcome f) (observed (key p g u) s)
unfolding confirm_absent observed verdict
confirm_absent-eq_verdict f p g u s =
    rw save_locked_lem (by_outcome (outcome f) (lookup (key p g u) s.absences))
  where
    by_outcome :
        (o : Outcome) (found : Option Absence)
        → (answer (leb 2 (observe p g u found).observations) (
            or_undo
              (saved o
                (record s { absences = insert (key p g u) (observe p g u found) s.absences }))
              (λ t. record t { absences = restore (key p g u) found t.absences }))).0
          ≡ verdict o (count found)
    by_outcome committed none = refl
    by_outcome committed (some a) = ap ok (ground arith)
    by_outcome (refused step) found = refl
    by_outcome (unsynced step) found = refl

-- After any calls, an absence that is recorded is confirmed exactly if one was recorded before
-- since the membership was last reset; one that is not recorded is answered by an error.
pub confirm_absent-run :
    (history : List (Faults × Request)) (f : Faults) (p g u : Str) (s : Store)
    → (confirm_absent f p g u (run history s)).0
      ≡ verdict (outcome f) (tally (key p g u) history (observed (key p g u) s))
confirm_absent-run history f p g u s =
    confirm_absent-eq_verdict f p g u (run history s)
    ∙ ap (verdict (outcome f)) (observed-run (key p g u) history s)
