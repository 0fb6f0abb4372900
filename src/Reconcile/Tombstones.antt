-- ===== src/Reconcile/Tombstones.antt =====
-- What the job of a tombstone does to the mapping that it is for.
use group_bridge.Base.{
  ◌≡◌, ◌⊎◌, inl, inr, refl, sym, ap, subst, ◌∙◌, Bool, true, false, Option, none, some,
  if◌then◌else◌, arith, Str, str_eq,
}
use group_bridge.Base.Map.{lookup, insert, erase, lookup-erase}
use group_bridge.Base.Exec.{Result, ok, err}
use group_bridge.Model.{SyncRequest, SyncResult}
use group_bridge.State.Ledger.{GroupMapping, Store, StateError, Faults, group_key, save_locked}
use group_bridge.State.Saving.{
  Outcome, committed, refused, unsynced, outcome, saved, save_locked_lem,
}
use group_bridge.State.Operations.{group, delete_group, drop_group, or_undo}
use group_bridge.State.Requests.{delete, perform, SameMemory}
use group_bridge.State.Durable.{perform-err}
use group_bridge.Reconcile.Rules.{Provider}
use group_bridge.Reconcile.Plan.{sync_members}
use group_bridge.Reconcile.Run.{
  Outside, Reconciler, with_world, retire, count_retired, after_group, apply_job,
}

drop_group-ok :
    (f : Faults) (k : Str) (o : Option GroupMapping) (s : Store)
    → lookup k s.groups ≡ o
    → (drop_group f k o s).0 ≡ ok tt
    → lookup k (drop_group f k o s).1.groups ≡ none
unfolding drop_group
drop_group-ok f k none s e h = e
drop_group-ok f k (some m) s e h = by_outcome (outcome f) (save_locked_lem f t) h
  where
    t : Store
    t = record s { groups = erase k s.groups }

    undo : Store → Store
    undo v = record v { groups = insert k m v.groups }

    by_outcome :
        (o : Outcome)
        → save_locked f t ≡ saved o t
        → (or_undo (save_locked f t) undo).0 ≡ ok tt
        → lookup k (or_undo (save_locked f t) undo).1.groups ≡ none
    by_outcome committed p h = rw p (ground (arith, lookup-erase k k s.groups))
    by_outcome (refused step) p h = absurd (ground (arith, ap (λ r. (or_undo r undo).0) p))
    by_outcome (unsynced step) p h = absurd (ground (arith, ap (λ r. (or_undo r undo).0) p))

delete_group-ok :
    (f : Faults) (p r i : Str) (s : Store)
    → (delete_group f p r i s).0 ≡ ok tt
    → group p r i (delete_group f p r i s).1 ≡ none
unfolding delete_group group
delete_group-ok f p r i s h =
    drop_group-ok f (group_key p r i) (lookup (group_key p r i) s.groups) s refl h

delete_group-err :
    (f : Faults) (p r i : Str) (s : Store) (e : StateError)
    → (delete_group f p r i s).0 ≡ err e
    → SameMemory (delete_group f p r i s).1 s
unfolding perform
delete_group-err f p r i s e h = perform-err f (delete p r i) s e h

-- What a mapping's job that was answered by a result may do, given the store `t` that the provider
-- left: it keeps the mapping, it takes the mapping away, or it fails to and loses nothing.
abbrev pub Retires : {W : Type 0} → GroupMapping → SyncResult → Store → Bool × Reconciler W → Type 0
Retires m x t (bad, r) =
    ((x.converged ≡ false) × (bad ≡ false) × (r.store ≡ t))
    ⊎ ((x.converged ≡ true)
        × (bad ≡ false)
        × (group m.provider m.rule m.source_group_id r.store ≡ none))
    ⊎ ((x.converged ≡ true) × (bad ≡ true) × SameMemory r.store t)

module _ {W : Type 0} (out : Outside W) (m : GroupMapping) (x : SyncResult) where
  count_retired-Retires :
      (t : Store) (y : Bool × Reconciler W)
      → Retires m x t y
      → Retires m x t (count_retired out x y)
  count_retired-Retires t (true, r) h = h
  count_retired-Retires t (false, r) h = h

  retire-Retires : (r : Reconciler W) → Retires m x r.store (retire out (some m) x r)
  unfolding retire
  retire-Retires r =
      by_answer (out.faults r.world) x.converged refl
        (delete_group (out.faults r.world) m.provider m.rule m.source_group_id r.store) refl
    where
      by_answer :
          (f : Faults) (b : Bool)
          → x.converged ≡ b
          → (a : Result StateError (Unit {0}) × Store)
          → delete_group f m.provider m.rule m.source_group_id r.store ≡ a
          → Retires m x r.store (
              if b
              then (elim a.0 [ ok _ ↦ false | err _ ↦ true ], record r { store = a.1 })
              else (false, r))
      by_answer f false e a d = inl (e, refl, refl)
      by_answer f true e (ok _, s) d = inr (
          inl (
            e,
            refl,
            ap (λ a. group m.provider m.rule m.source_group_id a.1) (sym d)
                ∙ delete_group-ok f m.provider m.rule m.source_group_id r.store (ap (λ a. a.0) d),
          ))
      by_answer f true e (err z, s) d = inr (
          inr (
            e,
            refl,
            subst (λ a. SameMemory a.1 r.store) d
                (delete_group-err f m.provider m.rule m.source_group_id r.store z
                  (ap (λ a. a.0) d)),
          ))

  -- The job of a tombstone, where the provider answers with a result: the mapping stays, in the
  -- store as the provider left it, if the provider has not converged; if it has, the mapping is gone,
  -- or the job fails and every entry of the store is as the provider left it.
  pub apply_job-Retires :
      (p : Provider) (q : SyncRequest) (r : Reconciler W) (sw : Store × W)
      → out.sync_group p.name q (r.store, r.world) ≡ (some x, sw)
      → Retires m x sw.0 (apply_job out (sync_members p q (some m)) r)
  unfolding apply_job
  apply_job-Retires p q r sw e =
      subst (λ y. Retires m x sw.0 (after_group out (some m) y r)) (sym e)
        (count_retired-Retires sw.0 (retire out (some m) x (with_world sw r))
          (retire-Retires (with_world sw r)))
