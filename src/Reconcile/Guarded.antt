-- ===== src/Reconcile/Guarded.antt =====
-- A run changes nothing at the targets until the whole plan is built and every target is healthy.
use group_bridge.Base.{
  ℕ, ◌≡◌, ◌≢◌, refl, ◌∙◌, Bool, true, false, ◌||◌, Option, none, some, List, [], ◌∷◌, if_cases,
  number_eq, str_eq,
}
use group_bridge.Base.Exec.{Result, ok, err}
use group_bridge.Model.{SyncResult, AccessResult}
use group_bridge.State.Ledger.{GroupMapping, Store}
use group_bridge.Reconcile.Rules.{Provider}
use group_bridge.Reconcile.Plan.{BuildError, Job, sync_access, sync_members}
use group_bridge.Reconcile.Run.{
  Outside, Reconciler, RunError, check_health, with_world, retire, count_retired, after_access,
  after_group, apply_job, apply_all,
}

-- What a run leaves alone.
abbrev pub Untouched : {W : Type 0} → Reconciler W → Reconciler W → Type 0
Untouched r s =
    (s.events ≡ r.events)
    × (s.routes ≡ r.routes)
    × (s.last_full_attempt ≡ r.last_full_attempt)
    × (s.last_full_repair ≡ r.last_full_repair)

module _ {W : Type 0} where
  pub untouched : (r : Reconciler W) → Untouched r r
  untouched r = (refl, refl, refl, refl)

  pub then-Untouched : (r s t : Reconciler W) → Untouched r s → Untouched s t → Untouched r t
  then-Untouched r s t a b = (b.0 ∙ a.0, b.1 ∙ a.1, b.2 ∙ a.2, b.3 ∙ a.3)

-- What a check of the targets leaves alone.
abbrev pub Checked : {W : Type 0} → Reconciler W → Reconciler W → Type 0
Checked r s = Untouched r s × (s.store ≡ r.store) × (s.ready ≡ r.ready)

-- What a job leaves alone.
abbrev pub Applied : {W : Type 0} → Reconciler W → Reconciler W → Type 0
Applied r s = Untouched r s × (s.ready ≡ r.ready)

module _ {W : Type 0} (out : Outside W) where
  pub check_health-Checked :
      (ps : List Provider) (r : Reconciler W) → Checked r (check_health out ps r).1
  unfolding check_health
  check_health-Checked [] r = ((refl, refl, refl, refl), refl, refl)
  check_health-Checked (p ∷ ps) r =
      let (healthy, w) = out.health_check p.name r.world in
      if_cases (λ (x : ℕ × Reconciler W). Checked r x.1) healthy _ (_, _)
        (λ _. check_health-Checked ps _) (λ _. check_health-Checked ps _)

  retire-Applied :
      (t : Option GroupMapping) (x : SyncResult) (r : Reconciler W) → Applied r (retire out t x r).1
  unfolding retire
  retire-Applied none x r = ((refl, refl, refl, refl), refl)
  retire-Applied (some m) x r =
      if_cases (λ (y : Bool × Reconciler W). Applied r y.1) x.converged (_, _) (_, _)
        (λ _. ((refl, refl, refl, refl), refl)) (λ _. ((refl, refl, refl, refl), refl))

  count_retired-Applied :
      (x : SyncResult) (r : Reconciler W) (y : Bool × Reconciler W)
      → Applied r y.1
      → Applied r (count_retired out x y).1
  count_retired-Applied x r (true, s) a = a
  count_retired-Applied x r (false, s) a = a

  after_access-Applied :
      (y : Option AccessResult × (Store × W)) (r : Reconciler W)
      → Applied r (after_access out y r).1
  after_access-Applied (none, sw) r = ((refl, refl, refl, refl), refl)
  after_access-Applied (some x, sw) r =
      if_cases (Applied r) x.verified_policy _ _ (λ _. ((refl, refl, refl, refl), refl))
        (λ _. ((refl, refl, refl, refl), refl))

  after_group-Applied :
      (t : Option GroupMapping) (y : Option SyncResult × (Store × W)) (r : Reconciler W)
      → Applied r (after_group out t y r).1
  after_group-Applied t (none, sw) r = ((refl, refl, refl, refl), refl)
  after_group-Applied t (some x, sw) r =
      count_retired-Applied x r (retire out t x (with_world sw r))
        (retire-Applied t x (with_world sw r))

  apply_job-Applied : (j : Job) (r : Reconciler W) → Applied r (apply_job out j r).1
  unfolding apply_job
  apply_job-Applied (sync_access p q) r =
      after_access-Applied (out.sync_access_group p.name q (r.store, r.world)) r
  apply_job-Applied (sync_members p q t) r =
      after_group-Applied t (out.sync_group p.name q (r.store, r.world)) r

  pub apply_all-Applied : (js : List Job) (r : Reconciler W) → Applied r (apply_all out js r).1
  unfolding apply_all
  apply_all-Applied [] r = ((refl, refl, refl, refl), refl)
  apply_all-Applied (j ∷ js) r =
      let first = apply_job-Applied j r in
      let rest = apply_all-Applied js (apply_job out j r).1 in
      (
        then-Untouched r (apply_job out j r).1 (apply_all out js (apply_job out j r).1).1 first.0
            rest.0,
        rest.1 ∙ first.1,
      )

  -- What each answer of a run tells. `complete` says that it was a full one, and `e` are the errors
  -- of its plan.
  abbrev pub Guarded :
      Bool → List BuildError → Reconciler W → Result RunError (Unit {0}) × Reconciler W → Type 0
  Guarded complete e r (ok _, s) = (e ≡ []) × (s.ready ≡ (complete || r.ready))
  Guarded complete e r (err RunError.build_failed, s) =
      (e ≢ []) × (s.store ≡ r.store) × (s.world ≡ r.world) × (s.ready ≡ r.ready)
  Guarded complete e r (err RunError.unhealthy, s) =
      (e ≡ []) × (s.store ≡ r.store) × (s.ready ≡ r.ready)
  Guarded complete e r (err RunError.apply_failed, s) = (e ≡ []) × (s.ready ≡ r.ready)
  Guarded complete e r (err _, s) = ⊥
