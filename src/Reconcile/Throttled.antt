-- ===== src/Reconcile/Throttled.antt =====
-- Full repairs that events ask for keep their distance.
use group_bridge.Base.{
  ℕ, ◌+◌, ◌≤◌, ◌≡◌, ◌⊎◌, inl, inr, refl, ◌∙◌, Bool, true, false, Option, none, some, List, [], ◌∷◌,
  ◌==◌, if_cases, arith, counted, ltb, number_eq, Str,
}
use group_bridge.Base.Exec.{Result, ok, err}
use group_bridge.Model.{Group}
use group_bridge.State.Ledger.{Store, StateError}
use group_bridge.State.Operations.{group_mappings}
use group_bridge.Events.Routes.{RouteIndex, RouteError, replace}
use group_bridge.Reconcile.Rules.{Provider}
use group_bridge.Reconcile.Plan.{BuildError, Job, build_plan}
use group_bridge.Reconcile.Run.{
  Outside, Setup, Reconciler, RunError, check_health, apply_all, concluded, if_healthy, run_plan,
  required_providers, reconcile_groups,
}
use group_bridge.Reconcile.Guarded.{apply_all-Applied, check_health-Checked}
use group_bridge.Reconcile.Cycle.{
  topology_repair_min_interval, with_routes, after_migration, migrate_canonical_mappings,
  migrate_and_apply, repaired, with_snapshot, run_once, anchor, remaining, after_repair,
  attempt_repair, run_event_full_repair,
}

-- The last attempt stays on record.
abbrev SameAttempt : {W : Type 0} → Reconciler W → Reconciler W → Type 0
SameAttempt r s = s.last_full_attempt ≡ r.last_full_attempt

module _ {W : Type 0} (out : Outside W) (setup : Setup) where
  concluded-Same :
      (complete : Bool) (r : Reconciler W) (x : ℕ × Reconciler W)
      → SameAttempt r x.1
      → SameAttempt r (concluded out complete x).1
  concluded-Same true r (n, s) e =
      if_cases (λ (y : Result RunError (Unit {0}) × Reconciler W). SameAttempt r y.1) (n == 0)
        (_, _) (_, _) (λ _. e) (λ _. e)
  concluded-Same false r (n, s) e =
      if_cases (λ (y : Result RunError (Unit {0}) × Reconciler W). SameAttempt r y.1) (n == 0)
        (_, _) (_, _) (λ _. e) (λ _. e)

  if_healthy-Same :
      (complete : Bool) (js : List Job) (r : Reconciler W) (x : ℕ × Reconciler W)
      → SameAttempt r x.1
      → SameAttempt r (if_healthy out complete js x).1
  if_healthy-Same complete js r (n, s) e =
      if_cases (λ (y : Result RunError (Unit {0}) × Reconciler W). SameAttempt r y.1) (n == 0) _
        (_, _)
        (λ _. concluded-Same complete r (apply_all out js s) ((apply_all-Applied out js s).0.2 ∙ e))
        (λ _. e)

  run_plan-Same :
      (es : List BuildError) (complete : Bool) (ps : List Provider) (js : List Job)
      (r : Reconciler W)
      → SameAttempt r (run_plan out es complete ps js r).1
  run_plan-Same [] complete ps js r =
      if_healthy-Same complete js r (check_health out ps r) (check_health-Checked out ps r).0.2
  run_plan-Same (e ∷ es) complete ps js r = refl

  reconcile_groups-Same :
      (groups : List Group) (complete memberships_only : Bool) (r : Reconciler W)
      → SameAttempt r (reconcile_groups out setup groups complete memberships_only r).1
  unfolding reconcile_groups
  reconcile_groups-Same groups complete memberships_only r =
      let plan =
        build_plan setup.to_lower setup.providers (group_mappings r.store) complete memberships_only
          setup.rules groups in
      run_plan-Same plan.errors complete (required_providers complete setup.providers plan.jobs)
        plan.jobs r

  after_migration-Same :
      (groups : List Group) (complete memberships_only : Bool)
      (x : Result StateError (Unit {0}) × Store) (r : Reconciler W)
      → SameAttempt r
          (after_migration out setup x r
            (reconcile_groups out setup groups complete memberships_only)).1
  after_migration-Same groups complete memberships_only (ok _, s) r =
      reconcile_groups-Same groups complete memberships_only (record r { store = s })
  after_migration-Same groups complete memberships_only (err _, s) r = refl

  migrate_and_apply-Same :
      (groups : List Group) (complete memberships_only : Bool) (r : Reconciler W)
      (x : Bool × Reconciler W)
      → SameAttempt r x.1
      → SameAttempt r (migrate_and_apply out setup groups complete memberships_only x).1
  unfolding migrate_and_apply
  migrate_and_apply-Same groups complete memberships_only r (false, s) e = e
  migrate_and_apply-Same groups complete memberships_only r (true, s) e =
      after_migration-Same groups complete memberships_only
        (migrate_canonical_mappings (out.faults s.world) setup.rules groups s.store) s
      ∙ e

  with_routes-Same :
      (f : Option Str → RouteIndex → Result RouteError (Unit {0}) × RouteIndex)
      (o : Option RouteIndex) (r : Reconciler W)
      → SameAttempt r (with_routes out f o r).1
  with_routes-Same f none r = refl
  with_routes-Same f (some i) r = refl

  repaired-Same :
      (r : Reconciler W) (x : Result RunError (Unit {0}) × Reconciler W)
      → SameAttempt r x.1
      → SameAttempt r (repaired out setup x).1
  repaired-Same r (ok _, s) e = e
  repaired-Same r (err _, s) e = e

  with_snapshot-Same :
      (o : Option (List Group)) (r : Reconciler W) → SameAttempt r (with_snapshot out setup o r).1
  with_snapshot-Same none r = refl
  with_snapshot-Same (some groups) r =
      let f : Option Str → RouteIndex → Result RouteError (Unit {0}) × RouteIndex =
        λ s. replace setup.mac setup.realm s groups in
      repaired-Same r (migrate_and_apply out setup groups true false (with_routes out f r.routes r))
        (migrate_and_apply-Same groups true false r (with_routes out f r.routes r)
          (with_routes-Same f r.routes r))

  run_once-Same : (r : Reconciler W) → SameAttempt r (run_once out setup r).1
  unfolding run_once
  run_once-Same r =
      with_snapshot-Same (out.list_groups r.world).0
        (record r { world = (out.list_groups r.world).1 })

  after_repair-Same :
      (is_canceled : RunError → W → Bool) (x : Result RunError (Unit {0}) × Reconciler W)
      → SameAttempt x.1 (after_repair out setup is_canceled x).1
  after_repair-Same is_canceled (ok _, r) = refl
  after_repair-Same is_canceled (err e, r) =
      if_cases (SameAttempt r) (is_canceled e r.world) _ _ (λ _. refl) (λ _. refl)

  attempt_repair-attempt :
      (is_canceled : RunError → W → Bool) (r : Reconciler W)
      → (attempt_repair out setup is_canceled r).1.last_full_attempt ≡ some (out.tick r.world).0
  attempt_repair-attempt is_canceled r =
      let started : Reconciler W = record r {
        world = (out.tick r.world).1;
        metrics = record r.metrics { event_full_repairs = counted r.metrics.event_full_repairs 1 };
        last_full_attempt = some (out.tick r.world).0;
      } in
      after_repair-Same is_canceled (run_once out setup started) ∙ run_once-Same started

-- The time is a full interval after the one on record, if there is one.
abbrev pub IsDue : ℕ → Option ℕ → Type 0
IsDue now none = Unit
IsDue now (some a) = a + topology_repair_min_interval ≤ now

IsDue-after :
    (now : ℕ) (a b : Option ℕ)
    → ltb 0 (remaining now (anchor a b)) ≡ false
    → IsDue now a × IsDue now b
IsDue-after now none none e = (tt, tt)
IsDue-after now none (some b) e = (tt, ground arith)
IsDue-after now (some a) none e = (ground arith, tt)
IsDue-after now (some a) (some b) e = (ground arith, ground arith)

-- A full repair that events ask for either leaves the store, the counters and the time of the last
-- attempt as they are and answers no, or it comes five seconds or more after the last full run and
-- after the last attempt at one, and then its own time is on record as the last attempt, however
-- the run ends.
pub run_event_full_repair-spaced :
    {W : Type 0} (out : Outside W) (setup : Setup) (is_canceled : RunError → W → Bool)
    (r : Reconciler W)
    → let (now, w) = out.tick r.world in
      let (answer, s) = run_event_full_repair out setup is_canceled r in
      ((answer ≡ false)
        × (s.store ≡ r.store)
        × (s.metrics ≡ r.metrics)
        × (s.last_full_attempt ≡ r.last_full_attempt))
      ⊎ (IsDue now r.last_full_attempt
          × IsDue now r.last_full_repair
          × (s.last_full_attempt ≡ some (out.tick w).0))
unfolding run_event_full_repair
run_event_full_repair-spaced {W = W} out setup is_canceled r =
    let now = (out.tick r.world).0 in
    let wait = remaining now (anchor r.last_full_attempt r.last_full_repair) in
    if_cases Spaced (ltb 0 wait) _ _ (λ _. inl (refl, refl, refl, refl))
      λ e.
        let due = IsDue-after now r.last_full_attempt r.last_full_repair e in
        inr (
          due.0,
          due.1,
          attempt_repair-attempt out setup is_canceled (record r { world = (out.tick r.world).1 }),
        )
  where
    Spaced : Bool × Reconciler W → Type 0
    Spaced x =
        ((x.0 ≡ false)
          × (x.1.store ≡ r.store)
          × (x.1.metrics ≡ r.metrics)
          × (x.1.last_full_attempt ≡ r.last_full_attempt))
        ⊎ (IsDue (out.tick r.world).0 r.last_full_attempt
            × IsDue (out.tick r.world).0 r.last_full_repair
            × (x.1.last_full_attempt ≡ some (out.tick (out.tick r.world).1).0))
