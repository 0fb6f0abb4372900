-- ===== src/Reconcile/Run.antt =====
-- internal/reconcile/reconciler.go and internal/metrics/metrics.go: the run that applies a plan.
-- What lies outside, the source, the targets, the secret's loader and the clock, acts on a world of
-- any type.
use group_bridge.Base.{
  ℕ, ◌+◌, Bool, true, false, Option, none, some, List, [], ◌∷◌, ◌==◌, if◌then◌else◌, Str, str_eq,
  number_eq, counted,
}
use group_bridge.Base.Map.{Map, insert, values}
use group_bridge.Base.Exec.{Result, ok, err}
use group_bridge.Model.{Group, SyncRequest, SyncResult, AccessSyncRequest, AccessResult}
use group_bridge.State.Ledger.{GroupMapping, Store, Faults}
use group_bridge.State.Operations.{delete_group, group_mappings}
use group_bridge.Events.Queue.{EventQueue}
use group_bridge.Events.Routes.{RouteIndex}
use group_bridge.Reconcile.Rules.{Rule, Provider, Registry, all}
use group_bridge.Reconcile.Plan.{BuildError, Job, sync_access, sync_members, build_plan}

-- The calls that leave the program. A provider's calls see and change the store as well. The clock
-- is read with `tick`, and `faults` are what the operating system refuses.
pub record Outside (W : Type 0) : Type 0 where
  pub list_groups : W → Option (List Group) × W
  pub read_group : Option (Str → W → Option (Option Group) × W)
  pub load_secret : W → Option Str × W
  pub tick : W → ℕ × W
  pub health_check : Str → W → Bool × W
  pub sync_group : Str → SyncRequest → Store × W → Option SyncResult × (Store × W)
  pub sync_access_group : Str → AccessSyncRequest → Store × W → Option AccessResult × (Store × W)
  pub faults : W → Faults

pub record Setup : Type 0 where
  pub providers : Registry
  pub rules : List Rule
  pub realm : Str
  pub mac : Str → Str → Str
  pub to_lower : Str → Str

pub record Metrics : Type 0 where
  pub reconciles : ℕ
  pub reconcile_errors : ℕ
  pub event_targeted_runs : ℕ
  pub event_full_repairs : ℕ
  pub groups_created : ℕ
  pub memberships_added : ℕ
  pub memberships_changed : ℕ
  pub memberships_removed : ℕ
  pub unresolved_users : ℕ
  pub access_policies_verified : ℕ
  pub provider_health_errors : ℕ

-- `routes` is `none` where no routing is configured, and the two times are `none` before the first
-- full run and the first attempt at one. The queue has its own counter.
pub record Reconciler (W : Type 0) : Type 0 where
  pub store : Store
  pub world : W
  pub metrics : Metrics
  pub ready : Bool
  pub routes : Option RouteIndex
  pub events : EventQueue
  pub last_full_repair : Option ℕ
  pub last_full_attempt : Option ℕ

pub data RunError : Type 0 where
  no_snapshot no_routes no_migration no_targeted_reads no_group build_failed unhealthy
        apply_failed :
      RunError

-- The provider of a job goes into the map of those that a targeted run needs.
unfoldable pub job_providers : List Job → Map Str Provider → Map Str Provider
job_providers [] m = m
job_providers (sync_access p r ∷ js) m = job_providers js (insert p.name p m)
job_providers (sync_members p r t ∷ js) m = job_providers js (insert p.name p m)

abbrev pub required_providers : Bool → Registry → List Job → List Provider
required_providers complete registry jobs =
    if complete then all registry else values (job_providers jobs [])

module _ {W : Type 0} where
  abbrev pub failed : Reconciler W → Reconciler W
  failed r = record r {
    metrics = record r.metrics { reconcile_errors = counted r.metrics.reconcile_errors 1 };
  }

  abbrev pub with_world : Store × W → Reconciler W → Reconciler W
  with_world (s, w) r = record r { store = s; world = w }

module _ {W : Type 0} (out : Outside W) where
  -- Each provider is checked, also after one that failed: how many failed.
  unfoldable pub check_health : List Provider → Reconciler W → ℕ × Reconciler W
  check_health [] r = (0, r)
  check_health (p ∷ ps) r =
      let (healthy, w) = out.health_check p.name r.world in
      let checked : Reconciler W = record r { world = w } in
      let counted_r : Reconciler W = record checked {
        metrics = record r.metrics {
          provider_health_errors = counted r.metrics.provider_health_errors 1;
        };
      } in
      let fine = check_health ps checked in
      let (n, s) = check_health ps counted_r in if healthy then fine else (n + 1, s)

  abbrev pub count_result : SyncResult → Metrics → Metrics
  count_result x m = record m {
    groups_created = if x.created_group then counted m.groups_created 1 else m.groups_created;
    memberships_added = counted m.memberships_added x.added;
    memberships_changed = counted m.memberships_changed x.updated;
    memberships_removed = counted m.memberships_removed x.removed;
    unresolved_users = counted m.unresolved_users x.unresolved;
  }

  -- After a tombstone has converged, its mapping goes; `true` where that failed.
  unfoldable pub retire : Option GroupMapping → SyncResult → Reconciler W → Bool × Reconciler W
  retire none x r = (false, r)
  retire (some m) x r =
      let (answer, s) =
        delete_group (out.faults r.world) m.provider m.rule m.source_group_id r.store in
      if x.converged
      then (elim answer [ ok _ ↦ false | err _ ↦ true ], record r { store = s })
      else (false, r)

  abbrev pub count_retired : SyncResult → Bool × Reconciler W → Bool × Reconciler W
  count_retired x (true, r) = (true, r)
  count_retired x (false, r) = (false, record r { metrics = count_result x r.metrics })

  abbrev pub after_access : Option AccessResult × (Store × W) → Reconciler W → Bool × Reconciler W
  after_access (none, sw) r = (true, with_world sw r)
  after_access (some x, sw) r = (
    false,
    if x.verified_policy
        then record (with_world sw r) {
          metrics = record r.metrics {
            access_policies_verified = counted r.metrics.access_policies_verified 1;
          };
        }
        else with_world sw r,
  )

  abbrev pub after_group :
      Option GroupMapping → Option SyncResult × (Store × W) → Reconciler W → Bool × Reconciler W
  after_group t (none, sw) r = (true, with_world sw r)
  after_group t (some x, sw) r = count_retired x (retire t x (with_world sw r))

  -- One job; `true` where it failed.
  unfoldable pub apply_job : Job → Reconciler W → Bool × Reconciler W
  apply_job (sync_access p q) r = after_access (out.sync_access_group p.name q (r.store, r.world)) r
  apply_job (sync_members p q t) r = after_group t (out.sync_group p.name q (r.store, r.world)) r

  -- Each job is applied, also after one that failed: how many failed.
  unfoldable pub apply_all : List Job → Reconciler W → ℕ × Reconciler W
  apply_all [] r = (0, r)
  apply_all (j ∷ js) r =
      let (bad, s) = apply_job j r in let (n, t) = apply_all js s in (if bad then n + 1 else n, t)

  abbrev pub count_complete : Bool → Reconciler W → Reconciler W
  count_complete complete r =
      if complete
      then record r { metrics = record r.metrics { reconciles = counted r.metrics.reconciles 1 } }
      else r

  -- The end of the run, with how many jobs failed.
  abbrev pub concluded : Bool → ℕ × Reconciler W → Result RunError (Unit {0}) × Reconciler W
  concluded complete (n, r) =
      let counted_r = count_complete complete r in
      if n == 0
      then (ok tt, if complete then record counted_r { ready = true } else counted_r)
      else (err RunError.apply_failed, failed counted_r)

  abbrev pub if_healthy :
      Bool → List Job → ℕ × Reconciler W → Result RunError (Unit {0}) × Reconciler W
  if_healthy complete jobs (n, r) =
      if n == 0 then concluded complete (apply_all jobs r) else (err RunError.unhealthy, failed r)

  abbrev pub run_plan :
      List BuildError
      → Bool
      → List Provider
      → List Job
      → Reconciler W
      → Result RunError (Unit {0}) × Reconciler W
  run_plan [] complete required jobs r = if_healthy complete jobs (check_health required r)
  run_plan (e ∷ es) complete required jobs r = (err RunError.build_failed, failed r)

  unfoldable pub reconcile_groups :
      Setup → List Group → Bool → Bool → Reconciler W → Result RunError (Unit {0}) × Reconciler W
  reconcile_groups setup groups complete memberships_only r =
      let plan =
        build_plan setup.to_lower setup.providers (group_mappings r.store) complete memberships_only
          setup.rules groups in
      run_plan plan.errors complete (required_providers complete setup.providers plan.jobs)
        plan.jobs r
