-- ===== src/Reconcile/Batch.antt =====
-- internal/reconcile/reconciler.go: what a batch of event hints leads to. The maps of the source are
-- gone through in the order of the association lists.
use group_bridge.Base.{
  ℕ, Bool, true, false, not, Option, none, some, List, [], ◌∷◌, if◌then◌else◌, Str, str_eq, bytes,
  counted,
}
use group_bridge.Base.Map.{Map, lookup, insert}
use group_bridge.Events.Queue.{
  EventWork, no_work, merge, work_at, UserWork, EventBatch, schedule_group, drain,
}
use group_bridge.Events.Routes.{
  Names, RouteIndex, refresh, resolve_group, resolve_user, route_for_group,
}
use group_bridge.Reconcile.Run.{Outside, Setup, Reconciler, RunError, failed}
use group_bridge.Reconcile.Cycle.{
  membership_confirm_delay, jit_provisioning_retry_delay, with_routes, run_group_once,
  run_event_full_repair,
}

-- groupWork, groupRoutes and jitRetries, and whether a full repair is asked for.
pub record Resolved : Type 0 where
  pub work : Map Str EventWork
  pub routes : Map Str Str
  pub retries : Names
  pub global_repair : Bool

abbrev pub nothing_resolved : Bool → Resolved
nothing_resolved global = record { work = []; routes = []; retries = []; global_repair = global }

abbrev pub unrouted : Resolved → Resolved
unrouted x = record x { global_repair = true }

-- The group gets the work, and the route under which it is known.
abbrev pub work_for : Str → Str → EventWork → Resolved → Resolved
work_for group_id route_key w x = record x {
  work = insert group_id (merge (work_at (lookup group_id x.work)) w) x.work;
  routes = insert group_id route_key x.routes;
}

unfoldable pub resolve_groups : RouteIndex → Map Str EventWork → Resolved → Resolved
resolve_groups i [] x = x
resolve_groups i ((route_key, w) ∷ rest) x =
    resolve_groups i rest (elim (resolve_group route_key i) [
      | none ↦ unrouted x
      | some group_id ↦ work_for group_id route_key w x
    ])

abbrev pub retry_for : Bool → Str → Resolved → Resolved
retry_for jit_retry route_key x =
    if jit_retry then record x { retries = insert route_key tt x.retries } else x

-- The work of a user for one of the user's groups.
abbrev pub user_group : UserWork → Str → Option Str → Resolved → Resolved
user_group w group_id none x = unrouted x
user_group w group_id (some route_key) x = retry_for w.jit_retry route_key (
    work_for group_id route_key
      (record { all_providers = false; confirm_removal = w.confirm_membership }) x)

unfoldable pub resolve_user_groups : RouteIndex → UserWork → List Str → Resolved → Resolved
resolve_user_groups i w [] x = x
resolve_user_groups i w (g ∷ gs) x =
    resolve_user_groups i w gs (user_group w g (route_for_group g i) x)

unfoldable pub resolve_users : RouteIndex → Map Str UserWork → Resolved → Resolved
resolve_users i [] x = x
resolve_users i ((user_key, w) ∷ rest) x = resolve_users i rest (elim (resolve_user user_key i) [
  | none ↦ unrouted x
  | some group_ids ↦ resolve_user_groups i w group_ids x
])

unfoldable pub resolve_batch : RouteIndex → EventBatch → Resolved
resolve_batch i batch =
    resolve_users i batch.users
      (resolve_groups i batch.groups (nothing_resolved batch.global_repair))

abbrev pub route_of : Option Str → Str
route_of none = []
route_of (some k) = k

module _ {W : Type 0} (out : Outside W) (setup : Setup) where
  -- ScheduleGroup without work, with a reading of the clock.
  abbrev pub schedule : Str → ℕ → Str → Reconciler W → Reconciler W
  schedule route_key delay reason r =
      let (now, w) = out.tick r.world in
      record r { world = w; events = schedule_group now route_key no_work delay reason r.events }

  -- A targeted run for each group, and a second one later where a removal has to be confirmed.
  unfoldable pub run_groups : Map Str EventWork → Map Str Str → Reconciler W → Reconciler W
  run_groups [] routes r = r
  run_groups ((group_id, w) ∷ rest) routes r =
      let counted_r : Reconciler W = record r {
        metrics = record r.metrics {
          event_targeted_runs = counted r.metrics.event_targeted_runs 1;
        };
      } in
      let (answer, s) = run_group_once out setup group_id (not w.all_providers) counted_r in
      let route_key = route_of (lookup group_id routes) in
      run_groups rest routes (
        if w.confirm_removal
        then schedule route_key membership_confirm_delay (bytes "membership-confirmation") s
        else s)

  unfoldable pub retry_groups : Names → Reconciler W → Reconciler W
  retry_groups [] r = r
  retry_groups ((route_key, _) ∷ rest) r =
      retry_groups rest
        (schedule route_key jit_provisioning_retry_delay (bytes "jit-provisioning") r)

  abbrev pub run_resolved : Resolved → Reconciler W → Reconciler W
  run_resolved x r = retry_groups x.retries (run_groups x.work x.routes r)

  -- A full repair that succeeds stands for all the work.
  abbrev pub unless_repaired : Resolved → Bool × Reconciler W → Reconciler W
  unless_repaired x (true, r) = r
  unless_repaired x (false, r) = run_resolved x r

  abbrev pub with_refreshed :
      (RunError → W → Bool) → EventBatch → Bool × Reconciler W → Reconciler W
  with_refreshed is_canceled batch (false, r) = failed r
  with_refreshed is_canceled batch (true, r) = elim r.routes [
    | none ↦ r
    | some i ↦
        let x = resolve_batch i batch in
        unless_repaired x
          (if x.global_repair then run_event_full_repair out setup is_canceled r else (false, r))
  ]

  unfoldable pub process_event_batch :
      (RunError → W → Bool) → EventBatch → Reconciler W → Reconciler W
  process_event_batch is_canceled batch r = elim r.routes [
    | none ↦ (run_event_full_repair out setup is_canceled r).1
    | some i ↦
        with_refreshed is_canceled batch
          (with_routes out (refresh setup.mac setup.realm) (some i) r)
  ]

  -- One wake of `Run`, after the wait for the burst to settle.
  unfoldable pub handle_wake : (RunError → W → Bool) → Reconciler W → Reconciler W
  handle_wake is_canceled r =
      let (batch, q) = drain r.events in
      process_event_batch is_canceled batch (record r { events = q })
