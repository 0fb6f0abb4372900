-- ===== src/Reconcile/Cycle.antt =====
-- internal/reconcile/reconciler.go: the full and the targeted run, and the work of an event batch.
-- The readings of the clock that only time a log entry are left out.
use Prim.Native.Nat.{max}
use group_bridge.Base.{
  ℕ, ◌+◌, ◌-◌, Bool, true, false, not, ◌&&◌, ◌||◌, Option, none, some, List, [], ◌∷◌, ◌==◌, ◌!=◌,
  if◌then◌else◌, Str, str_eq, ltb, counted,
}
use group_bridge.Base.Exec.{Result, ok, err, Exec, pure, ◌>>◌}
use group_bridge.Model.{Group}
use group_bridge.State.Ledger.{GroupMapping, Store, StateError, Faults}
use group_bridge.State.Operations.{move_group, group_mappings}
use group_bridge.Events.Queue.{add_global_after}
use group_bridge.Events.Routes.{RouteIndex, RouteError, replace, update}
use group_bridge.Reconcile.Rules.{Rule, source_path_allowed, is_vault, is_listed, is_at_provider}
use group_bridge.Reconcile.Run.{Outside, Setup, Reconciler, RunError, failed, reconcile_groups}

-- membershipConfirmDelay, jitProvisioningRetryDelay and topologyRepairMinInterval, in nanoseconds
abbrev pub membership_confirm_delay : ℕ
membership_confirm_delay = 1500000000

abbrev pub jit_provisioning_retry_delay : ℕ
jit_provisioning_retry_delay = 3000000000

abbrev pub topology_repair_min_interval : ℕ
topology_repair_min_interval = 5000000000

-- The guards of `migrateCanonicalMappings` on a mapping.
abbrev pub is_legacy : Rule → Group → GroupMapping → Bool
is_legacy rule group m =
    m.rule == rule.name
    && is_at_provider rule m
    && m.source_group_path == group.path
    && m.source_group_id != group.path

unfoldable pub migrate_mappings :
    Faults → Rule → Group → List GroupMapping → Exec StateError Store (Unit {0})
migrate_mappings f rule group [] = pure tt
migrate_mappings f rule group (m ∷ ms) =
    let rest = migrate_mappings f rule group ms in
    if is_legacy rule group m
    then move_group f m.provider m.rule m.source_group_id group.path group.id group.path >> rest
    else rest

unfoldable pub migrate_groups :
    Faults → Rule → List GroupMapping → List Group → Exec StateError Store (Unit {0})
migrate_groups f rule mappings [] = pure tt
migrate_groups f rule mappings (group ∷ groups) =
    let rest = migrate_groups f rule mappings groups in
    if source_path_allowed rule group.path
    then migrate_mappings f rule group mappings >> rest
    else rest

unfoldable pub migrate_rules :
    Faults → List Rule → List GroupMapping → List Group → Exec StateError Store (Unit {0})
migrate_rules f [] mappings groups = pure tt
migrate_rules f (rule ∷ rules) mappings groups =
    let rest = migrate_rules f rules mappings groups in
    if is_vault rule || not (is_listed rule)
    then rest
    else migrate_groups f rule mappings groups >> rest

unfoldable pub migrate_canonical_mappings :
    Faults → List Rule → List Group → Exec StateError Store (Unit {0})
migrate_canonical_mappings f rules groups s = migrate_rules f rules (group_mappings s) groups s

-- The routes, if there are any, after an operation on them with what the loader of the secret
-- returned: whether it failed, and they are kept either way.
abbrev pub with_routes :
    {W : Type 0}
    → Outside W
    → (Option Str → RouteIndex → Result RouteError (Unit {0}) × RouteIndex)
    → Option RouteIndex
    → Reconciler W
    → Bool × Reconciler W
with_routes out f none r = (true, r)
with_routes out f (some i) r =
    let (loaded, w) = out.load_secret r.world in
    let (answer, j) = f loaded i in
    (elim answer [ ok _ ↦ true | err _ ↦ false ], record r { world = w; routes = some j })

-- The later of the last full run and the last attempt at one.
abbrev pub anchor : Option ℕ → Option ℕ → Option ℕ
anchor none repair = repair
anchor (some a) none = some a
anchor (some a) (some b) = some (max a b)

-- How long the next full run has to wait.
abbrev pub remaining : ℕ → Option ℕ → ℕ
remaining now none = 0
remaining now (some a) = (a + topology_repair_min_interval) - now

module _ {W : Type 0} (out : Outside W) (setup : Setup) where
  abbrev pub Answer : Type 0
  Answer = Result RunError (Unit {0}) × Reconciler W

  abbrev pub after_migration :
      Result StateError (Unit {0}) × Store → Reconciler W → (Reconciler W → Answer) → Answer
  after_migration (ok _, s) r next = next (record r { store = s })
  after_migration (err _, s) r next = (err RunError.no_migration, failed (record r { store = s }))

  -- What both runs do once the routes are up to date, or failed to be.
  unfoldable pub migrate_and_apply : List Group → Bool → Bool → Bool × Reconciler W → Answer
  migrate_and_apply groups complete memberships_only (false, r) = (err RunError.no_routes, failed r)
  migrate_and_apply groups complete memberships_only (true, r) =
      after_migration (migrate_canonical_mappings (out.faults r.world) setup.rules groups r.store) r
        (reconcile_groups out setup groups complete memberships_only)

  -- The time of a full run is on record once it succeeds.
  abbrev pub repaired : Answer → Answer
  repaired (err e, r) = (err e, r)
  repaired (ok _, r) =
      let (now, w) = out.tick r.world in
      (ok tt, record r { world = w; last_full_repair = some now })

  abbrev pub with_snapshot : Option (List Group) → Reconciler W → Answer
  with_snapshot none r = (err RunError.no_snapshot, failed r)
  with_snapshot (some groups) r = repaired (
      migrate_and_apply groups true false
        (with_routes out (λ s. replace setup.mac setup.realm s groups) r.routes r))

  unfoldable pub run_once : Reconciler W → Answer
  run_once r =
      let (groups, w) = out.list_groups r.world in with_snapshot groups (record r { world = w })

  abbrev pub with_group : Bool → Option (Option Group) → Reconciler W → Answer
  with_group memberships_only none r = (err RunError.no_group, failed r)
  with_group memberships_only (some none) r = (ok tt, r)
  with_group memberships_only (some (some group)) r =
      migrate_and_apply (group ∷ []) false memberships_only
        (with_routes out (λ s. update setup.mac setup.realm s group) r.routes r)

  abbrev pub targeted_run :
      Option (Str → W → Option (Option Group) × W) → Str → Bool → Reconciler W → Answer
  targeted_run none group_id memberships_only r = (err RunError.no_targeted_reads, r)
  targeted_run (some read) group_id memberships_only r =
      let (found, w) = read group_id r.world in
      with_group memberships_only found (record r { world = w })

  unfoldable pub run_group_once : Str → Bool → Reconciler W → Answer
  run_group_once group_id memberships_only r =
      targeted_run out.read_group group_id memberships_only r

  -- AddGlobalAfter, with a reading of the clock.
  abbrev pub repair_later : ℕ → Reconciler W → Reconciler W
  repair_later delay r =
      let (now, w) = out.tick r.world in
      record r { world = w; events = add_global_after now delay r.events }

  -- An error wraps the end of the context where the caller says so.
  abbrev pub after_repair : (RunError → W → Bool) → Answer → Bool × Reconciler W
  after_repair is_canceled (ok _, r) = (true, r)
  after_repair is_canceled (err e, r) =
      (false, if is_canceled e r.world then r else repair_later topology_repair_min_interval r)

  abbrev pub attempt_repair : (RunError → W → Bool) → Reconciler W → Bool × Reconciler W
  attempt_repair is_canceled r =
      let (now, w) = out.tick r.world in
      let m = record r.metrics { event_full_repairs = counted r.metrics.event_full_repairs 1 } in
      after_repair is_canceled
        (run_once (record r { world = w; metrics = m; last_full_attempt = some now }))

  -- `true` where a full run took place and succeeded.
  unfoldable pub run_event_full_repair : (RunError → W → Bool) → Reconciler W → Bool × Reconciler W
  run_event_full_repair is_canceled r =
      let (now, w) = out.tick r.world in
      let read : Reconciler W = record r { world = w } in
      let wait = remaining now (anchor r.last_full_attempt r.last_full_repair) in
      if ltb 0 wait then (false, repair_later wait read) else attempt_repair is_canceled read
