-- ===== src/Reconcile/Tests.antt =====
-- Plans and runs at concrete data, and their theorems there.
use group_bridge.Base.{
  ℕ, ◌≤◌, ◌≡◌, ◌≢◌, ◌+◌, ◌⊎◌, ◌↔◌, refl, arith, All, true, false, none, some, List, [], ◌∷◌, ◌++◌,
  length, Str, str_eq, number_eq, bytes, has_prefix,
}
use group_bridge.Base.Map.{lookup}
use group_bridge.Base.Exec.{ok, err}
use group_bridge.Model.{User, Group, SyncResult}
use group_bridge.State.Ledger.{missing, GroupMapping}
use group_bridge.State.Opening.{fresh_store}
use group_bridge.Events.Queue.{no_work, UserWork, EventBatch, new_event_queue}
use group_bridge.Events.Routes.{RouteIndex}
use group_bridge.Reconcile.Paths.{
  bad_segment, trim, trim_left, trim_right, is_slash, split, join, replace_unsafe, slug, slugs,
  ascii_lower, segments, all_word, relative_group_path, target_group_path, vault_secret_path,
}
use group_bridge.Reconcile.Confined.{
  SafeOrSlash, IsSlug, target_group_path-slugs, relative_group_path_iff,
}
use group_bridge.Reconcile.Secrets.{vault_secret_path-SafeOrSlash}
use group_bridge.Reconcile.Rules.{Rule, Provider, new_registry}
use group_bridge.Reconcile.Plan.{sync_members, tombstone_request, no_plan, retarget_all, build_plan}
use group_bridge.Reconcile.Established.{AgreesOn, retarget_all-established}
use group_bridge.Reconcile.Orderly.{Apart, Accounted}
use group_bridge.Reconcile.Retired.{build_plan-Apart, build_plan-Accounted}
use group_bridge.Reconcile.Run.{Outside, Setup, Reconciler, apply_job}
use group_bridge.Reconcile.Guarded.{Guarded}
use group_bridge.Reconcile.Cycle.{run_event_full_repair}
use group_bridge.Reconcile.Tombstones.{Retires, apply_job-Retires}
use group_bridge.Reconcile.Throttled.{IsDue, run_event_full_repair-spaced}
use group_bridge.Reconcile.Batch.{resolve_batch}
use group_bridge.Reconcile.Lasting.{GroupCovered, UserCovered}
use group_bridge.Reconcile.Resolution.{resolve_batch-groups, resolve_batch-users}

path_mapped :
    target_group_path ascii_lower (bytes "/top/") (bytes "Team A/b.c") ≡ ok (bytes "top/team-a/b-c")
unfolding target_group_path slugs slug replace_unsafe trim_left trim_right split join ascii_lower
    bytes number_eq
path_mapped = refl

path_refused : vault_secret_path (bytes "kv") (bytes "a/../b") ≡ err bad_segment
unfolding vault_secret_path segments all_word trim_left trim_right split join ascii_lower bytes
    number_eq str_eq
path_refused = refl

target_group_path-slugs_example :
    (ws : List Str) × All IsSlug ws
    × (length ws ≡ length (split (trim is_slash (bytes "Team A/b.c"))))
    × (bytes "top/team-a/b-c" ≡ trim is_slash (join (trim is_slash (bytes "/top/") ∷ join ws ∷ [])))
target_group_path-slugs_example =
    target_group_path-slugs ascii_lower (bytes "/top/") (bytes "Team A/b.c")
      (bytes "top/team-a/b-c") path_mapped

ops_trimmed : trim is_slash (bytes "/ops") ≢ []
unfolding trim_left trim_right bytes number_eq
ops_trimmed e = ground arith

relative_group_path_iff_example :
    (relative_group_path (bytes "/ops/db") (bytes "/ops") ≡ some (bytes "db"))
    ↔ (trim is_slash (bytes "/ops/db") ≡ trim is_slash (bytes "/ops") ++ (47 ∷ bytes "db"))
relative_group_path_iff_example =
    relative_group_path_iff (bytes "/ops/db") (bytes "/ops") (bytes "db") ops_trimmed

abbrev ann : User
ann = record { id = bytes "u1"; username = bytes "ann"; email = [] }

abbrev db : Group
db = record { id = bytes "g1"; name = bytes "db"; path = bytes "/ops/db"; members = ann ∷ [] }

abbrev rule : Rule
rule = record {
  name = bytes "r";
  source_group_prefix = bytes "/ops";
  source_group_paths = none;
  target_provider = bytes "gl";
  target_parent = bytes "top";
  create_groups = true;
  adopt_existing_group = false;
  access_level = bytes "developer";
  prune = bytes "managed-only";
  protected_users = [];
  max_removals = 5;
  identity_match = bytes "oidc" ∷ [];
  enforce_access_level = false;
  vault = none;
}

abbrev gone : GroupMapping
gone = record {
  provider = bytes "gl@1";
  rule = bytes "r";
  source_group_id = bytes "g0";
  source_native_id = [];
  source_group_path = bytes "/ops/old";
  target_group_id = bytes "7";
  target_group_path = bytes "top/old";
  owned = true;
}

abbrev providers : List Provider
providers = record { name = bytes "gl"; syncs_groups = true; syncs_access = false } ∷ []

build_plan-Apart_example :
    Apart
      (build_plan ascii_lower
        (new_registry providers)
        (gone ∷ [])
        true
        false
        (rule ∷ [])
        (db ∷ [])).jobs
build_plan-Apart_example =
    build_plan-Apart ascii_lower providers (gone ∷ []) true false (rule ∷ []) (db ∷ [])

build_plan-Accounted_example :
    All
      (Accounted
        (build_plan ascii_lower
          (new_registry providers)
          (gone ∷ [])
          true
          false
          (rule ∷ [])
          (db ∷ [])).present_sources)
      (build_plan ascii_lower
        (new_registry providers)
        (gone ∷ [])
        true
        false
        (rule ∷ [])
        (db ∷ [])).jobs
build_plan-Accounted_example =
    build_plan-Accounted ascii_lower providers (gone ∷ []) true false (rule ∷ []) (db ∷ [])

-- The source of the group that moved from /ops/old.
abbrev db_mapping : GroupMapping
db_mapping = record gone { source_group_id = bytes "g1" }

agrees : All (AgreesOn rule (bytes "g1") (bytes "top/old")) (db_mapping ∷ [])
agrees = (λ e. refl, tt)

retarget_all-established_example :
    (retarget_all true rule (bytes "g1") (db_mapping ∷ []) (bytes "top/db", no_plan)).0
    ≡ bytes "top/old"
unfolding bytes str_eq has_prefix number_eq
retarget_all-established_example =
    retarget_all-established true rule (bytes "g1") (bytes "top/old") (bytes "top/db")
      (db_mapping ∷ []) no_plan refl refl agrees

abbrev unchanged : SyncResult
unchanged = record {
  created_group = false;
  added = 0;
  updated = 0;
  removed = 0;
  unresolved = 0;
  skipped_removal = 0;
  converged = true;
}

-- The world is the time, which passes with each reading of the clock.
abbrev outside : Outside ℕ
outside = record {
  list_groups = λ w. (some (db ∷ []), w);
  read_group = none;
  load_secret = λ w. (none, w);
  tick = λ w. (w, w + 1);
  health_check = λ name w. (true, w);
  sync_group = λ name q sw. (some unchanged, sw);
  sync_access_group = λ name q sw. (none, sw);
  faults = λ w step. false;
}

abbrev setup : Setup
setup = record {
  providers = new_registry providers;
  rules = rule ∷ [];
  realm = bytes "eng";
  mac = λ secret message. message;
  to_lower = ascii_lower;
}

abbrev started : Reconciler ℕ
started = record {
  store = fresh_store missing;
  world = 9000000000;
  metrics = record {
    reconciles = 0;
    reconcile_errors = 0;
    event_targeted_runs = 0;
    event_full_repairs = 0;
    groups_created = 0;
    memberships_added = 0;
    memberships_changed = 0;
    memberships_removed = 0;
    unresolved_users = 0;
    access_policies_verified = 0;
    provider_health_errors = 0;
  };
  ready = false;
  routes = none;
  events = new_event_queue;
  last_full_repair = none;
  last_full_attempt = some 1000000000;
}

run_event_full_repair-spaced_example :
    let (answer, s) = run_event_full_repair outside setup (λ e w. false) started in
    ((answer ≡ false)
      × (s.store ≡ started.store)
      × (s.metrics ≡ started.metrics)
      × (s.last_full_attempt ≡ some 1000000000))
    ⊎ (IsDue 9000000000 (some 1000000000) × Unit {0} × (s.last_full_attempt ≡ some 9000000001))
run_event_full_repair-spaced_example =
    run_event_full_repair-spaced outside setup (λ e w. false) started

abbrev routes : RouteIndex
routes = record {
  secret = [];
  group_ids = (bytes "k1", bytes "g1") ∷ [];
  group_keys = (bytes "g1", bytes "k1") ∷ [];
  user_groups = (bytes "v1", (bytes "g1", tt) ∷ []) ∷ [];
  group_users = (bytes "g1", (bytes "u1", tt) ∷ []) ∷ [];
}

abbrev login : UserWork
login = record { jit_retry = true; confirm_membership = false }

abbrev batch : EventBatch
batch = record {
  groups = (bytes "k1", no_work) ∷ [];
  users = (bytes "v1", login) ∷ [];
  global_repair = false;
}

resolve_batch-groups_example : GroupCovered routes no_work (bytes "k1") (resolve_batch routes batch)
unfolding lookup bytes str_eq
resolve_batch-groups_example = resolve_batch-groups routes batch (bytes "k1") no_work refl

resolve_batch-users_example : UserCovered routes login (bytes "v1") (resolve_batch routes batch)
unfolding lookup bytes str_eq
resolve_batch-users_example = resolve_batch-users routes batch (bytes "v1") login refl

-- The store has no mapping, and deleting one that is not there succeeds.
apply_job-Retires_example : Retires gone unchanged started.store (
    apply_job outside
      (sync_members
        (record { name = bytes "gl"; syncs_groups = true; syncs_access = false })
        (tombstone_request rule gone)
        (some gone))
      started)
apply_job-Retires_example =
    apply_job-Retires outside gone unchanged
      (record { name = bytes "gl"; syncs_groups = true; syncs_access = false })
      (tombstone_request rule gone) started (started.store, started.world) refl

secret_mapped : vault_secret_path (bytes "KV/") (bytes "Team-A") ≡ ok (bytes "kv/team-a")
unfolding vault_secret_path segments all_word trim_left trim_right split join ascii_lower bytes
    number_eq str_eq
secret_mapped = refl

vault_secret_path-SafeOrSlash_example :
    (bytes "kv/team-a" ≢ [])
    × (length (bytes "kv/team-a") ≤ 240)
    × All SafeOrSlash (bytes "kv/team-a")
vault_secret_path-SafeOrSlash_example =
    vault_secret_path-SafeOrSlash (bytes "KV/") (bytes "Team-A") (bytes "kv/team-a") secret_mapped
