-- ===== src/Reconcile/Plan.antt =====
-- internal/reconcile/reconciler.go: the jobs that `reconcileGroups` builds.
use group_bridge.Base.{
  Bool, false, not, ◌&&◌, Option, none, some, List, [], ◌∷◌, ◌++◌, ◌==◌, ◌!=◌, if◌then◌else◌, Str,
  str_eq, bytes,
}
use group_bridge.Base.Map.{Map, has, insert}
use group_bridge.Base.Exec.{Result, ok, err}
use group_bridge.Model.{Group, SyncRequest, AccessSyncRequest}
use group_bridge.State.Ledger.{GroupMapping}
use group_bridge.Reconcile.Paths.{
  PathError, relative_group_path, target_group_path, vault_secret_path,
}
use group_bridge.Reconcile.Rules.{
  VaultRule, Rule, Provider, Registry, get, source_path_allowed, is_vault, is_listed,
  source_state_key, source_native_id, vault_policy_mode, is_at_provider,
}

pub data BuildError : Type 0 where
  bad_path : PathError → BuildError
  collides unavailable duplicate_target tombstone_collision no_access_sync no_group_sync :
      BuildError

-- A job at the provider of a rule. A tombstone is a job for a mapping whose source is gone.
pub data Job : Type 0 where
  sync_access : Provider → AccessSyncRequest → Job
  sync_members : Provider → SyncRequest → Option GroupMapping → Job

pub record Plan : Type 0 where
  pub jobs : List Job
  pub target_owners : Map Str Str
  pub present_sources : Map Str (Unit {0})
  pub errors : List BuildError

abbrev pub no_plan : Plan
no_plan = record { jobs = []; target_owners = []; present_sources = []; errors = [] }

-- Both are appended in the source; nothing depends on the order of the errors.
abbrev pub with_job : Job → Plan → Plan
with_job j p = record p { jobs = p.jobs ++ (j ∷ []) }

abbrev pub with_error : BuildError → Plan → Plan
with_error e p = record p { errors = e ∷ p.errors }

abbrev pub pair_key : Str → Str → Str
pair_key a b = a ++ (0 ∷ b)

-- One round of the loop over the mappings: the target path, and the errors.
abbrev pub retarget : Bool → Rule → Str → GroupMapping → Str × Plan → Str × Plan
retarget complete rule source_key m (target, p) =
    let mine = not (is_vault rule) && m.rule == rule.name && is_at_provider rule m in
    let target =
      if mine && m.source_group_id == source_key && m.target_group_path != target
      then m.target_group_path
      else target in
    if not complete && mine && m.source_group_id != source_key && m.target_group_path == target
    then (target, with_error collides p)
    else (target, p)

unfoldable pub retarget_all : Bool → Rule → Str → List GroupMapping → Str × Plan → Str × Plan
retarget_all complete rule source_key [] t = t
retarget_all complete rule source_key (m ∷ ms) t =
    retarget_all complete rule source_key ms (retarget complete rule source_key m t)

abbrev pub group_request : Rule → Group → Str → Str → SyncRequest
group_request rule group source_key target = record {
  rule_name = rule.name;
  state_key = source_key;
  source_group = group;
  target_path = target;
  target_parent = rule.target_parent;
  create_group = rule.create_groups;
  adopt_existing_group = rule.adopt_existing_group;
  access_level = rule.access_level;
  prune = rule.prune;
  protected_users = rule.protected_users;
  max_removals = rule.max_removals;
  identity_match = rule.identity_match;
  enforce_access_level = rule.enforce_access_level;
  immediate_removal = false;
}

abbrev pub access_request : Rule → VaultRule → Group → Str → Str → AccessSyncRequest
access_request rule v group source_key target = record {
  rule_name = rule.name;
  state_key = source_key;
  source_group = record group { members = [] };
  secret_path = target;
  access_profile = v.access_profile;
  policy_mode = vault_policy_mode v;
  discoverable = v.discoverable;
}

-- The job of a rule for a group, where the provider can do it.
abbrev pub job_for : Option VaultRule → Rule → Provider → Group → Str → Str → Plan → Plan
job_for none rule provider group source_key target p =
    if provider.syncs_groups
    then with_job (sync_members provider (group_request rule group source_key target) none) p
    else with_error no_group_sync p
job_for (some v) rule provider group source_key target p =
    if provider.syncs_access
    then with_job (sync_access provider (access_request rule v group source_key target)) p
    else with_error no_access_sync p

-- The claim of a target, by its key, and what follows it.
abbrev pub claim : Str → Str → BuildError → (Plan → Plan) → Plan → Plan
claim target_key owner taken next p =
    if has target_key p.target_owners
    then with_error taken p
    else next (record p { target_owners = insert target_key owner p.target_owners })

abbrev pub at_provider : BuildError → Option Provider → (Provider → Plan → Plan) → Plan → Plan
at_provider e none next p = with_error e p
at_provider e (some provider) next p = next provider p

-- What follows the loop over the mappings.
unfoldable pub place : Registry → Rule → Group → Str → Str × Plan → Plan
place registry rule group source_key (target, p) =
    at_provider unavailable (get rule.target_provider registry)
      (λ provider.
        claim (pair_key rule.target_provider target) (rule.name ++ (47 ∷ group.path))
          duplicate_target
          λ q. job_for rule.vault rule provider group source_key target (record q {
            present_sources = insert (pair_key rule.name source_key) tt q.present_sources;
          }))
      p

abbrev pub mapped :
    Registry → Bool → List GroupMapping → Rule → Group → Result PathError Str → Plan → Plan
mapped registry complete mappings rule group (err e) p = with_error (bad_path e) p
mapped registry complete mappings rule group (ok target) p =
    let source_key = source_state_key rule group in
    place registry rule group source_key
      (retarget_all complete rule source_key mappings (target, p))

abbrev pub path_in : (Str → Str) → Rule → Str → Result PathError Str
path_in to_lower rule relative = elim rule.vault [
  | none ↦ target_group_path to_lower rule.target_parent relative
  | some v ↦ vault_secret_path v.path_prefix relative
]

module _ (to_lower : Str → Str) (registry : Registry) (mappings : List GroupMapping) where
  -- The body of the two loops, for a group and a rule.
  unfoldable pub plan_group : Bool → Bool → Rule → Group → Plan → Plan
  plan_group complete memberships_only rule group p =
      if memberships_only && is_vault rule
      then p
      else elim (relative_group_path group.path rule.source_group_prefix) [
        | none ↦ p
        | some relative ↦
            if source_path_allowed rule group.path
            then mapped registry complete mappings rule group (path_in to_lower rule relative) p
            else p
      ]

  unfoldable pub plan_rules : Bool → Bool → List Rule → Group → Plan → Plan
  plan_rules complete memberships_only [] group p = p
  plan_rules complete memberships_only (rule ∷ rules) group p =
      plan_rules complete memberships_only rules group
        (plan_group complete memberships_only rule group p)

  unfoldable pub plan_groups : Bool → Bool → List Rule → List Group → Plan → Plan
  plan_groups complete memberships_only rules [] p = p
  plan_groups complete memberships_only rules (group ∷ groups) p =
      plan_groups complete memberships_only rules groups
        (plan_rules complete memberships_only rules group p)

abbrev pub tombstone_request : Rule → GroupMapping → SyncRequest
tombstone_request rule m =
    record (group_request rule
      (record { id = source_native_id m; name = []; path = m.source_group_path; members = [] })
      m.source_group_id m.target_group_path) {
        create_group = false;
        immediate_removal = is_listed rule;
      }

abbrev pub tombstone_job : Rule → GroupMapping → Provider → Plan → Plan
tombstone_job rule m provider p =
    if provider.syncs_groups
    then with_job (sync_members provider (tombstone_request rule m) (some m)) p
    else with_error no_group_sync p

abbrev pub tombstone_at : Rule → GroupMapping → Option Provider → Plan → Plan
tombstone_at rule m none p = p
tombstone_at rule m (some provider) p =
    claim (pair_key rule.target_provider m.target_group_path)
      (bytes "tombstone/" ++ m.source_group_path) tombstone_collision
      (tombstone_job rule m provider) p

-- The guards of the loop over the rules for a mapping whose source is absent.
abbrev pub retires : Rule → GroupMapping → Bool
retires rule m =
    rule.name == m.rule
    && is_at_provider rule m
    && not (is_vault rule)
    && not (is_listed rule && source_path_allowed rule m.source_group_path)

module _ (registry : Registry) where
  unfoldable pub retire_rules : List Rule → GroupMapping → Plan → Plan
  retire_rules [] m p = p
  retire_rules (rule ∷ rules) m p =
      retire_rules rules m
        (if retires rule m then tombstone_at rule m (get rule.target_provider registry) p else p)

  unfoldable pub retire_all : List Rule → List GroupMapping → Plan → Plan
  retire_all rules [] p = p
  retire_all rules (m ∷ ms) p = retire_all rules ms (
      if has (pair_key m.rule m.source_group_id) p.present_sources
      then p
      else retire_rules rules m p)

unfoldable pub build_plan :
    (Str → Str) → Registry → List GroupMapping → Bool → Bool → List Rule → List Group → Plan
build_plan to_lower registry mappings complete memberships_only rules groups =
    let p = plan_groups to_lower registry mappings complete memberships_only rules groups no_plan in
    if complete then retire_all registry rules mappings p else p
