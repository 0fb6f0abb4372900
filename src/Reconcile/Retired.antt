-- ===== src/Reconcile/Retired.antt =====
-- The plan that is built keeps its targets apart and retires no source that is present.
use group_bridge.Base.{
  All-weaken, ◌≡◌, refl, sym, ap, subst, Bool, false, Option, none, some, List, [], ◌∷◌, ◌++◌,
  if_cases, All, Str, str_eq, bytes,
}
use group_bridge.Base.Map.{Map, has, insert}
use group_bridge.Model.{Group}
use group_bridge.State.Ledger.{GroupMapping}
use group_bridge.Reconcile.Rules.{Rule, Provider, Registry, new_registry, get}
use group_bridge.Reconcile.Plan.{
  BuildError, Job, sync_access, sync_members, Plan, no_plan, with_job, with_error, pair_key,
  no_group_sync, tombstone_collision, plan_groups, tombstone_request, tombstone_at, retires,
  retire_rules, retire_all, build_plan,
}
use group_bridge.Reconcile.Orderly.{
  Apart, Accounted, Live, IsOrderly, error-IsOrderly, claimed-IsOrderly, job-IsOrderly,
}
use group_bridge.Reconcile.Planned.{get-new_registry, plan_groups-IsOrderly}

Accounted-Live : (present : Map Str (Unit {0})) (j : Job) → Live present j → Accounted present j
Accounted-Live present (sync_access provider r) h = h
Accounted-Live present (sync_members provider r none) h = h
Accounted-Live present (sync_members provider r (some m)) h = absurd h

-- The invariant, with the sources that are present.
record IsRetiring (present : Map Str (Unit {0})) (p : Plan) : Type 0 where
  orderly : IsOrderly Accounted p
  same_sources : p.present_sources ≡ present

module _ (providers : List Provider) (present : Map Str (Unit {0})) where
  abbrev registry : Registry
  registry = new_registry providers

  refused-IsRetiring :
      (e : BuildError) (p : Plan) → IsRetiring present p → IsRetiring present (with_error e p)
  refused-IsRetiring e p r = record {
    orderly = error-IsOrderly Accounted e p r.orderly;
    same_sources = r.same_sources;
  }

  tombstone_at-IsRetiring :
      (rule : Rule) (m : GroupMapping) (p : Plan)
      → has (pair_key m.rule m.source_group_id) present ≡ false
      → IsRetiring present p
      → IsRetiring present (tombstone_at rule m (get rule.target_provider registry) p)
  tombstone_at-IsRetiring rule m p absent r = by_provider (get rule.target_provider registry) refl
    where
      k : Str
      k = pair_key rule.target_provider m.target_group_path

      owner : Str
      owner = bytes "tombstone/" ++ m.source_group_path

      claimed : Plan
      claimed = record p { target_owners = insert k owner p.target_owners }

      claimed-IsRetiring : IsRetiring present claimed
      claimed-IsRetiring = record {
        orderly =
            claimed-IsOrderly Accounted k owner p.present_sources p r.orderly r.orderly.accounted;
        same_sources = r.same_sources;
      }

      job : Provider → Job
      job provider = sync_members provider (tombstone_request rule m) (some m)

      with_tombstone :
          (provider : Provider)
          → provider.name ≡ rule.target_provider
          → has k p.target_owners ≡ false
          → IsRetiring present (with_job (job provider) claimed)
      with_tombstone provider named free = record {
        orderly =
            job-IsOrderly Accounted (job provider) k owner p.present_sources p r.orderly
              (ap (λ n. pair_key n m.target_group_path) named) free r.orderly.accounted
              (
                subst (λ s. has (pair_key m.rule m.source_group_id) s ≡ false) (sym r.same_sources)
                    absent,
                refl,
                refl,
              );
        same_sources = r.same_sources;
      }

      by_provider :
          (o : Option Provider)
          → get rule.target_provider registry ≡ o
          → IsRetiring present (tombstone_at rule m o p)
      by_provider none e = r
      by_provider (some provider) e =
          if_cases (IsRetiring present) (has k p.target_owners) _ _
            (λ _. refused-IsRetiring tombstone_collision p r)
            λ free.
              if_cases (IsRetiring present) provider.syncs_groups _ _
                (λ _. with_tombstone provider (get-new_registry providers _ provider e) free)
                (λ _. refused-IsRetiring no_group_sync claimed claimed-IsRetiring)

  retire_rules-IsRetiring :
      (rules : List Rule) (m : GroupMapping) (p : Plan)
      → has (pair_key m.rule m.source_group_id) present ≡ false
      → IsRetiring present p
      → IsRetiring present (retire_rules registry rules m p)
  unfolding retire_rules
  retire_rules-IsRetiring [] m p absent r = r
  retire_rules-IsRetiring (rule ∷ rules) m p absent r = retire_rules-IsRetiring rules m _ absent (
      if_cases (IsRetiring present) (retires rule m) _ _
        (λ _. tombstone_at-IsRetiring rule m p absent r) (λ _. r))

  retire_all-IsRetiring :
      (rules : List Rule) (ms : List GroupMapping) (p : Plan)
      → IsRetiring present p
      → IsRetiring present (retire_all registry rules ms p)
  unfolding retire_all
  retire_all-IsRetiring rules [] p r = r
  retire_all-IsRetiring rules (m ∷ ms) p r = retire_all-IsRetiring rules ms _ (
      if_cases (IsRetiring present) (has (pair_key m.rule m.source_group_id) p.present_sources) _ _
        (λ _. r)
        λ absent.
          retire_rules-IsRetiring rules m p
            (subst (λ s. has (pair_key m.rule m.source_group_id) s ≡ false) r.same_sources absent)
            r)

module _ (to_lower : Str → Str) (providers : List Provider) (mappings : List GroupMapping) where
  build_plan-IsOrderly :
      (complete memberships_only : Bool) (rules : List Rule) (groups : List Group)
      → IsOrderly Accounted (
          build_plan to_lower
            (new_registry providers)
            mappings
            complete
            memberships_only
            rules
            groups)
  unfolding build_plan
  build_plan-IsOrderly complete memberships_only rules groups =
      let p =
        plan_groups to_lower (new_registry providers) mappings complete memberships_only rules
          groups no_plan in
      let live : IsOrderly Live p =
        plan_groups-IsOrderly to_lower providers mappings complete memberships_only rules groups
          no_plan (record { claimed = tt; apart = tt; accounted = tt }) in
      let start : IsOrderly Accounted p = record {
        claimed = live.claimed;
        apart = live.apart;
        accounted = All-weaken _ _ (Accounted-Live p.present_sources) p.jobs live.accounted;
      } in
      if_cases (IsOrderly Accounted) complete _ p
        (λ _.
          (retire_all-IsRetiring providers p.present_sources rules mappings p
            (record { orderly = start; same_sources = refl })).orderly)
        (λ _. start)

  -- Whatever the rules, the groups and the mappings on record are, no two jobs of the plan have one
  -- target at one provider.
  pub build_plan-Apart :
      (complete memberships_only : Bool) (rules : List Rule) (groups : List Group)
      → Apart
          (build_plan to_lower
            (new_registry providers)
            mappings
            complete
            memberships_only
            rules
            groups).jobs
  build_plan-Apart complete memberships_only rules groups =
      (build_plan-IsOrderly complete memberships_only rules groups).apart

  -- Each job that is no tombstone has its source among those that are present, and each tombstone is
  -- one of a mapping whose source is not, has the mapping's target and does not create a group. So no
  -- rule retires a source for which it has a job.
  pub build_plan-Accounted :
      (complete memberships_only : Bool) (rules : List Rule) (groups : List Group)
      → All
          (Accounted
            (build_plan to_lower
              (new_registry providers)
              mappings
              complete
              memberships_only
              rules
              groups).present_sources)
          (build_plan to_lower
            (new_registry providers)
            mappings
            complete
            memberships_only
            rules
            groups).jobs
  build_plan-Accounted complete memberships_only rules groups =
      (build_plan-IsOrderly complete memberships_only rules groups).accounted
