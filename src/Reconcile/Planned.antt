-- ===== src/Reconcile/Planned.antt =====
-- The invariant of the plan through the loops that build it.
use group_bridge.Base.{
  All-weaken, ◌≡◌, refl, ap, Bool, true, false, ◌&&◌, Option, none, some, List, [], ◌∷◌, ◌++◌,
  if◌then◌else◌, if_cases, arith, All, Str, str_eq,
}
use group_bridge.Base.Map.{Map, lookup, has, insert, has-insert, lookup-insert}
use group_bridge.Base.Exec.{Result, ok, err}
use group_bridge.Model.{Group}
use group_bridge.State.Ledger.{GroupMapping}
use group_bridge.Reconcile.Paths.{PathError, relative_group_path}
use group_bridge.Reconcile.Rules.{
  VaultRule, Rule, Provider, Registry, register, new_registry, get, source_path_allowed, is_vault,
  source_state_key,
}
use group_bridge.Reconcile.Plan.{
  BuildError, sync_access, sync_members, Plan, with_error, pair_key, collides, group_request,
  access_request, no_group_sync, no_access_sync, unavailable, duplicate_target, bad_path,
  retarget_all, job_for, claim, at_provider, place, mapped, path_in, plan_group, plan_rules,
  plan_groups,
}
use group_bridge.Reconcile.Orderly.{
  Live, IsOrderly, Live-insert, error-IsOrderly, claimed-IsOrderly, job-IsOrderly,
}

-- A registry finds a provider under its own name.
abbrev Named : Registry → Type 0
Named r = (n : Str) (p : Provider) → lookup n r ≡ some p → p.name ≡ n

register-Named : (ps : List Provider) (r : Registry) → Named r → Named (register ps r)
unfolding register
register-Named [] r h = h
register-Named (p ∷ ps) r h = register-Named ps (insert p.name p r) added
  where
    added : Named (insert p.name p r)
    added n q e = ground (arith, lookup-insert n p.name p r, e, h n q)

pub get-new_registry :
    (ps : List Provider) (n : Str) (p : Provider) → get n (new_registry ps) ≡ some p → p.name ≡ n
unfolding get lookup
get-new_registry ps = register-Named ps [] (λ n p e. ground arith)

job_for-IsOrderly :
    (v : Option VaultRule) (rule : Rule) (provider : Provider) (group : Group)
    (source_key target owner : Str) (p : Plan)
    → provider.name ≡ rule.target_provider
    → IsOrderly Live p
    → has (pair_key rule.target_provider target) p.target_owners ≡ false
    → IsOrderly Live (
        job_for v rule provider group source_key target (record p {
          target_owners = insert (pair_key rule.target_provider target) owner p.target_owners;
          present_sources = insert (pair_key rule.name source_key) tt p.present_sources;
        }))
job_for-IsOrderly v rule provider group source_key target owner p named o free = by_vault v
  where
    k : Str
    k = pair_key rule.target_provider target

    present : Map Str (Unit {0})
    present = insert (pair_key rule.name source_key) tt p.present_sources

    claimed : Plan
    claimed = record p { target_owners = insert k owner p.target_owners; present_sources = present }

    kept : All (Live present) p.jobs
    kept =
        All-weaken _ _ (Live-insert (pair_key rule.name source_key) p.present_sources) p.jobs
          o.accounted

    own : pair_key provider.name target ≡ k
    own = ap (λ n. pair_key n target) named

    here : has (pair_key rule.name source_key) present ≡ true
    here = ground (
      arith,
      has-insert (pair_key rule.name source_key) (pair_key rule.name source_key) tt
          p.present_sources,
    )

    refused : (e : BuildError) → IsOrderly Live (with_error e claimed)
    refused e = error-IsOrderly Live e claimed (claimed-IsOrderly Live k owner present p o kept)

    by_vault :
        (v : Option VaultRule)
        → IsOrderly Live (job_for v rule provider group source_key target claimed)
    by_vault none =
        if_cases (IsOrderly Live) provider.syncs_groups _ _
          (λ _.
            job-IsOrderly Live
              (sync_members provider (group_request rule group source_key target) none) k owner
              present p o own free kept here)
          (λ _. refused no_group_sync)
    by_vault (some w) =
        if_cases (IsOrderly Live) provider.syncs_access _ _
          (λ _.
            job-IsOrderly Live
              (sync_access provider (access_request rule w group source_key target)) k owner present
              p o own free kept here)
          (λ _. refused no_access_sync)

retarget_all-IsOrderly :
    (complete : Bool) (rule : Rule) (source_key : Str) (ms : List GroupMapping) (t : Str × Plan)
    → IsOrderly Live t.1
    → IsOrderly Live (retarget_all complete rule source_key ms t).1
unfolding retarget_all
retarget_all-IsOrderly complete rule source_key [] t o = o
retarget_all-IsOrderly complete rule source_key (m ∷ ms) (target, p) o =
    retarget_all-IsOrderly complete rule source_key ms _ (
      if_cases (λ (r : Str × Plan). IsOrderly Live r.1) _ (_, with_error collides p) (_, p)
        (λ _. error-IsOrderly Live collides p o) (λ _. o))

module _ (to_lower : Str → Str) (providers : List Provider) (mappings : List GroupMapping) where
  abbrev registry : Registry
  registry = new_registry providers

  place-IsOrderly :
      (rule : Rule) (group : Group) (source_key : Str) (t : Str × Plan)
      → IsOrderly Live t.1
      → IsOrderly Live (place registry rule group source_key t)
  unfolding place
  place-IsOrderly rule group source_key (target, p) o =
      by_provider (get rule.target_provider registry) refl
    where
      step : Provider → Plan → Plan
      step provider =
          claim (pair_key rule.target_provider target) (rule.name ++ (47 ∷ group.path))
            duplicate_target
            λ q. job_for rule.vault rule provider group source_key target (record q {
              present_sources = insert (pair_key rule.name source_key) tt q.present_sources;
            })

      by_provider :
          (r : Option Provider)
          → get rule.target_provider registry ≡ r
          → IsOrderly Live (at_provider unavailable r step p)
      by_provider none e = error-IsOrderly Live unavailable p o
      by_provider (some provider) e =
          if_cases (IsOrderly Live) (has (pair_key rule.target_provider target) p.target_owners) _ _
            (λ _. error-IsOrderly Live duplicate_target p o)
            (λ free.
              job_for-IsOrderly rule.vault rule provider group source_key target _ p
                (get-new_registry providers _ provider e) o free)

  mapped-IsOrderly :
      (complete : Bool) (rule : Rule) (group : Group) (r : Result PathError Str) (p : Plan)
      → IsOrderly Live p
      → IsOrderly Live (mapped registry complete mappings rule group r p)
  mapped-IsOrderly complete rule group (err e) p o = error-IsOrderly Live (bad_path e) p o
  mapped-IsOrderly complete rule group (ok target) p o =
      place-IsOrderly rule group (source_state_key rule group)
        (retarget_all complete rule (source_state_key rule group) mappings (target, p))
        (retarget_all-IsOrderly complete rule (source_state_key rule group) mappings (target, p) o)

  plan_group-IsOrderly :
      (complete memberships_only : Bool) (rule : Rule) (group : Group) (p : Plan)
      → IsOrderly Live p
      → IsOrderly Live
          (plan_group to_lower registry mappings complete memberships_only rule group p)
  unfolding plan_group
  plan_group-IsOrderly complete memberships_only rule group p o =
      if_cases (IsOrderly Live) (memberships_only && is_vault rule) _ _ (λ _. o)
        (λ _. by_path (relative_group_path group.path rule.source_group_prefix))
    where
      by_path :
          (r : Option Str)
          → IsOrderly Live (elim r [
            | none ↦ p
            | some relative ↦
                if source_path_allowed rule group.path
                then mapped registry complete mappings rule group (path_in to_lower rule relative) p
                else p
          ])
      by_path none = o
      by_path (some relative) =
          if_cases (IsOrderly Live) (source_path_allowed rule group.path) _ _
            (λ _. mapped-IsOrderly complete rule group (path_in to_lower rule relative) p o)
            (λ _. o)

  plan_rules-IsOrderly :
      (complete memberships_only : Bool) (rules : List Rule) (group : Group) (p : Plan)
      → IsOrderly Live p
      → IsOrderly Live
          (plan_rules to_lower registry mappings complete memberships_only rules group p)
  unfolding plan_rules
  plan_rules-IsOrderly complete memberships_only [] group p o = o
  plan_rules-IsOrderly complete memberships_only (rule ∷ rules) group p o =
      plan_rules-IsOrderly complete memberships_only rules group _
        (plan_group-IsOrderly complete memberships_only rule group p o)

  pub plan_groups-IsOrderly :
      (complete memberships_only : Bool) (rules : List Rule) (groups : List Group) (p : Plan)
      → IsOrderly Live p
      → IsOrderly Live
          (plan_groups to_lower registry mappings complete memberships_only rules groups p)
  unfolding plan_groups
  plan_groups-IsOrderly complete memberships_only rules [] p o = o
  plan_groups-IsOrderly complete memberships_only rules (group ∷ groups) p o =
      plan_groups-IsOrderly complete memberships_only rules groups _
        (plan_rules-IsOrderly complete memberships_only rules group p o)
