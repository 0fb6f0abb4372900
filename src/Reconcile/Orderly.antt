-- ===== src/Reconcile/Orderly.antt =====
-- The plan's jobs have their targets to themselves, and a source that is present is not retired.
use group_bridge.Base.{
  ◌≡◌, ◌≢◌, ap, true, false, none, some, List, [], ◌∷◌, ◌++◌, arith, All, All-append, All-weaken,
  Str, str_eq,
}
use group_bridge.Base.Map.{Map, has, insert, has-insert}
use group_bridge.Reconcile.Plan.{
  BuildError, Job, sync_access, sync_members, Plan, with_job, with_error, pair_key,
}

-- The target of a job, with its provider.
abbrev pub job_key : Job → Str
job_key (sync_access provider r) = pair_key provider.name r.secret_path
job_key (sync_members provider r t) = pair_key provider.name r.target_path

abbrev pub Claimed : Map Str Str → Job → Type 0
Claimed owners j = has (job_key j) owners ≡ true

-- No two of the jobs have one target.
abbrev pub Apart : List Job → Type 0
Apart [] = Unit
Apart (j ∷ js) = All (λ k. job_key j ≢ job_key k) js × Apart js

-- The source of a job that is no tombstone is present; a tombstone is one of a mapping whose
-- source is absent, and asks for the target of the mapping, which it does not create.
abbrev pub Accounted : Map Str (Unit {0}) → Job → Type 0
Accounted present (sync_access provider r) = has (pair_key r.rule_name r.state_key) present ≡ true
Accounted present (sync_members provider r none) =
    has (pair_key r.rule_name r.state_key) present ≡ true
Accounted present (sync_members provider r (some m)) =
    (has (pair_key m.rule m.source_group_id) present ≡ false)
    × (r.target_path ≡ m.target_group_path)
    × (r.create_group ≡ false)

-- The same before any mapping is retired.
abbrev pub Live : Map Str (Unit {0}) → Job → Type 0
Live present (sync_access provider r) = has (pair_key r.rule_name r.state_key) present ≡ true
Live present (sync_members provider r none) = has (pair_key r.rule_name r.state_key) present ≡ true
Live present (sync_members provider r (some m)) = ⊥

pub record IsOrderly (A : Map Str (Unit {0}) → Job → Type 0) (p : Plan) : Type 0 where
  pub claimed : All (Claimed p.target_owners) p.jobs
  pub apart : Apart p.jobs
  pub accounted : All (A p.present_sources) p.jobs

Apart-snoc :
    (js : List Job) (j : Job)
    → Apart js
    → All (λ k. job_key k ≢ job_key j) js
    → Apart (js ++ (j ∷ []))
Apart-snoc [] j a h = (tt, tt)
Apart-snoc (k ∷ js) j a h = (All-append _ js (j ∷ []) a.0 (h.0, tt), Apart-snoc js j a.1 h.1)

Claimed-insert :
    (k owner : Str) (owners : Map Str Str) (j : Job)
    → Claimed owners j
    → Claimed (insert k owner owners) j
Claimed-insert k owner owners j h = ground (arith, has-insert (job_key j) k owner owners, h)

pub Live-insert :
    (s : Str) (present : Map Str (Unit {0})) (j : Job)
    → Live present j
    → Live (insert s tt present) j
Live-insert s present (sync_access provider r) h =
    ground (arith, has-insert (pair_key r.rule_name r.state_key) s tt present, h)
Live-insert s present (sync_members provider r none) h =
    ground (arith, has-insert (pair_key r.rule_name r.state_key) s tt present, h)
Live-insert s present (sync_members provider r (some m)) h = absurd h

module _ (A : Map Str (Unit {0}) → Job → Type 0) where
  abbrev Orderly : Plan → Type 0
  Orderly p = IsOrderly A p

  pub error-IsOrderly : (e : BuildError) (p : Plan) → Orderly p → Orderly (with_error e p)
  error-IsOrderly e p o = record { claimed = o.claimed; apart = o.apart; accounted = o.accounted }

  -- A claim, with the sources that are present after it.
  pub claimed-IsOrderly :
      (k owner : Str) (present : Map Str (Unit {0})) (p : Plan)
      → Orderly p
      → All (A present) p.jobs
      → Orderly
          (record p { target_owners = insert k owner p.target_owners; present_sources = present })
  claimed-IsOrderly k owner present p o h = record {
    claimed = All-weaken _ _ (Claimed-insert k owner p.target_owners) p.jobs o.claimed;
    apart = o.apart;
    accounted = h;
  }

  pub job-IsOrderly :
      (j : Job) (k owner : Str) (present : Map Str (Unit {0})) (p : Plan)
      → Orderly p
      → job_key j ≡ k
      → has k p.target_owners ≡ false
      → All (A present) p.jobs
      → A present j
      → Orderly (
          with_job j (record p {
            target_owners = insert k owner p.target_owners;
            present_sources = present;
          }))
  job-IsOrderly j k owner present p o own free h a = record {
    claimed =
        All-append _ p.jobs (j ∷ [])
          (All-weaken _ _ (Claimed-insert k owner p.target_owners) p.jobs o.claimed)
          (ground (arith, has-insert (job_key j) k owner p.target_owners, own), tt);
    apart = Apart-snoc p.jobs j o.apart (
        All-weaken _ _
          (λ i c e. ground (
            arith,
            ap (λ x. has x p.target_owners) e,
            ap (λ x. has x p.target_owners) own,
            free,
            c,
          ))
          p.jobs o.claimed);
    accounted = All-append _ p.jobs (j ∷ []) h (a, tt);
  }
