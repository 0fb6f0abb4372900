-- ===== src/Config/Ready.antt =====
-- What a rule without errors has, by the kind of its target.
use group_bridge.Base.{
  ◌<◌, ◌≡◌, refl, Bool, true, false, ◌&&◌, ◌||◌, ◌⊎◌, inl, inr, Bool-cases, Option, none, some,
  List, [], ◌∷◌, ◌++◌, ◌==◌, if◌then◌else◌, number_eq, Str, str_eq, bytes, is_empty, contains,
  length, ltb, arith,
}
use group_bridge.Base.Exec.{Result, ok, err}
use group_bridge.Reconcile.Paths.{relative_group_path, target_group_path}
use group_bridge.Reconcile.Rules.{Rule, VaultRule, vault_policy_mode}
use group_bridge.Gitlab.Terms.{access_level_of}
use group_bridge.Config.Types.{Target, DecodedRule, ConfigError}
use group_bridge.Config.Checks.{unless, when, safe_vault_path, declared_target_path}
use group_bridge.Config.Rules.{
  paths_of, is_descendant, path_errors, mapped_onto, declared_errors, access_levels, match_errors,
  gitlab_rule_errors, section_errors, is_zero, vault_rule_errors,
}
use group_bridge.Config.Mapped.{declared_target_path-target_group_path}

-- No errors in two lists.
pub none_of : {A : Type 0} (xs ys : List A) → xs ++ ys ≡ [] → (xs ≡ []) × (ys ≡ [])
none_of [] ys h = (refl, h)
none_of (x ∷ xs) ys h = absurd (ground (arith, h))

pub passes : (t : Bool) (e : ConfigError) → unless t e ≡ [] → t ≡ true
passes true e h = refl
passes false e h = absurd (ground (arith, h))

pub refrains : (t : Bool) (e : ConfigError) → when t e ≡ [] → t ≡ false
refrains true e h = absurd (ground (arith, h))
refrains false e h = refl

both_pass :
    (t u : Bool) (e f : ConfigError)
    → (if t then unless u e else f ∷ []) ≡ []
    → (t ≡ true) × (u ≡ true)
both_pass true u e f h = (refl, passes u e h)
both_pass false u e f h = absurd (ground (arith, h))

-- Names of which no two are the same, and none is among those before.
abbrev pub Fresh : List Str → List Str → Type 0
Fresh before [] = Unit
Fresh before (n ∷ ns) = (contains before n ≡ false) × Fresh (n ∷ before) ns

-- Each source has a target at the reconciler, and no two have the same.
abbrev pub Placed : (Str → Str) → Rule → List Str → List Str → Type 0
Placed to_lower rule seen [] = Unit
Placed to_lower rule seen (p ∷ ps) =
    (relative : Str) × (target : Str) × (relative_group_path p rule.source_group_prefix
      ≡ some relative)
    × (target_group_path to_lower rule.target_parent relative ≡ ok target)
    × (contains seen target ≡ false)
    × Placed to_lower rule (target ∷ seen) ps

-- A rule for GitLab: its level is one that GitLab's client knows.
abbrev pub IsGitlabRule : (Str → Str) → Rule → Type 0
IsGitlabRule to_lower r =
    (r.vault ≡ none)
    × (0 < access_level_of r.access_level)
    × (0 < length r.identity_match)
    × ((length r.identity_match ≡ 1) ⊎ (contains r.identity_match (bytes "oidc-username") ≡ false))
    × Placed to_lower r [] (paths_of r)

-- A rule for Vault: its mode is the one that Vault's client takes.
abbrev pub IsVaultRule : DecodedRule → Type 0
IsVaultRule d =
    (v : VaultRule) × (d.rule.vault ≡ some v)
    × (safe_vault_path v.path_prefix ≡ true)
    × (vault_policy_mode v ≡ bytes "verify-only")
    × ((v.access_profile ≡ bytes "viewer") ⊎ (v.access_profile ≡ bytes "editor"))
    × (d.rule.prune ≡ bytes "none")
    × (is_zero d.removals ≡ true)

mapped_onto-nothing :
    (next : List Str → List ConfigError) (seen : List Str) (r : Result ConfigError Str)
    → mapped_onto next seen r ≡ []
    → (t : Str) × (r ≡ ok t) × (contains seen t ≡ false) × (next (t ∷ seen) ≡ [])
mapped_onto-nothing next seen (err e) h = absurd (ground (arith, h))
mapped_onto-nothing next seen (ok t) h =
    let q = none_of (when (contains seen t) ConfigError.colliding_paths) (next (t ∷ seen)) h in
    (t, refl, refrains (contains seen t) ConfigError.colliding_paths q.0, q.1)

no_section :
    (o : Option VaultRule)
    → elim o [ none ↦ [] | some v ↦ ConfigError.vault_section ∷ [] ] ≡ []
    → o ≡ none
no_section none h = refl
no_section (some v) h = absurd (ground (arith, h))

-- A section for Vault that has no errors.
abbrev IsSection : VaultRule → Type 0
IsSection v =
    (safe_vault_path v.path_prefix ≡ true)
    × (vault_policy_mode v ≡ bytes "verify-only")
    × ((v.access_profile ≡ bytes "viewer") ⊎ (v.access_profile ≡ bytes "editor"))

pub one_of : (s a b : Str) → (s == a || s == b) ≡ true → (s ≡ a) ⊎ (s ≡ b)
one_of s a b h = elim (Bool-cases (s == a)) [
  | inl y ↦ inl (ground (arith, y))
  | inr n ↦ inr (ground (arith, h, n))
]

section_errors-IsSection :
    (o : Option VaultRule) → section_errors o ≡ [] → (v : VaultRule) × (o ≡ some v) × IsSection v
unfolding vault_policy_mode
section_errors-IsSection none h = absurd (ground (arith, h))
section_errors-IsSection (some v) h =
    let profile = v.access_profile == bytes "viewer" || v.access_profile == bytes "editor" in
    let q =
      none_of
        (if safe_vault_path v.path_prefix
          then unless profile ConfigError.bad_profile
          else ConfigError.unsafe_prefix ∷ [])
        _ h in
    let p =
      both_pass (safe_vault_path v.path_prefix) profile ConfigError.bad_profile
        ConfigError.unsafe_prefix q.0 in
    let mode =
      passes (is_empty v.policy_mode || v.policy_mode == bytes "verify-only")
        ConfigError.bad_policy_mode q.1 in
    (
      v,
      refl,
      (p.0, ground (arith, mode), one_of v.access_profile (bytes "viewer") (bytes "editor") p.1),
    )

module _ (to_lower : Str → Str) (lower_nothing : to_lower [] ≡ []) where
  pub declared_errors-Placed :
      (rule : Rule) (seen listed paths : List Str)
      → path_errors to_lower rule listed paths ≡ []
      → declared_errors to_lower (bytes "gitlab") rule seen paths ≡ []
      → Placed to_lower rule seen paths
  unfolding path_errors declared_errors
  declared_errors-Placed rule seen listed [] h d = tt
  declared_errors-Placed rule seen listed (p ∷ ps) h d =
      let a = none_of (unless (is_descendant to_lower rule p) ConfigError.bad_source_path) _ h in
      let b = none_of (when (contains listed p) ConfigError.duplicate_source_path) _ a.1 in
      let m =
        mapped_onto-nothing (λ seen. declared_errors to_lower (bytes "gitlab") rule seen ps) seen
          (declared_target_path to_lower (bytes "gitlab") rule p) d in
      let placed =
        declared_target_path-target_group_path to_lower lower_nothing rule p m.0
          (passes (is_descendant to_lower rule p) ConfigError.bad_source_path a.0) m.1 in
      (
        placed.0,
        m.0,
        placed.1,
        placed.2,
        m.2,
        declared_errors-Placed rule (m.0 ∷ seen) (p ∷ listed) ps b.1 m.3,
      )

  access_level-known :
      (level : Str) → contains access_levels level ≡ true → 0 < access_level_of level
  unfolding access_level_of
  access_level-known level h = ground (arith, h)

  pub gitlab_rule_errors-IsGitlabRule :
      (t : Target) (r : Rule)
      → path_errors to_lower r [] (paths_of r) ≡ []
      → declared_errors to_lower (bytes "gitlab") r [] (paths_of r) ≡ []
      → gitlab_rule_errors t r ≡ []
      → IsGitlabRule to_lower r
  gitlab_rule_errors-IsGitlabRule t r p d h =
      let a = none_of (elim r.vault [ none ↦ [] | some v ↦ ConfigError.vault_section ∷ [] ]) _ h in
      let b =
        none_of (unless (contains access_levels r.access_level) ConfigError.bad_access_level) _
          a.1 in
      let c = none_of (when (length r.identity_match == 0) ConfigError.no_identity_match) _ b.1 in
      let e = none_of (match_errors t r.identity_match) _ c.1 in
      let filled = refrains (length r.identity_match == 0) ConfigError.no_identity_match c.0 in
      let mixed =
        refrains
          (ltb 1 (length r.identity_match) && contains r.identity_match (bytes "oidc-username"))
          ConfigError.mixed_matches e.1 in
      (
        no_section r.vault a.0,
        access_level-known r.access_level
            (passes (contains access_levels r.access_level) ConfigError.bad_access_level b.0),
        ground (arith, filled),
        elim (Bool-cases (contains r.identity_match (bytes "oidc-username"))) [
          | inl y ↦ inl (ground (arith, filled, mixed, y))
          | inr n ↦ inr n
        ],
        declared_errors-Placed r [] [] (paths_of r) p d,
      )

  pub vault_rule_errors-IsVaultRule : (d : DecodedRule) → vault_rule_errors d ≡ [] → IsVaultRule d
  vault_rule_errors-IsVaultRule d h =
      let a = none_of (section_errors d.rule.vault) _ h in
      let b = none_of (unless (d.rule.prune == bytes "none") ConfigError.vault_prune) _ a.1 in
      let v = section_errors-IsSection d.rule.vault a.0 in
      let prune = passes (d.rule.prune == bytes "none") ConfigError.vault_prune b.0 in
      let alone = passes _ ConfigError.gitlab_rule_fields b.1 in
      (v.0, v.1, v.2.0, v.2.1, v.2.2, ground (arith, prune), ground (arith, alone))
