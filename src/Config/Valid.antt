-- ===== src/Config/Valid.antt =====
-- What a configuration without errors has: the other parts rely on it.
use group_bridge.Base.{
  ◌<◌, ◌≡◌, refl, sym, ◌∙◌, subst, true, false, not, ◌||◌, ◌⊎◌, inl, inr, Option, none, some, List,
  [], ◌∷◌, ◌==◌, if_cases, if_true, if_false, number_eq, Str, str_eq, same, bytes, is_empty,
  has_prefix, contains, length, All, arith,
}
use group_bridge.Base.Map.{Map, lookup, has, insert, lookup-insert}
use group_bridge.Config.Types.{Target, DecodedRule, Config, ConfigError}
use group_bridge.Config.Checks.{validate_base_url, Url, unless, when}
use group_bridge.Config.Targets.{kind_errors, target_errors, check_targets}
use group_bridge.Config.Rules.{
  paths_of, path_errors, declared_errors, prune_modes, is_negative, at_target, is_unknown,
  rule_errors, check_rules,
}
use group_bridge.Config.Validate.{server_errors, webhook_errors, source_errors, validate}
use group_bridge.Config.Ready.{
  none_of, passes, refrains, one_of, Fresh, IsGitlabRule, IsVaultRule,
  gitlab_rule_errors-IsGitlabRule, vault_rule_errors-IsVaultRule,
}

module _ (to_lower : Str → Str) (lower_nothing : to_lower [] ≡ []) where
  -- A target of a kind that is compiled in.
  abbrev pub IsKnown : Target → Type 0
  IsKnown t = (t.kind ≡ bytes "gitlab") ⊎ (t.kind ≡ bytes "vault")

  -- What the reconciler and the clients need of a rule.
  abbrev pub IsUsable : Map Str Target → DecodedRule → Type 0
  IsUsable targets d =
      (t : Target) × (lookup d.rule.target_provider targets ≡ some t)
      × (((t.kind ≡ bytes "gitlab") × IsGitlabRule to_lower d.rule)
          ⊎ ((t.kind ≡ bytes "vault") × IsVaultRule d))

  known_target : (o : Option Target) → is_unknown o ≡ false → (t : Target) × (o ≡ some t)
  known_target none h = absurd (ground (arith, h))
  known_target (some t) h = (t, refl)

  not_gitlab : (bytes "vault" == bytes "gitlab") ≡ false
  unfolding bytes str_eq same number_eq
  not_gitlab = refl

  at_target-IsUsable :
      (t : Target) (d : DecodedRule)
      → IsKnown t
      → path_errors to_lower d.rule [] (paths_of d.rule) ≡ []
      → at_target to_lower (some t) d ≡ []
      → ((t.kind ≡ bytes "gitlab") × IsGitlabRule to_lower d.rule)
        ⊎ ((t.kind ≡ bytes "vault") × IsVaultRule d)
  at_target-IsUsable t d (inl k) p h =
      let a = none_of (declared_errors to_lower t.kind d.rule [] (paths_of d.rule)) _ h in
      let y : (t.kind == bytes "gitlab") ≡ true = ground (arith, k) in
      inl (
        k,
        gitlab_rule_errors-IsGitlabRule to_lower lower_nothing t d.rule p
            (subst (λ s. declared_errors to_lower s d.rule [] (paths_of d.rule) ≡ []) k a.0)
            (sym (if_true (t.kind == bytes "gitlab") _ _ y) ∙ a.1),
      )
  at_target-IsUsable t d (inr k) p h =
      let a = none_of (declared_errors to_lower t.kind d.rule [] (paths_of d.rule)) _ h in
      let n : (t.kind == bytes "gitlab") ≡ false =
        subst (λ s. (s == bytes "gitlab") ≡ false) (sym k) not_gitlab in
      let y : (t.kind == bytes "vault") ≡ true = ground (arith, k) in
      inr (
        k,
        vault_rule_errors-IsVaultRule to_lower lower_nothing d (
            sym
              (if_false (t.kind == bytes "gitlab") _ _ n ∙ if_true (t.kind == bytes "vault") _ _ y)
            ∙ a.1),
      )

  rule_errors-IsUsable :
      (targets : Map Str Target) (names : List Str) (d : DecodedRule)
      → ((k : Str) (t : Target) → lookup k targets ≡ some t → IsKnown t)
      → rule_errors to_lower targets names d ≡ []
      → (contains names d.rule.name ≡ false) × IsUsable targets d
  unfolding rule_errors
  rule_errors-IsUsable targets names d known h =
      let r = d.rule in
      let target = lookup r.target_provider targets in
      let a =
        none_of
          (when
            (is_empty r.name
              || not (has_prefix r.source_group_prefix (bytes "/"))
              || is_empty r.target_provider)
            ConfigError.incomplete_rule)
          _ h in
      let b = none_of (when (contains names r.name) ConfigError.duplicate_rule) _ a.1 in
      let c = none_of (path_errors to_lower r [] (paths_of r)) _ b.1 in
      let e = none_of (when (is_unknown target) ConfigError.unknown_target) _ c.1 in
      let f = none_of (unless (contains prune_modes r.prune) ConfigError.bad_prune) _ e.1 in
      let g = none_of (when (is_negative d.removals) ConfigError.negative_removals) _ f.1 in
      let t = known_target target (refrains (is_unknown target) ConfigError.unknown_target e.0) in
      (
        refrains (contains names r.name) ConfigError.duplicate_rule b.0,
        (
          t.0,
          t.1,
          at_target-IsUsable t.0 d (known r.target_provider t.0 t.1) c.0
              (subst (λ o. at_target to_lower o d ≡ []) t.1 g.1),
        ),
      )

  abbrev pub rule_names : List DecodedRule → List Str
  rule_names [] = []
  rule_names (d ∷ ds) = d.rule.name ∷ rule_names ds

  check_rules-IsUsable :
      (targets : Map Str Target) (names : List Str) (ds : List DecodedRule)
      → ((k : Str) (t : Target) → lookup k targets ≡ some t → IsKnown t)
      → check_rules to_lower targets names ds ≡ []
      → Fresh names (rule_names ds) × All (IsUsable targets) ds
  unfolding check_rules
  check_rules-IsUsable targets names [] known h = (tt, tt)
  check_rules-IsUsable targets names (d ∷ ds) known h =
      let a = none_of (rule_errors to_lower targets names d) _ h in
      let now = rule_errors-IsUsable targets names d known a.0 in
      let later = check_rules-IsUsable targets (d.rule.name ∷ names) ds known a.1 in
      ((now.0, later.0), (now.1, later.1))

  module _ (parse_url : Str → Option Url) where
    abbrev pub target_names : List Target → List Str
    target_names [] = []
    target_names (t ∷ ts) = t.name ∷ target_names ts

    -- No target has the name of one before it.
    abbrev pub Apart : Map Str Target → List Target → Type 0
    Apart before [] = Unit
    Apart before (t ∷ ts) = (has t.name before ≡ false) × Apart (insert t.name t before) ts

    target_errors-IsKnown :
        (before : Map Str Target) (t : Target)
        → target_errors parse_url before t ≡ []
        → (has t.name before ≡ false) × IsKnown t
    unfolding target_errors
    target_errors-IsKnown before t h =
        let a =
          none_of
            (when (is_empty t.name || is_empty t.kind || is_empty t.base_url)
              ConfigError.incomplete_target)
            _ h in
        let kind = t.kind == bytes "gitlab" || t.kind == bytes "vault" in
        let b = none_of (unless kind ConfigError.unknown_kind) _ a.1 in
        let c = none_of (kind_errors t) _ b.1 in
        let e = none_of (validate_base_url parse_url t.base_url t.allow_insecure_http) _ c.1 in
        (
          refrains (has t.name before) ConfigError.duplicate_target e.1,
          one_of t.kind (bytes "gitlab") (bytes "vault") (passes kind ConfigError.unknown_kind b.0),
        )

    inserted-IsKnown :
        (before : Map Str Target) (t : Target)
        → IsKnown t
        → ((k : Str) (t : Target) → lookup k before ≡ some t → IsKnown t)
        → (k : Str) (u : Target) → lookup k (insert t.name t before) ≡ some u
        → IsKnown u
    inserted-IsKnown before t new known k u e =
        if_cases (λ (o : Option Target). o ≡ some u → IsKnown u) (k == t.name) (some t)
          (lookup k before)
          (λ y f.
            subst (λ (o : Option Target). elim o [ none ↦ Unit {0} | some v ↦ IsKnown v ]) f new)
          (λ n f. known k u f) (sym (lookup-insert k t.name t before) ∙ e)

    check_targets-IsKnown :
        (before : Map Str Target) (ts : List Target)
        → ((k : Str) (t : Target) → lookup k before ≡ some t → IsKnown t)
        → (check_targets parse_url ts before).0 ≡ []
        → Apart before ts
          × ((k : Str) (t : Target)
              → lookup k (check_targets parse_url ts before).1 ≡ some t
              → IsKnown t)
    unfolding check_targets
    check_targets-IsKnown before [] known h = (tt, known)
    check_targets-IsKnown before (t ∷ ts) known h =
        let a = none_of (target_errors parse_url before t) _ h in
        let now = target_errors-IsKnown before t a.0 in
        let later =
          check_targets-IsKnown (insert t.name t before) ts (inserted-IsKnown before t now.1 known)
            a.1 in
        ((now.0, later.0), later.1)

    nowhere : (k : Str) (t : Target) → lookup k [] ≡ some t → ⊥
    unfolding lookup
    nowhere k t e = ground (arith, e)

    -- What a configuration without errors has.
    abbrev pub IsValid : Config → Type 0
    IsValid c =
        (0 < length c.targets)
        × (0 < length c.rules)
        × Apart [] c.targets
        × Fresh [] (rule_names c.rules)
        × All (IsUsable (check_targets parse_url c.targets []).1) c.rules

    -- Where ToLower leaves the empty string as it is, a configuration without errors has targets of
    -- different names and rules of different names; each rule has its target and fits it. A rule for
    -- GitLab has a level that GitLab's client knows and one strategy only if it is oidc-username, and
    -- the reconciler maps its listed sources to different targets. A rule for Vault asks for a check
    -- alone and removes nobody.
    pub validate-IsValid : (c : Config) → validate parse_url to_lower c ≡ [] → IsValid c
    unfolding validate
    validate-IsValid c h =
        let a = none_of (server_errors c.server) _ h in
        let b = none_of (webhook_errors c.webhook) _ a.1 in
        let e = none_of (source_errors parse_url to_lower c.source) _ b.1 in
        let f = none_of (check_targets parse_url c.targets []).0 _ e.1 in
        let g = none_of (when (length c.targets == 0) ConfigError.no_targets) _ f.1 in
        let i =
          none_of (check_rules to_lower (check_targets parse_url c.targets []).1 [] c.rules) _
            g.1 in
        let j = none_of (when (length c.rules == 0) ConfigError.no_rules) _ i.1 in
        let targets = check_targets-IsKnown [] c.targets (λ k t e. absurd (nowhere k t e)) f.0 in
        let rules =
          check_rules-IsUsable (check_targets parse_url c.targets []).1 [] c.rules targets.1 i.0 in
        let some_target = refrains (length c.targets == 0) ConfigError.no_targets g.0 in
        let some_rule = refrains (length c.rules == 0) ConfigError.no_rules j.0 in
        (ground (arith, some_target), ground (arith, some_rule), targets.0, rules.0, rules.1)
