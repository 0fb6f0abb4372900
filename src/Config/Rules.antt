-- ===== src/Config/Rules.antt =====
-- internal/config/config.go: the validation of the rules.
use group_bridge.Base.{
  Bool, true, false, not, ◌&&◌, ◌||◌, Option, none, some, List, [], ◌∷◌, ◌++◌, ◌==◌, if◌then◌else◌,
  Str, str_eq, bytes, is_empty, has_prefix, contains, length, ltb, ℤ, pos, negsuc, number_eq,
}
use group_bridge.Base.Map.{Map, lookup}
use group_bridge.Base.Exec.{Result, ok, err}
use group_bridge.Reconcile.Paths.{trim, is_slash}
use group_bridge.Reconcile.Rules.{Rule, VaultRule}
use group_bridge.Config.Types.{Target, DecodedRule, ConfigError}
use group_bridge.Config.Checks.{unless, when, safe_vault_path, source_prefix, declared_target_path}

abbrev pub paths_of : Rule → List Str
paths_of rule = elim rule.source_group_paths [ none ↦ [] | some paths ↦ paths ]

-- A canonical path below the prefix of the rule.
abbrev pub is_descendant : (Str → Str) → Rule → Str → Bool
is_descendant to_lower rule path =
    let prefix = source_prefix to_lower rule in
    not (is_empty path)
    && path == 47 ∷ trim is_slash path
    && (prefix == 47 ∷ [] || has_prefix path (prefix ++ (47 ∷ [])))
    && not (prefix == 47 ∷ [] && path == 47 ∷ [])

unfoldable pub path_errors : (Str → Str) → Rule → List Str → List Str → List ConfigError
path_errors to_lower rule seen [] = []
path_errors to_lower rule seen (p ∷ ps) =
    unless (is_descendant to_lower rule p) ConfigError.bad_source_path
    ++ (when (contains seen p) ConfigError.duplicate_source_path
        ++ path_errors to_lower rule (p ∷ seen) ps)

-- A path that cannot be mapped is left out of the targets.
abbrev pub mapped_onto :
    (List Str → List ConfigError) → List Str → Result ConfigError Str → List ConfigError
mapped_onto next seen (err e) = e ∷ next seen
mapped_onto next seen (ok target) =
    when (contains seen target) ConfigError.colliding_paths ++ next (target ∷ seen)

unfoldable pub declared_errors : (Str → Str) → Str → Rule → List Str → List Str → List ConfigError
declared_errors to_lower kind rule seen [] = []
declared_errors to_lower kind rule seen (p ∷ ps) =
    mapped_onto (λ seen. declared_errors to_lower kind rule seen ps) seen
      (declared_target_path to_lower kind rule p)

-- accessLevels
abbrev pub access_levels : List Str
access_levels =
    bytes "guest" ∷ bytes "planner" ∷ bytes "reporter" ∷ bytes "developer" ∷ bytes "maintainer" ∷ []

abbrev pub identity_matches : List Str
identity_matches = bytes "oidc" ∷ bytes "oidc-username" ∷ bytes "username" ∷ bytes "email" ∷ []

abbrev pub prune_modes : List Str
prune_modes = bytes "none" ∷ bytes "managed-only" ∷ bytes "authoritative" ∷ []

-- The target has what the matching by OIDC needs.
abbrev pub lacks_oidc : Target → Bool
lacks_oidc t =
    is_empty t.oidc_provider || (is_empty t.resolver_token_env && is_empty t.resolver_token_file)

unfoldable pub match_errors : Target → List Str → List ConfigError
match_errors t [] = []
match_errors t (m ∷ ms) =
    unless (contains identity_matches m) ConfigError.bad_identity_match
    ++ (when ((m == bytes "oidc" || m == bytes "oidc-username") && lacks_oidc t) ConfigError.no_oidc
        ++ match_errors t ms)

abbrev pub gitlab_rule_errors : Target → Rule → List ConfigError
gitlab_rule_errors t r =
    elim r.vault [ none ↦ [] | some v ↦ ConfigError.vault_section ∷ [] ]
    ++ (unless (contains access_levels r.access_level) ConfigError.bad_access_level
        ++ (when (length r.identity_match == 0) ConfigError.no_identity_match
            ++ (match_errors t r.identity_match
                ++ when
                    (ltb 1 (length r.identity_match)
                      && contains r.identity_match (bytes "oidc-username"))
                    ConfigError.mixed_matches)))

abbrev pub section_errors : Option VaultRule → List ConfigError
section_errors none = ConfigError.unsafe_prefix ∷ []
section_errors (some v) =
    (if safe_vault_path v.path_prefix
      then unless (v.access_profile == bytes "viewer" || v.access_profile == bytes "editor")
          ConfigError.bad_profile
      else ConfigError.unsafe_prefix ∷ [])
    ++ unless (is_empty v.policy_mode || v.policy_mode == bytes "verify-only")
        ConfigError.bad_policy_mode

abbrev pub is_zero : ℤ → Bool
is_zero (pos n) = n == 0
is_zero (negsuc n) = false

abbrev pub is_negative : ℤ → Bool
is_negative (pos n) = false
is_negative (negsuc n) = true

abbrev pub vault_rule_errors : DecodedRule → List ConfigError
vault_rule_errors d =
    let r = d.rule in
    section_errors r.vault
    ++ (unless (r.prune == bytes "none") ConfigError.vault_prune
        ++ unless
            (is_empty r.target_parent
              && is_empty r.access_level
              && length r.identity_match == 0
              && length r.protected_users == 0
              && is_zero d.removals
              && not r.enforce_access_level
              && not r.create_groups
              && not r.adopt_existing_group)
            ConfigError.gitlab_rule_fields)

-- What the kind of a rule's target asks of the rule.
abbrev pub rule_kind_errors : Target → DecodedRule → List ConfigError
rule_kind_errors t d =
    if t.kind == bytes "gitlab"
    then gitlab_rule_errors t d.rule
    else if t.kind == bytes "vault"
    then vault_rule_errors d
    else []

abbrev pub at_target : (Str → Str) → Option Target → DecodedRule → List ConfigError
at_target to_lower none d = []
at_target to_lower (some t) d =
    declared_errors to_lower t.kind d.rule [] (paths_of d.rule) ++ rule_kind_errors t d

abbrev pub is_unknown : Option Target → Bool
is_unknown none = true
is_unknown (some t) = false

unfoldable pub rule_errors :
    (Str → Str) → Map Str Target → List Str → DecodedRule → List ConfigError
rule_errors to_lower targets names d =
    let r = d.rule in
    let target = lookup r.target_provider targets in
    when
      (is_empty r.name
        || not (has_prefix r.source_group_prefix (bytes "/"))
        || is_empty r.target_provider)
      ConfigError.incomplete_rule
    ++ (when (contains names r.name) ConfigError.duplicate_rule
        ++ (path_errors to_lower r [] (paths_of r)
            ++ (when (is_unknown target) ConfigError.unknown_target
                ++ (unless (contains prune_modes r.prune) ConfigError.bad_prune
                    ++ (when (is_negative d.removals) ConfigError.negative_removals
                        ++ at_target to_lower target d)))))

unfoldable pub check_rules :
    (Str → Str) → Map Str Target → List Str → List DecodedRule → List ConfigError
check_rules to_lower targets names [] = []
check_rules to_lower targets names (d ∷ ds) =
    rule_errors to_lower targets names d ++ check_rules to_lower targets (d.rule.name ∷ names) ds
