-- ===== src/Config/Targets.antt =====
-- internal/config/config.go: the validation of the targets.
use group_bridge.Base.{
  Bool, true, false, not, ◌&&◌, ◌||◌, Option, List, [], ◌∷◌, ◌++◌, ◌==◌, if◌then◌else◌, Str, str_eq,
  bytes, is_empty, has_prefix,
}
use group_bridge.Base.Map.{Map, has, insert}
use group_bridge.Config.Types.{Target, KubernetesAuth, ConfigError}
use group_bridge.Config.Checks.{
  Url, unless, when, validate_credential_reference, validate_base_url, safe_vault_path,
}

abbrev pub is_unset : KubernetesAuth → Bool
is_unset k = is_empty k.mount && is_empty k.role && is_empty k.token_file

abbrev pub gitlab_target_errors : Target → List ConfigError
gitlab_target_errors t =
    validate_credential_reference t.token_env t.token_file true
    ++ (validate_credential_reference t.resolver_token_env t.resolver_token_file false
        ++ unless (is_empty t.oidc_mount && is_empty t.kv_mount && is_unset t.kubernetes_auth)
            ConfigError.vault_fields)

abbrev pub vault_target_errors : Target → List ConfigError
vault_target_errors t =
    unless
      (is_empty t.token_env
        && is_empty t.token_file
        && is_empty t.resolver_token_env
        && is_empty t.resolver_token_file)
      ConfigError.vault_tokens
    ++ (unless
          (safe_vault_path t.oidc_mount
            && safe_vault_path t.kv_mount
            && safe_vault_path t.kubernetes_auth.mount)
          ConfigError.unsafe_mount
        ++ (unless
              (not (is_empty t.kubernetes_auth.role)
                && has_prefix t.kubernetes_auth.token_file (bytes "/"))
              ConfigError.bad_kubernetes_auth
            ++ unless (is_empty t.oidc_provider) ConfigError.gitlab_fields))

abbrev pub kind_errors : Target → List ConfigError
kind_errors t =
    if t.kind == bytes "gitlab"
    then gitlab_target_errors t
    else if t.kind == bytes "vault"
    then vault_target_errors t
    else []

module _ (parse_url : Str → Option Url) where
  -- The errors of a target, and of its name among those before.
  unfoldable pub target_errors : Map Str Target → Target → List ConfigError
  target_errors before t =
      when (is_empty t.name || is_empty t.kind || is_empty t.base_url) ConfigError.incomplete_target
      ++ (unless (t.kind == bytes "gitlab" || t.kind == bytes "vault") ConfigError.unknown_kind
          ++ (kind_errors t
              ++ (validate_base_url parse_url t.base_url t.allow_insecure_http
                  ++ when (has t.name before) ConfigError.duplicate_target)))

  -- The targets by their names, with the errors.
  unfoldable pub check_targets : List Target → Map Str Target → List ConfigError × Map Str Target
  check_targets [] before = ([], before)
  check_targets (t ∷ ts) before =
      let (later, all) = check_targets ts (insert t.name t before) in
      (target_errors before t ++ later, all)
