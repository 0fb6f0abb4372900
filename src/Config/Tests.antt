-- ===== src/Config/Tests.antt =====
-- Witnesses and runs: a configuration with both kinds of targets.
use group_bridge.Base.{
  number_eq, str_eq, same, has_prefix, ◌≡◌, refl, true, false, Option, none, some, [], ◌∷◌, Str,
  bytes, pos, negsuc,
}
use group_bridge.Reconcile.Paths.{
  ascii_lower, split, join, replace_unsafe, slug, trim_left, trim_right,
}
use group_bridge.Reconcile.Rules.{Rule}
use group_bridge.Config.Types.{
  Target, Config, default_source, default_server, default_state_path, negative_removals,
  colliding_paths,
}
use group_bridge.Config.Checks.{
  Url, validate_credential_reference, validate_base_url, safe_vault_path, ends_in_slash,
  safe_segments, all_mount, declared_target_path, slug_segments,
}
use group_bridge.Base.Map.{has, insert, lookup}
use group_bridge.Webhook.Signature.{trim_prefix}
use group_bridge.Config.Targets.{check_targets, target_errors}
use group_bridge.Config.Rules.{check_rules, rule_errors, declared_errors, match_errors, path_errors}
use native.Mathlib.Decide.{ℕ_discrete}
use group_bridge.Config.Validate.{validate}
use group_bridge.Config.Valid.{IsValid, validate-IsValid}

abbrev parsed : Str → Option Url
parsed raw = some (record {
  scheme = bytes "https";
  host = bytes "host";
  has_user = false;
  raw_query = [];
  fragment = [];
})

abbrev gitlab_target : Target
gitlab_target = record {
  name = bytes "gl";
  kind = bytes "gitlab";
  base_url = bytes "https://gl";
  allow_insecure_http = false;
  token_env = bytes "TOKEN";
  token_file = [];
  resolver_token_env = [];
  resolver_token_file = [];
  oidc_provider = [];
  oidc_mount = [];
  kv_mount = [];
  kubernetes_auth = record { mount = []; role = []; token_file = [] };
}

abbrev vault_target : Target
vault_target = record {
  name = bytes "v";
  kind = bytes "vault";
  base_url = bytes "https://v";
  allow_insecure_http = false;
  token_env = [];
  token_file = [];
  resolver_token_env = [];
  resolver_token_file = [];
  oidc_provider = [];
  oidc_mount = bytes "oidc";
  kv_mount = bytes "kv";
  kubernetes_auth = record { mount = bytes "k8s"; role = bytes "bridge"; token_file = bytes "/t" };
}

abbrev gitlab_rule : Rule
gitlab_rule = record {
  name = bytes "teams";
  source_group_prefix = bytes "/t";
  source_group_paths = some (bytes "/t/A" ∷ bytes "/t/b" ∷ []);
  target_provider = bytes "gl";
  target_parent = bytes "p";
  create_groups = true;
  adopt_existing_group = false;
  access_level = bytes "developer";
  prune = bytes "managed-only";
  protected_users = [];
  max_removals = 5;
  identity_match = bytes "email" ∷ [];
  enforce_access_level = false;
  vault = none;
}

abbrev vault_rule : Rule
vault_rule = record {
  name = bytes "orgs";
  source_group_prefix = bytes "/";
  source_group_paths = none;
  target_provider = bytes "v";
  target_parent = [];
  create_groups = false;
  adopt_existing_group = false;
  access_level = [];
  prune = bytes "none";
  protected_users = [];
  max_removals = 0;
  identity_match = [];
  enforce_access_level = false;
  vault = some (record {
    path_prefix = bytes "orgs";
    access_profile = bytes "viewer";
    policy_mode = [];
    discoverable = true;
  });
}

abbrev sample : Config
sample = record {
  server = default_server;
  webhook = record { secret_env = bytes "S"; secret_file = []; max_skew = pos 1 };
  source = record default_source {
    base_url = bytes "https://kc";
    realm = bytes "r";
    client_id = bytes "c";
    client_secret_env = bytes "C";
  };
  targets = gitlab_target ∷ vault_target ∷ [];
  rules =
      record { rule = gitlab_rule; removals = pos 5 }
      ∷ record { rule = vault_rule; removals = pos 0 }
      ∷ [];
  state_path = default_state_path;
}

sample_passes : validate parsed ascii_lower sample ≡ []
unfolding validate ascii_lower bytes number_eq validate_credential_reference str_eq
    validate_base_url check_targets target_errors has has_prefix safe_vault_path ends_in_slash
    safe_segments split all_mount insert check_rules rule_errors lookup same declared_target_path
    slug_segments declared_errors match_errors path_errors join replace_unsafe slug trim_left
    trim_right trim_prefix ℕ_discrete
sample_passes = refl

-- Two sources that differ in their case have one target.
colliding :
    validate parsed ascii_lower (record sample {
      rules =
          record {
            rule = record gitlab_rule {
              source_group_paths = some (bytes "/t/A" ∷ bytes "/t/a" ∷ []);
            };
            removals = negsuc 0;
          }
          ∷ [];
    })
    ≡ negative_removals ∷ colliding_paths ∷ []
unfolding validate ascii_lower bytes number_eq validate_credential_reference str_eq
    validate_base_url check_targets target_errors has has_prefix safe_vault_path ends_in_slash
    safe_segments split all_mount insert check_rules rule_errors lookup same declared_target_path
    slug_segments declared_errors match_errors path_errors join replace_unsafe slug trim_left
    trim_right trim_prefix ℕ_discrete
colliding = refl

nothing_lowered : ascii_lower [] ≡ []
unfolding ascii_lower
nothing_lowered = refl

validate-IsValid_example : IsValid ascii_lower nothing_lowered parsed sample
validate-IsValid_example = validate-IsValid ascii_lower nothing_lowered parsed sample sample_passes
