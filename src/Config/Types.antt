-- ===== src/Config/Types.antt =====
-- internal/config/config.go: the configuration's data, its defaults, and what can be wrong with it.
use group_bridge.Base.{
  ◌*◌, Bool, false, List, [], if◌then◌else◌, Str, bytes, is_empty, ◌&&◌, ℤ, pos,
}
use group_bridge.Base.Clock.{second}
use group_bridge.Reconcile.Rules.{Rule}

-- Durations are in nanoseconds.
pub record Server : Type 0 where
  pub address : Str
  pub shutdown_timeout : ℤ
  pub cert_file : Str
  pub key_file : Str

pub record WebhookSection : Type 0 where
  pub secret_env : Str
  pub secret_file : Str
  pub max_skew : ℤ

pub record Source : Type 0 where
  pub kind : Str
  pub base_url : Str
  pub allow_insecure_http : Bool
  pub realm : Str
  pub client_id : Str
  pub client_secret_env : Str
  pub client_secret_file : Str
  pub poll_interval : ℤ

pub record KubernetesAuth : Type 0 where
  pub mount : Str
  pub role : Str
  pub token_file : Str

pub record Target : Type 0 where
  pub name : Str
  pub kind : Str
  pub base_url : Str
  pub allow_insecure_http : Bool
  pub token_env : Str
  pub token_file : Str
  pub resolver_token_env : Str
  pub resolver_token_file : Str
  pub oidc_provider : Str
  pub oidc_mount : Str
  pub kv_mount : Str
  pub kubernetes_auth : KubernetesAuth

-- A rule with its number of removals as it was decoded, which may be negative. The rule's own
-- number is that one's positive part.
pub record DecodedRule : Type 0 where
  pub rule : Rule
  pub removals : ℤ

pub record Config : Type 0 where
  pub server : Server
  pub webhook : WebhookSection
  pub source : Source
  pub targets : List Target
  pub rules : List DecodedRule
  pub state_path : Str

pub data ConfigError : Type 0 where
  no_address bad_shutdown_timeout lone_tls_file relative_tls_file bad_max_skew : ConfigError
  unknown_source incomplete_source bad_poll_interval bad_url insecure_url : ConfigError
  exclusive_credentials no_credential relative_credential uncleaned_credential : ConfigError
  incomplete_target unknown_kind vault_fields vault_tokens unsafe_mount bad_kubernetes_auth :
      ConfigError
  gitlab_fields duplicate_target no_targets : ConfigError
  incomplete_rule duplicate_rule bad_source_path duplicate_source_path unknown_target : ConfigError
  bad_prune negative_removals unsafe_segment no_safe_characters colliding_paths : ConfigError
  vault_section bad_access_level no_identity_match bad_identity_match no_oidc mixed_matches :
      ConfigError
  unsafe_prefix bad_profile bad_policy_mode vault_prune gitlab_rule_fields no_rules no_state_path :
      ConfigError

-- The values that a document which does not name them has.
abbrev pub default_server : Server
default_server = record {
  address = bytes ":8080";
  shutdown_timeout = pos (10 * second);
  cert_file = [];
  key_file = [];
}

abbrev pub default_webhook : WebhookSection
default_webhook = record { secret_env = []; secret_file = []; max_skew = pos (300 * second) }

abbrev pub default_source : Source
default_source = record {
  kind = bytes "keycloak";
  base_url = [];
  allow_insecure_http = false;
  realm = [];
  client_id = [];
  client_secret_env = [];
  client_secret_file = [];
  poll_interval = pos (300 * second);
}

abbrev pub default_state_path : Str
default_state_path = bytes "/var/lib/groupbridge/state.json"

-- `defaults`
abbrev pub defaults : Config
defaults = record {
  server = default_server;
  webhook = default_webhook;
  source = default_source;
  targets = [];
  rules = [];
  state_path = default_state_path;
}

-- The implicit environment variables of the two secrets.
abbrev pub with_webhook_env : WebhookSection → WebhookSection
with_webhook_env w =
    if is_empty w.secret_env && is_empty w.secret_file
    then record w { secret_env = bytes "GROUPBRIDGE_WEBHOOK_SECRET" }
    else w

abbrev pub with_client_env : Source → Source
with_client_env s =
    if is_empty s.client_secret_env && is_empty s.client_secret_file
    then record s { client_secret_env = bytes "GROUPBRIDGE_KEYCLOAK_CLIENT_SECRET" }
    else s
