-- ===== src/Vault/Tests.antt =====
-- Witnesses and runs: a Vault with one organization.
use group_bridge.Base.{
  ℕ, ◌≡◌, refl, inl, true, Option, none, some, [], ◌∷◌, ◌++◌, ◌==◌, if◌then◌else◌, number_eq, Str,
  str_eq, same, bytes, pos, arith,
}
use group_bridge.Base.Outcomes.{Yields, Gives}
use group_bridge.Base.Map.{lookup}
use group_bridge.Model.{AccessSyncRequest}
use group_bridge.Reconcile.Paths.{trim_right, trim_left, split, join}
use group_bridge.Keycloak.Urls.{path_escape}
use group_bridge.Gitlab.Api.{hex_encode, first}
use group_bridge.Credential.Runes.{trim_space, skip_spaces, reversed, is_space}
use group_bridge.Vault.Policy.{policy_for, ancestors, hyphens, managed_name, hash_policy}
use group_bridge.Vault.Api.{
  Options, MountInfo, VaultGroup, VaultAlias, RawReply, answered, Vault, Settings, new, unused,
}
use group_bridge.Vault.Access.{auth_url, expected_metadata, sync_access_group}
use group_bridge.Vault.Provisioned.{View, Shows, IsTruthful, name_of, policy_of, IsProvisioned}
use group_bridge.Vault.Answering.{IsAnswering, Tells}
use group_bridge.Vault.Sound.{Passed, sync_access_group-Passed}
use group_bridge.Vault.Complete.{Converges, sync_access_group-Converges}

abbrev options : Options
options = record {
  kubernetes_auth_mount = bytes "kubernetes";
  kubernetes_role = bytes "bridge";
  service_account_token_file = bytes "/var/run/token";
  oidc_mount = bytes "oidc";
  kv_mount = bytes "kv";
}

abbrev quoted : Str → Str
quoted s = 34 ∷ (s ++ (34 ∷ []))

abbrev digest : Str → Str
digest s = first 4 (s ++ (1 ∷ 2 ∷ 3 ∷ 4 ∷ []))

abbrev settings : Settings
settings = new digest quoted (bytes "vault") (bytes "https://vault/") options

abbrev request : AccessSyncRequest
request = record {
  rule_name = bytes "org";
  state_key = bytes "/orgs/a_team";
  source_group = record {
    id = bytes "g1";
    name = bytes "a_team";
    path = bytes "/orgs/a_team";
    members = [];
  };
  secret_path = bytes "orgs/a_team";
  access_profile = bytes "viewer";
  policy_mode = bytes "verify-only";
  discoverable = true;
}

abbrev login_mount : MountInfo
login_mount = record {
  accessor = bytes "acc";
  path = bytes "oidc/";
  kind = bytes "oidc";
  options = [];
}

abbrev secret_mount : MountInfo
secret_mount = record {
  accessor = bytes "kv1";
  path = bytes "kv/";
  kind = bytes "kv";
  options = (bytes "version", bytes "2") ∷ [];
}

abbrev owned : VaultGroup
owned = record {
  id = bytes "vg";
  name = name_of settings request;
  kind = bytes "external";
  policies = name_of settings request ∷ [];
  metadata = expected_metadata request (hash_policy digest (policy_of settings request));
}

abbrev alias : VaultAlias
alias = record {
  id = bytes "va";
  name = bytes "/orgs/a_team";
  mount_accessor = bytes "acc";
  canonical_id = bytes "vg";
}

abbrev view : View
view = record {
  mount = λ url. if url == auth_url settings then some login_mount else some secret_mount;
  policy = λ url. some (policy_of settings request);
  group = λ url. some owned;
  alias = λ url name accessor. some (owned, alias);
}

abbrev reply : {A : Type 0} → A → Option A → RawReply A
reply a none = answered 404 a
reply a (some b) = answered 200 b

abbrev vault : Vault ℕ
vault = record {
  now = λ w. (5, w);
  read_jwt = λ path w. (some (bytes "jwt"), w);
  login = λ url role jwt w.
      (answered 200 (record { client_token = bytes "tok"; lease_duration = pos 3600 }), w);
  get_mount = λ url t w. (reply login_mount (view.mount url), w);
  get_policy = λ url t w. (reply [] (view.policy url), w);
  get_group = λ url t w. (reply owned (view.group url), w);
  lookup_group = λ url name accessor t w. (reply (owned, alias) (view.alias url name accessor), w);
}

reply-Shows : {A : Type 0} (a : A) (o : Option A) → Shows o (reply a o)
reply-Shows a none = (λ h. ground (arith, h), λ h. refl)
reply-Shows a (some b) = (λ h. refl, λ h. ground (arith, h))

reply-Tells : {A : Type 0} (a : A) (o : Option A) → Tells o (reply a o)
reply-Tells a none = refl
reply-Tells a (some b) = (refl, refl)

vault-IsTruthful : IsTruthful vault view
vault-IsTruthful = record {
  mounts = λ url t w. reply-Shows login_mount (view.mount url);
  policies = λ url t w. reply-Shows [] (view.policy url);
  groups = λ url t w. reply-Shows owned (view.group url);
  aliases = λ url name accessor t w. reply-Shows (owned, alias) (view.alias url name accessor);
}

vault-IsAnswering : IsAnswering vault view
unfolding trim_space skip_spaces reversed first is_space bytes number_eq
vault-IsAnswering = record {
  jwt = λ path w. refl;
  logins = λ url role jwt w. (refl, refl);
  mounts = λ url t w. reply-Tells login_mount (view.mount url);
  policies = λ url t w. reply-Tells [] (view.policy url);
  groups = λ url t w. reply-Tells owned (view.group url);
  aliases = λ url name accessor t w. reply-Tells (owned, alias) (view.alias url name accessor);
}

request-IsProvisioned : IsProvisioned settings view request
unfolding lookup str_eq same number_eq bytes path_escape trim_right trim_left new managed_name
    hyphens hex_encode first
request-IsProvisioned = record {
  auth = login_mount;
  auth_there = refl;
  auth_fits = (refl, refl, inl refl);
  kv = secret_mount;
  kv_there = refl;
  kv_fits = (refl, refl, refl);
  policy_there = refl;
  group = owned;
  group_there = refl;
  group_fits = (refl, refl, refl, refl, (refl, (refl, (refl, (refl, tt)))));
  found = (owned, alias);
  alias_there = refl;
  alias_fits = (refl, refl, refl, refl, refl);
}

sync_access_group-Passed_example :
    Yields
      (Passed settings vault view vault-IsTruthful request)
      (sync_access_group settings vault request (unused 0))
sync_access_group-Passed_example =
    sync_access_group-Passed settings vault view vault-IsTruthful request (unused 0)

sync_access_group-Converges_example :
    Gives
      (Converges settings vault view vault-IsAnswering)
      (sync_access_group settings vault request (unused 0))
sync_access_group-Converges_example =
    sync_access_group-Converges settings vault view vault-IsAnswering request refl
      request-IsProvisioned (unused 0)

-- The ancestors of a path can be listed, and no more.
policy_of_path :
    policy_for quoted (bytes "orgs") (bytes "internal/ccmo/j6") (bytes "viewer") true
    ≡ bytes "path \"orgs/metadata/\" {\n  capabilities = [\"list\"]\n}\n\n"
      ++ (bytes "path \"orgs/metadata/internal\" {\n  capabilities = [\"list\"]\n}\n\n"
          ++ (bytes "path \"orgs/metadata/internal/ccmo\" {\n  capabilities = [\"list\"]\n}\n\n"
              ++ (bytes "path \"orgs/data/internal/ccmo/j6\" {\n  capabilities = [\"read\"]\n}\n\n"
                  ++ (bytes
                        "path \"orgs/data/internal/ccmo/j6/*\" {\n  capabilities = [\"read\"]\n}\n\n"
                      ++ (bytes
                            "path \"orgs/metadata/internal/ccmo/j6\" {\n  capabilities = [\"read\", \"list\"]\n}\n\n"
                          ++ (bytes
                              "path \"orgs/metadata/internal/ccmo/j6/*\" {\n  capabilities = [\"read\", \"list\"]\n}\n"))))))
unfolding policy_for ancestors split join bytes number_eq str_eq same
policy_of_path = refl
