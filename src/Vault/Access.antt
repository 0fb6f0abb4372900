-- ===== src/Vault/Access.antt =====
-- internal/provider/vault/client.go: the check of a group's access.
use group_bridge.Base.{
  Bool, true, false, not, ◌&&◌, ◌||◌, Option, none, some, List, [], ◌∷◌, ◌++◌, ◌==◌, if◌then◌else◌,
  number_eq, Str, str_eq, bytes, is_empty, length,
}
use group_bridge.Base.Map.{Map, lookup}
use group_bridge.Base.Exec.{pure, fail, ◌>>=◌, ◌>>◌}
use group_bridge.Model.{AccessSyncRequest, AccessResult}
use group_bridge.Reconcile.Paths.{trim, is_slash}
use group_bridge.Keycloak.Urls.{path_escape}
use group_bridge.Vault.Policy.{managed_name, policy_for, hash_policy}
use group_bridge.Vault.Api.{
  MountInfo, VaultGroup, VaultAlias, Vault, VaultError, Settings, Call, url_of,
}
use group_bridge.Vault.Session.{request}

abbrev pub oidc_name : Settings → Str
oidc_name settings = trim is_slash settings.options.oidc_mount

abbrev pub mount_name : Settings → Str
mount_name settings = trim is_slash settings.options.kv_mount

abbrev pub auth_url : Settings → Str
auth_url settings =
    url_of settings (bytes "sys/internal/ui/mounts/auth/" ++ path_escape (oidc_name settings))

abbrev pub mount_url : Settings → Str
mount_url settings =
    url_of settings (bytes "sys/internal/ui/mounts/" ++ path_escape (mount_name settings))

abbrev pub policy_url : Settings → Str → Str
policy_url settings name = url_of settings (bytes "sys/policies/acl/" ++ path_escape name)

abbrev pub group_url : Settings → Str → Str
group_url settings name = url_of settings (bytes "identity/group/name/" ++ path_escape name)

abbrev pub lookup_url : Settings → Str
lookup_url settings = url_of settings (bytes "identity/lookup/group")

-- A field of a map, "" where it has none.
abbrev pub field : Str → Map Str Str → Str
field k m = elim (lookup k m) [ none ↦ [] | some v ↦ v ]

abbrev pub is_oidc_mount : Str → MountInfo → Bool
is_oidc_mount name m =
    not (is_empty m.accessor)
    && m.path == name ++ (47 ∷ [])
    && (m.kind == bytes "oidc" || m.kind == bytes "jwt")

abbrev pub is_kv_mount : Str → MountInfo → Bool
is_kv_mount name m =
    m.path == name ++ (47 ∷ [])
    && m.kind == bytes "kv"
    && field (bytes "version") m.options == bytes "2"

abbrev pub fields_match : Map Str Str → Map Str Str → Bool
fields_match [] m = true
fields_match ((k, v) ∷ expected) m = field k m == v && fields_match expected m

abbrev pub expected_metadata : AccessSyncRequest → Str → Map Str Str
expected_metadata req hash =
    (bytes "managed-by", bytes "groupbridge")
    ∷ (bytes "groupbridge-rule", req.rule_name)
    ∷ (bytes "secret-path", req.secret_path)
    ∷ (bytes "policy-sha256", hash)
    ∷ []

abbrev pub is_only : Str → List Str → Bool
is_only s [] = false
is_only s (t ∷ []) = t == s
is_only s (t ∷ u ∷ ts) = false

abbrev pub is_alias_of : Str → Str → VaultGroup → VaultGroup × VaultAlias → Bool
is_alias_of name accessor group (found, a) =
    found.id == group.id
    && not (is_empty a.id)
    && a.name == name
    && a.mount_accessor == accessor
    && a.canonical_id == group.id

module _ {W : Type 0} where
  -- `validateGitOpsGroup`
  unfoldable pub validate_git_ops_group : VaultGroup → Str → Map Str Str → Call W (Unit {0})
  validate_git_ops_group group name metadata =
      if not (group.name == name && group.kind == bytes "external")
      then fail VaultError.wrong_group
      else if not (is_only name group.policies)
      then fail VaultError.wrong_policies
      else if not (length group.metadata == length metadata && fields_match metadata group.metadata)
      then fail VaultError.wrong_metadata
      else pure tt

  abbrev pub required : {A : Type 0} → VaultError → Option A → Call W A
  required e none = fail e
  required e (some a) = pure a

  abbrev pub provided : {A : Type 0} → Bool → VaultError → A → Call W A
  provided t e a = if t then pure a else fail e

  abbrev pub only_linked :
      Option (VaultGroup × VaultAlias) → Call W (Option (VaultGroup × VaultAlias))
  only_linked none = pure none
  only_linked (some (group, a)) =
      if is_empty group.id && is_empty a.id then pure none else pure (some (group, a))

  abbrev pub linked : Str → Str → VaultGroup → Option (VaultGroup × VaultAlias) → Call W (Unit {0})
  linked name accessor group none = fail VaultError.wrong_alias
  linked name accessor group (some found) =
      if is_alias_of name accessor group found then pure tt else fail VaultError.wrong_alias

module _ {W : Type 0} (settings : Settings) (api : Vault W) where
  -- `discoverRuntime`
  unfoldable pub discover_runtime : Call W (Str × Str)
  discover_runtime = do
    found ← request settings api (api.get_mount (auth_url settings))
    auth ← required VaultError.not_found found
    checked ← provided (is_oidc_mount (oidc_name settings) auth) VaultError.no_oidc_mount auth
    found ← request settings api (api.get_mount (mount_url settings))
    kv ← required VaultError.not_found found
    provided (is_kv_mount (mount_name settings) kv) VaultError.no_kv_mount
        (checked.accessor, mount_name settings)

  -- `HealthCheck`
  abbrev pub health_check : Call W (Unit {0})
  health_check = discover_runtime >> pure tt

  -- `verifyPolicy`
  unfoldable pub verify_policy : Str → Str → Call W (Unit {0})
  verify_policy name expected = do
    found ← request settings api (api.get_policy (policy_url settings name))
    policy ← required VaultError.no_policy found
    provided (policy == expected) VaultError.wrong_policy tt

  -- `getGroupByName`
  unfoldable pub get_group_by_name : Str → Call W (Option VaultGroup)
  get_group_by_name name = request settings api (api.get_group (group_url settings name))

  -- `lookupAlias`
  unfoldable pub lookup_alias : Str → Str → Call W (Option (VaultGroup × VaultAlias))
  lookup_alias name accessor =
      request settings api (api.lookup_group (lookup_url settings) name accessor) >>= only_linked

  abbrev pub with_runtime : AccessSyncRequest → Str × Str → Call W AccessResult
  with_runtime req (accessor, mount) =
      let name = managed_name settings.hash req.secret_path in
      let policy =
        policy_for settings.quote mount req.secret_path req.access_profile req.discoverable in
      let metadata = expected_metadata req (hash_policy settings.hash policy) in
      do
        verify_policy name policy
        found ← get_group_by_name name
        group ← required VaultError.no_group found
        validate_git_ops_group group name metadata
        found ← lookup_alias req.source_group.path accessor
        linked req.source_group.path accessor group found
        pure (record { verified_policy = true; converged = true })

  -- `SyncAccessGroup`; a result that comes with an error is left out, since nothing reads it.
  unfoldable pub sync_access_group : AccessSyncRequest → Call W AccessResult
  sync_access_group req =
      if req.policy_mode == bytes "verify-only"
      then (discover_runtime >>= with_runtime req)
      else fail VaultError.unsupported_mode
