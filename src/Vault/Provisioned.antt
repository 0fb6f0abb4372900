-- ===== src/Vault/Provisioned.antt =====
-- What has to stand in Vault for a group's access, and that the check passes only where it does.
use group_bridge.Base.{
  ◌≡◌, refl, true, false, ◌⊎◌, inl, inr, Option, none, some, List, [], ◌∷◌, ◌++◌, Bool-cases, ◌==◌,
  number_eq, Str, str_eq, bytes, is_empty, length, arith,
}
use group_bridge.Base.Map.{Map}
use group_bridge.Model.{AccessSyncRequest}
use group_bridge.Gitlab.Api.{is_success}
use group_bridge.Vault.Policy.{managed_name, policy_for, hash_policy}
use group_bridge.Vault.Api.{
  MountInfo, VaultGroup, VaultAlias, RawReply, failed, answered, Vault, Settings,
}
use group_bridge.Vault.Access.{
  oidc_name, mount_name, auth_url, mount_url, policy_url, group_url, lookup_url, field,
  is_oidc_mount, is_kv_mount, fields_match, expected_metadata, is_only, is_alias_of,
}

-- What Vault holds, by the URL that it is read from.
pub record View : Type 0 where
  pub mount : Str → Option MountInfo
  pub policy : Str → Option Str
  pub group : Str → Option VaultGroup
  pub alias : Str → Str → Str → Option (VaultGroup × VaultAlias)

-- An answer of success shows what is there, and one of not found that nothing is.
abbrev pub Shows : {A : Type 0} → Option A → RawReply A → Type 0
Shows o failed = Unit
Shows o (answered status a) = (is_success status ≡ true → o ≡ some a) × (status ≡ 404 → o ≡ none)

-- The server shows what Vault holds, where it answers.
pub record IsTruthful {W : Type 0} (api : Vault W) (view : View) : Type 0 where
  pub mounts : (url t : Str) (w : W) → Shows (view.mount url) (api.get_mount url t w).0
  pub policies : (url t : Str) (w : W) → Shows (view.policy url) (api.get_policy url t w).0
  pub groups : (url t : Str) (w : W) → Shows (view.group url) (api.get_group url t w).0
  pub aliases :
      (url name accessor t : Str) (w : W)
      → Shows (view.alias url name accessor) (api.lookup_group url name accessor t w).0

abbrev pub IsOidcMount : Str → MountInfo → Type 0
IsOidcMount name m =
    (is_empty m.accessor ≡ false)
    × (m.path ≡ name ++ (47 ∷ []))
    × ((m.kind ≡ bytes "oidc") ⊎ (m.kind ≡ bytes "jwt"))

abbrev pub IsKvMount : Str → MountInfo → Type 0
IsKvMount name m =
    (m.path ≡ name ++ (47 ∷ []))
    × (m.kind ≡ bytes "kv")
    × (field (bytes "version") m.options ≡ bytes "2")

abbrev pub HasFields : Map Str Str → Map Str Str → Type 0
HasFields [] m = Unit
HasFields ((k, v) ∷ expected) m = (field k m ≡ v) × HasFields expected m

-- An external group with the one policy of its name and with exactly the expected metadata.
abbrev pub IsOwned : Str → Map Str Str → VaultGroup → Type 0
IsOwned name metadata g =
    (g.name ≡ name)
    × (g.kind ≡ bytes "external")
    × (g.policies ≡ name ∷ [])
    × (length g.metadata ≡ length metadata)
    × HasFields metadata g.metadata

abbrev pub IsAliasOf : Str → Str → VaultGroup → VaultGroup × VaultAlias → Type 0
IsAliasOf name accessor g (found, a) =
    (found.id ≡ g.id)
    × (is_empty a.id ≡ false)
    × (a.name ≡ name)
    × (a.mount_accessor ≡ accessor)
    × (a.canonical_id ≡ g.id)

-- The policy of a request, by its name and by its text.
abbrev pub name_of : Settings → AccessSyncRequest → Str
name_of settings req = managed_name settings.hash req.secret_path

abbrev pub policy_of : Settings → AccessSyncRequest → Str
policy_of settings req =
    policy_for settings.quote (mount_name settings) req.secret_path req.access_profile
      req.discoverable

pub record IsProvisioned (settings : Settings) (view : View) (req : AccessSyncRequest)
    : Type 0 where
  pub auth : MountInfo
  pub auth_there : view.mount (auth_url settings) ≡ some auth
  pub auth_fits : IsOidcMount (oidc_name settings) auth
  pub kv : MountInfo
  pub kv_there : view.mount (mount_url settings) ≡ some kv
  pub kv_fits : IsKvMount (mount_name settings) kv
  pub policy_there :
      view.policy (policy_url settings (name_of settings req)) ≡ some (policy_of settings req)
  pub group : VaultGroup
  pub group_there : view.group (group_url settings (name_of settings req)) ≡ some group
  pub group_fits :
      IsOwned
        (name_of settings req)
        (expected_metadata req (hash_policy settings.hash (policy_of settings req)))
        group
  pub found : VaultGroup × VaultAlias
  pub alias_there :
      view.alias (lookup_url settings) req.source_group.path auth.accessor ≡ some found
  pub alias_fits : IsAliasOf req.source_group.path auth.accessor group found

pub is_oidc_mount-IsOidcMount :
    (name : Str) (m : MountInfo) → is_oidc_mount name m ≡ true → IsOidcMount name m
is_oidc_mount-IsOidcMount name m h = (
  ground (arith, h),
  ground (arith, h),
  elim (Bool-cases (m.kind == bytes "oidc")) [
    | inl y ↦ inl (ground (arith, y))
    | inr n ↦ inr (ground (arith, h, n))
  ],
)

pub IsOidcMount-is_oidc_mount :
    (name : Str) (m : MountInfo) → IsOidcMount name m → is_oidc_mount name m ≡ true
IsOidcMount-is_oidc_mount name m h = elim (h.2) [
  | inl y ↦ ground (arith, h.0, h.1, y)
  | inr y ↦ ground (arith, h.0, h.1, y)
]

pub is_kv_mount-IsKvMount :
    (name : Str) (m : MountInfo) → is_kv_mount name m ≡ true → IsKvMount name m
is_kv_mount-IsKvMount name m h = ground (arith, h)

pub IsKvMount-is_kv_mount :
    (name : Str) (m : MountInfo) → IsKvMount name m → is_kv_mount name m ≡ true
IsKvMount-is_kv_mount name m h = ground (arith, h)

pub fields_match-HasFields : (e m : Map Str Str) → fields_match e m ≡ true → HasFields e m
fields_match-HasFields [] m h = tt
fields_match-HasFields ((k, v) ∷ e) m h = ground (arith, h, fields_match-HasFields e m)

pub HasFields-fields_match : (e m : Map Str Str) → HasFields e m → fields_match e m ≡ true
HasFields-fields_match [] m h = refl
HasFields-fields_match ((k, v) ∷ e) m h = ground (arith, h, HasFields-fields_match e m)

pub is_only-eq : (s : Str) (ts : List Str) → is_only s ts ≡ true → ts ≡ s ∷ []
is_only-eq s [] h = ground (arith, h)
is_only-eq s (t ∷ []) h = ground (arith, h)
is_only-eq s (t ∷ u ∷ ts) h = ground (arith, h)

pub is_alias_of-IsAliasOf :
    (name accessor : Str) (g : VaultGroup) (found : VaultGroup × VaultAlias)
    → is_alias_of name accessor g found ≡ true
    → IsAliasOf name accessor g found
is_alias_of-IsAliasOf name accessor g (found, a) h = ground (arith, h)

pub IsAliasOf-is_alias_of :
    (name accessor : Str) (g : VaultGroup) (found : VaultGroup × VaultAlias)
    → IsAliasOf name accessor g found
    → is_alias_of name accessor g found ≡ true
IsAliasOf-is_alias_of name accessor g (found, a) h = ground (arith, h)
