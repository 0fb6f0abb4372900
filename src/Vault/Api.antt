-- ===== src/Vault/Api.antt =====
-- internal/provider/vault/client.go: the client's data and its state. The Vault server, the clock
-- and the file of the service account's token are a parameter, `Vault`.
use group_bridge.Base.{ℕ, Option, none, List, [], ◌++◌, Str, bytes, ℤ}
use group_bridge.Base.Map.{Map}
use group_bridge.Base.Exec.{ok, Exec}
use group_bridge.Reconcile.Paths.{trim_left, trim_right, is_slash}

pub record Options : Type 0 where
  pub kubernetes_auth_mount : Str
  pub kubernetes_role : Str
  pub service_account_token_file : Str
  pub oidc_mount : Str
  pub kv_mount : Str

pub record LoginRep : Type 0 where
  pub client_token : Str
  pub lease_duration : ℤ

pub record MountInfo : Type 0 where
  pub accessor : Str
  pub path : Str
  pub kind : Str
  pub options : Map Str Str

pub record VaultGroup : Type 0 where
  pub id : Str
  pub name : Str
  pub kind : Str
  pub policies : List Str
  pub metadata : Map Str Str

pub record VaultAlias : Type 0 where
  pub id : Str
  pub name : Str
  pub mount_accessor : Str
  pub canonical_id : Str

-- What `rawRequest` returns: an error, or a status with the body that was decoded, which is the
-- zero value unless the status is one of success.
pub data RawReply (A : Type 0) : Type 0 where
  failed : RawReply A
  answered : ℕ → A → RawReply A

-- A request takes the URL, the fields of its body, and the token. Only the login and the look-up
-- are a POST. `read_jwt` reads the file of the service account's token.
pub record Vault (W : Type 0) : Type 0 where
  pub now : W → ℕ × W
  pub read_jwt : Str → W → Option Str × W
  pub login : Str → Str → Str → W → RawReply LoginRep × W
  pub get_mount : Str → Str → W → RawReply MountInfo × W
  pub get_policy : Str → Str → W → RawReply Str × W
  pub get_group : Str → Str → W → RawReply VaultGroup × W
  pub lookup_group : Str → Str → Str → Str → W → RawReply (VaultGroup × VaultAlias) × W

pub data VaultError : Type 0 where
  no_jwt bad_jwt no_answer no_login bad_status not_found : VaultError
  unsupported_mode no_oidc_mount no_kv_mount no_policy wrong_policy no_group : VaultError
  wrong_group wrong_policies wrong_metadata wrong_alias : VaultError

-- The settings of a client. The hash, SHA-256, and the quoting of strings are parameters.
pub record Settings : Type 0 where
  pub name : Str
  pub base_url : Str
  pub options : Options
  pub hash : Str → Str
  pub quote : Str → Str

-- `expires_at` is `none` for the zero time.
pub record Client (W : Type 0) : Type 0 where
  pub token : Str
  pub expires_at : Option ℤ
  pub world : W

abbrev pub Call : Type 0 → Type 0 → Type 0
Call W A = Exec VaultError (Client W) A

-- `New`; the transport and its timeouts are behind the server.
unfoldable pub new : (Str → Str) → (Str → Str) → Str → Str → Options → Settings
new hash quote name base_url options = record {
  name = name;
  base_url = trim_right is_slash base_url;
  options = options;
  hash = hash;
  quote = quote;
}

abbrev pub unused : {W : Type 0} → W → Client W
unused w = record { token = []; expires_at = none; world = w }

abbrev pub url_of : Settings → Str → Str
url_of settings path = settings.base_url ++ (bytes "/v1/" ++ trim_left is_slash path)

module _ {W : Type 0} where
  -- A call of the world.
  unfoldable pub outside : {A : Type 0} → (W → A × W) → Call W A
  outside f c = let (a, w) = f c.world in (ok a, record c { world = w })
