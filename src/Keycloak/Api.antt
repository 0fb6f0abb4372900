-- ===== src/Keycloak/Api.antt =====
-- internal/source/keycloak/client.go: the client's data and its state. The Keycloak server and the
-- clock are a parameter, `Keycloak`, beside the host that has the credential.
use group_bridge.Base.{ℕ, Bool, Option, none, List, [], Str, ℤ}
use group_bridge.Base.Exec.{Result, ok, err, Exec}
use group_bridge.Reconcile.Paths.{trim_right, is_slash}
use group_bridge.Credential.Reference.{Loader, static}
use group_bridge.Credential.Loading.{LoadError, Host}
use group_bridge.Keycloak.Urls.{Query}

-- The groups that are embedded in one are left out: nothing reads them, nor their number.
pub record GroupRep : Type 0 where
  pub id : Str
  pub name : Str
  pub path : Str

pub record UserRep : Type 0 where
  pub id : Str
  pub username : Str
  pub email : Str
  pub enabled : Bool

pub record TokenRep : Type 0 where
  pub access_token : Str
  pub expires_in : ℤ

-- No answer, or a status with the body, which is `none` where it cannot be decoded.
pub data HttpReply (A : Type 0) : Type 0 where
  no_reply : HttpReply A
  replied : ℕ → Option A → HttpReply A

-- A request takes the URL, the query or form, and the token. The clock counts nanoseconds. A
-- request that cannot be built has no answer.
pub record Keycloak (W : Type 0) : Type 0 where
  pub host : Host W
  pub now : W → ℕ × W
  pub post_token : Str → Query → W → HttpReply TokenRep × W
  pub get_groups : Str → Query → Str → W → HttpReply (List GroupRep) × W
  pub get_group : Str → Query → Str → W → HttpReply GroupRep × W
  pub get_users : Str → Query → Str → W → HttpReply (List UserRep) × W

pub data SourceError : Type 0 where
  no_answer bad_status undecoded not_found unauthenticated bad_token_status empty_token :
      SourceError
  empty_id incomplete_group different_group unnamed_group : SourceError
  duplicate_group duplicate_user out_of_pages too_deep : SourceError
  no_secret : LoadError → SourceError

pub record Settings : Type 0 where
  pub base_url : Str
  pub realm : Str
  pub client_id : Str
  pub client_secret : Loader

-- `token_expiry` is `none` for the zero time.
pub record Client (W : Type 0) : Type 0 where
  pub access_token : Str
  pub token_expiry : Option ℤ
  pub world : W

abbrev pub Call : Type 0 → Type 0 → Type 0
Call W A = Exec SourceError (Client W) A

-- `NewWithCredential`
unfoldable pub new_with_credential : Str → Str → Str → Loader → Settings
new_with_credential base_url realm client_id client_secret = record {
  base_url = trim_right is_slash base_url;
  realm = realm;
  client_id = client_id;
  client_secret = client_secret;
}

-- `New`
unfoldable pub new : Str → Str → Str → Str → Settings
new base_url realm client_id client_secret =
    new_with_credential base_url realm client_id (static client_secret)

-- A client that has made no request.
abbrev pub unused : {W : Type 0} → W → Client W
unused w = record { access_token = []; token_expiry = none; world = w }

module _ {W : Type 0} where
  -- A call of the world.
  unfoldable pub outside : {A : Type 0} → (W → A × W) → Call W A
  outside f c = let (a, w) = f c.world in (ok a, record c { world = w })

  abbrev pub with_secret :
      {A : Type 0} → Result LoadError A → Client W → Result SourceError A × Client W
  with_secret (ok a) c = (ok a, c)
  with_secret (err e) c = (err (no_secret e), c)

  -- A call of the credential's loader.
  unfoldable pub on_host : {A : Type 0} → Exec LoadError W A → Call W A
  on_host f c = let (r, w) = f c.world in with_secret r (record c { world = w })
