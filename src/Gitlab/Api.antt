-- ===== src/Gitlab/Api.antt =====
-- internal/provider/gitlab/client.go: the client's data, its state, and its requests. The GitLab
-- server and the credentials' loaders are a parameter, `Api`.
use group_bridge.Base.{
  ℕ, suc, zero, ◌+◌, ◌/◌, ◌%◌, Bool, ◌&&◌, Option, none, some, List, [], ◌∷◌, ◌++◌, if◌then◌else◌,
  ◌==◌, number_eq, Str, leb, ltb,
}
use group_bridge.Base.Exec.{Result, ok, err, Exec, pure, fail, ◌>>=◌}
use group_bridge.Reconcile.Paths.{trim_right, is_slash}
use group_bridge.State.Ledger.{Store, StateError, Faults}

pub record GitGroup : Type 0 where
  pub id : ℕ
  pub full_path : Str

pub record Member : Type 0 where
  pub id : ℕ
  pub username : Str
  pub access_level : ℕ
  pub member_role_id : Option ℕ

pub record Identity : Type 0 where
  pub provider : Str
  pub extern_uid : Str

pub record GitUser : Type 0 where
  pub id : ℕ
  pub username : Str
  pub email : Str
  pub state : Str
  pub identities : List Identity

-- The query of a search for users.
pub data UserQuery : Type 0 where
  by_identity : Str → Str → UserQuery
  by_username : Str → UserQuery
  by_search : Str → UserQuery

-- What `request` returns: an error, or a status with the body that was decoded, which is the zero
-- value unless the status is one of success.
pub data Reply (A : Type 0) : Type 0 where
  no_reply : Reply A
  replied : ℕ → A → Reply A

-- The endpoints that the client calls, each with the token, and the loaders of the two tokens. A
-- page of members comes with whether the server names a next page.
pub record Api (W : Type 0) : Type 0 where
  pub load_token : W → Option Str × W
  pub load_resolver_token : W → Option Str × W
  pub groups_get : Str → Str → W → Reply GitGroup × W
  pub groups_post : Str → Str → Option ℕ → W → Reply GitGroup × W
  pub members_page : Str → ℕ → ℕ → W → Reply (List Member × Bool) × W
  pub members_post : Str → ℕ → ℕ → ℕ → W → Reply (Unit {0}) × W
  pub members_get : Str → ℕ → ℕ → W → Reply Member × W
  pub members_put : Str → ℕ → ℕ → ℕ → W → Reply (Unit {0}) × W
  pub members_delete : Str → ℕ → ℕ → W → Reply (Unit {0}) × W
  pub users_get : Str → UserQuery → W → Reply (List GitUser) × W
  pub user_get : Str → W → Reply ℕ × W
  pub faults : W → Faults

pub data SyncError : Type 0 where
  no_response bad_status empty_path outside_parent no_group no_parent unresolved_group : SyncError
  mixed_strategies ambiguous_user no_credential : SyncError
  retargeted not_owned unverified custom_role predates too_many_removals out_of_pages : SyncError
  not_stored : StateError → SyncError

-- `identity` is the current user with the hash of the token that it was read with.
pub record Client (W : Type 0) : Type 0 where
  pub store : Store
  pub world : W
  pub identity : Option (ℕ × Str)

abbrev pub Call : Type 0 → Type 0 → Type 0
Call W A = Exec SyncError (Client W) A

abbrev pub is_success : ℕ → Bool
is_success status = leb 200 status && ltb status 300

-- strconv.Itoa; `fuel` bounds the digits, of which a number has no more than itself and one.
unfoldable pub digits : ℕ → ℕ → Str
digits zero n = []
digits (suc fuel) n =
    let rest = digits fuel (n / 10) in
    if ltb n 10 then (48 + n) ∷ [] else rest ++ ((48 + n % 10) ∷ [])

abbrev pub itoa : ℕ → Str
itoa n = digits (suc n) n

abbrev pub hex_digit : ℕ → ℕ
hex_digit n = if ltb n 10 then 48 + n else 87 + n

unfoldable pub hex_encode : Str → Str
hex_encode [] = []
hex_encode (c ∷ s) = hex_digit (c / 16) ∷ hex_digit (c % 16) ∷ hex_encode s

-- The first bytes, at most so many.
unfoldable pub first : ℕ → Str → Str
first zero s = []
first (suc n) [] = []
first (suc n) (c ∷ s) = c ∷ first n s

-- The hash, SHA-256, and the Unicode tables are parameters.
unfoldable pub ownership_key : (Str → Str) → (Str → Str) → Str → Str → Str
ownership_key hash to_lower name base_url =
    name ++ (64 ∷ hex_encode (first 8 (hash (trim_right is_slash (to_lower base_url)))))

module _ {W : Type 0} where
  -- A call of the world.
  unfoldable pub outside : {A : Type 0} → (W → A × W) → Call W A
  outside f c = let (a, w) = f c.world in (ok a, record c { world = w })

  abbrev pub stored :
      {A : Type 0} → Result StateError A × Store → Client W → Result SyncError A × Client W
  stored (ok a, s) c = (ok a, record c { store = s })
  stored (err e, s) c = (err (not_stored e), record c { store = s })

  -- A method of the store.
  unfoldable pub on_store : {A : Type 0} → Api W → (Faults → Exec StateError Store A) → Call W A
  on_store api f c = stored (f (api.faults c.world) c.store) c

  abbrev pub given : Option Str → Call W Str
  given none = fail SyncError.no_credential
  given (some token) = pure token

  unfoldable pub load : (W → Option Str × W) → Call W Str
  load f = outside f >>= given

  abbrev pub received : {A : Type 0} → Reply A → Call W (ℕ × A)
  received no_reply = fail SyncError.no_response
  received (replied status a) = pure (status, a)

  -- `request`: the token is loaded for every request.
  unfoldable pub request : {A : Type 0} → Api W → (Str → W → Reply A × W) → Call W (ℕ × A)
  request api f = load api.load_token >>= λ token. outside (f token) >>= received

  -- What is not a success is an error.
  abbrev pub expect : {A : Type 0} → ℕ × A → Call W A
  expect (status, a) = if is_success status then pure a else fail SyncError.bad_status

  -- The same, but not found is `none`.
  abbrev pub expect_or_none : {A : Type 0} → ℕ × A → Call W (Option A)
  expect_or_none (status, a) =
      if status == 404
      then pure none
      else if is_success status
      then pure (some a)
      else fail SyncError.bad_status
