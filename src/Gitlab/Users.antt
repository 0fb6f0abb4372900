-- ===== src/Gitlab/Users.antt =====
-- internal/provider/gitlab/client.go: the GitLab user of a source's user. The Unicode folding of
-- strings.EqualFold is a parameter, `equal_fold`.
use group_bridge.Base.{
  Bool, true, false, ◌&&◌, ◌||◌, Option, none, some, List, [], ◌∷◌, ◌==◌, if◌then◌else◌, number_eq,
  contains, Str, str_eq, bytes, is_empty, ltb, length,
}
use group_bridge.Base.Exec.{pure, fail, ◌>>=◌}
use group_bridge.Model.{User}
use group_bridge.Gitlab.Api.{
  Identity, GitUser, UserQuery, by_identity, by_username, by_search, Api, SyncError, Call, outside,
  load, received, expect,
}

unfoldable pub any_identity : Str → Str → List Identity → Bool
any_identity provider extern_uid [] = false
any_identity provider extern_uid (i ∷ rest) =
    let later = any_identity provider extern_uid rest in
    if i.provider == provider && i.extern_uid == extern_uid then true else later

abbrev pub has_identity : GitUser → Str → Str → Bool
has_identity candidate provider extern_uid = any_identity provider extern_uid candidate.identities

-- What the client is configured with.
pub record Lookup : Type 0 where
  pub oidc_provider : Str
  pub equal_fold : Str → Str → Bool

-- A strategy of identity matching, and its query, where the source's user has what it asks for.
pub data Strategy : Type 0 where
  oidc oidc_username username email unknown : Strategy

unfoldable pub strategy : Str → Strategy
strategy field =
    if field == bytes "oidc"
    then Strategy.oidc
    else if field == bytes "oidc-username"
    then Strategy.oidc_username
    else if field == bytes "username"
    then Strategy.username
    else if field == bytes "email"
    then Strategy.email
    else Strategy.unknown

unfoldable pub query_for : Lookup → User → Strategy → Option UserQuery
query_for l source Strategy.oidc =
    if is_empty source.id || is_empty l.oidc_provider
    then none
    else some (by_identity source.id l.oidc_provider)
query_for l source Strategy.oidc_username =
    if is_empty source.username || is_empty l.oidc_provider
    then none
    else some (by_identity source.username l.oidc_provider)
query_for l source Strategy.username =
    if is_empty source.username then none else some (by_username source.username)
query_for l source Strategy.email =
    if is_empty source.email then none else some (by_search source.email)
query_for l source Strategy.unknown = none

-- The answer's users are matched once more.
unfoldable pub matches : Lookup → User → Strategy → GitUser → Bool
matches l source Strategy.oidc c = has_identity c l.oidc_provider source.id
matches l source Strategy.oidc_username c = has_identity c l.oidc_provider source.username
matches l source Strategy.username c = l.equal_fold c.username source.username
matches l source Strategy.email c = l.equal_fold c.email source.email
matches l source Strategy.unknown c = false

unfoldable pub all_matches : Lookup → User → Strategy → List GitUser → List GitUser
all_matches l source s [] = []
all_matches l source s (c ∷ cs) =
    let rest = all_matches l source s cs in if matches l source s c then c ∷ rest else rest

module _ {W : Type 0} (api : Api W) (l : Lookup) where
  unfoldable pub search : UserQuery → Call W (List GitUser)
  search query = do
    token ← load api.load_resolver_token
    reply ← outside (api.users_get token query)
    answer ← received reply
    expect answer

  -- One match is the user, several are an error, and with none the next strategy is tried.
  abbrev pub single : List GitUser → Call W (Option GitUser) → Call W (Option GitUser)
  single [] next = next
  single (u ∷ []) next = pure (some u)
  single (u ∷ v ∷ us) next = fail SyncError.ambiguous_user

  abbrev pub try_query :
      User → Strategy → Option UserQuery → Call W (Option GitUser) → Call W (Option GitUser)
  try_query source s none next = next
  try_query source s (some query) next = do
    users ← search query
    single (all_matches l source s users) next

  unfoldable pub try_fields : User → List Str → Call W (Option GitUser)
  try_fields source [] = pure none
  try_fields source (field ∷ rest) =
      let next = try_fields source rest in
      try_query source (strategy field) (query_for l source (strategy field)) next

  unfoldable pub find_user : User → List Str → Call W (Option GitUser)
  find_user source match =
      if ltb 1 (length match) && contains match (bytes "oidc-username")
      then fail SyncError.mixed_strategies
      else try_fields source match
