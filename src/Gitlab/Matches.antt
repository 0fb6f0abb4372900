-- ===== src/Gitlab/Matches.antt =====
-- The user that is found is one that a configured strategy matches.
use group_bridge.Base.{
  ◌≡◌, ◌≢◌, refl, arith, ◌&&◌, ◌==◌, number_eq, ◌⊎◌, inl, inr, true, ◌&&◌, Option, none, some, List,
  [], ◌∷◌, if_cases, contains, All, All-weaken, Str, str_eq, bytes, ltb, length,
}
use group_bridge.Base.Exec.{Result, ok, err}
use group_bridge.Model.{User}
use group_bridge.Gitlab.Api.{Identity, GitUser, UserQuery, Api, SyncError, Client, Call}
use group_bridge.Base.Outcomes.{Yields, Ensures, anything, in_turn}
use group_bridge.Gitlab.Users.{
  Lookup, any_identity, Strategy, strategy, query_for, matches, all_matches, search, single,
  try_query, try_fields, find_user,
}

-- The user has the identity at the provider.
abbrev pub HasIdentity : Str → Str → List Identity → Type 0
HasIdentity provider uid [] = ⊥
HasIdentity provider uid (i ∷ rest) =
    ((i.provider ≡ provider) × (i.extern_uid ≡ uid)) ⊎ HasIdentity provider uid rest

-- What a strategy asks for by its name: an identity of the source's id or username, or the same
-- username or email, upper and lower case being equal. What is compared is not empty.
abbrev pub Fits : Lookup → User → Str → GitUser → Type 0
Fits l source field u =
    ((field ≡ bytes "oidc")
      × (source.id ≢ [])
      × (l.oidc_provider ≢ [])
      × HasIdentity l.oidc_provider source.id u.identities)
    ⊎ ((field ≡ bytes "oidc-username")
        × (source.username ≢ [])
        × (l.oidc_provider ≢ [])
        × HasIdentity l.oidc_provider source.username u.identities)
    ⊎ ((field ≡ bytes "username")
        × (source.username ≢ [])
        × (l.equal_fold u.username source.username ≡ true))
    ⊎ ((field ≡ bytes "email") × (source.email ≢ []) × (l.equal_fold u.email source.email ≡ true))

-- One of the fields names a strategy that the user fits.
abbrev pub MatchedBy : Lookup → User → List Str → GitUser → Type 0
MatchedBy l source [] u = ⊥
MatchedBy l source (field ∷ rest) u = Fits l source field u ⊎ MatchedBy l source rest u

abbrev pub IsMatched : Lookup → User → List Str → Option GitUser → Type 0
IsMatched l source fields none = Unit
IsMatched l source fields (some u) = MatchedBy l source fields u

all_matches-match :
    (l : Lookup) (source : User) (s : Strategy) (cs : List GitUser)
    → All (λ u. matches l source s u ≡ true) (all_matches l source s cs)
unfolding all_matches
all_matches-match l source s [] = tt
all_matches-match l source s (c ∷ cs) =
    if_cases (All (λ u. matches l source s u ≡ true)) (matches l source s c) _ _
      (λ m. (m, all_matches-match l source s cs)) (λ _. all_matches-match l source s cs)

any_identity-HasIdentity :
    (provider uid : Str) (is : List Identity)
    → any_identity provider uid is ≡ true
    → HasIdentity provider uid is
unfolding any_identity
any_identity-HasIdentity provider uid [] h = ground (arith, h)
any_identity-HasIdentity provider uid (i ∷ rest) h =
    if_cases
      (λ b.
        b ≡ true → ((i.provider ≡ provider) × (i.extern_uid ≡ uid)) ⊎ HasIdentity provider uid rest)
      (i.provider == provider && i.extern_uid == uid) true (any_identity provider uid rest)
      (λ y _. inl (ground (arith, y), ground (arith, y)))
      (λ _ t. inr (any_identity-HasIdentity provider uid rest t)) h

-- A user that is matched by a strategy that a field names and that had a query.
matches-Fits :
    (l : Lookup) (source : User) (field : Str) (s : Strategy) (q : UserQuery) (u : GitUser)
    → strategy field ≡ s
    → query_for l source s ≡ some q
    → matches l source s u ≡ true
    → Fits l source field u
unfolding strategy query_for matches
matches-Fits l source field Strategy.oidc q u e asked m = inl (
  ground (arith, e),
  λ h. ground (arith, h, asked),
  λ h. ground (arith, h, asked),
  any_identity-HasIdentity l.oidc_provider source.id u.identities m,
)
matches-Fits l source field Strategy.oidc_username q u e asked m = inr (
    inl (
      ground (arith, e),
      λ h. ground (arith, h, asked),
      λ h. ground (arith, h, asked),
      any_identity-HasIdentity l.oidc_provider source.username u.identities m,
    ))
matches-Fits l source field Strategy.username q u e asked m =
    inr (inr (inl (ground (arith, e), λ h. ground (arith, h, asked), m)))
matches-Fits l source field Strategy.email q u e asked m =
    inr (inr (inr (ground (arith, e), λ h. ground (arith, h, asked), m)))
matches-Fits l source field Strategy.unknown q u e asked m = ground (arith, m)

module _ {W : Type 0} (api : Api W) (l : Lookup) (source : User) where
  later :
      (field : Str) (rest : List Str) (o : Option GitUser)
      → IsMatched l source rest o
      → IsMatched l source (field ∷ rest) o
  later field rest none m = tt
  later field rest (some u) m = inr m

  single-IsMatched :
      (field : Str) (rest : List Str) (us : List GitUser) (next : Call W (Option GitUser))
      → All (Fits l source field) us
      → Ensures (IsMatched l source (field ∷ rest)) next
      → Ensures (IsMatched l source (field ∷ rest)) (single api l us next)
  single-IsMatched field rest [] next h n = n
  single-IsMatched field rest (u ∷ []) next h n = λ c. inl h.0
  single-IsMatched field rest (u ∷ v ∷ us) next h n = λ c. tt

  try_query-IsMatched :
      (field : Str) (rest : List Str) (q : Option UserQuery)
      → query_for l source (strategy field) ≡ q
      → (next : Call W (Option GitUser)) → Ensures (IsMatched l source (field ∷ rest)) next
      → Ensures (IsMatched l source (field ∷ rest)) (try_query api l source (strategy field) q next)
  try_query-IsMatched field rest none e next n = n
  try_query-IsMatched field rest (some query) e next n =
      in_turn (λ a. Unit) (IsMatched l source (field ∷ rest)) (search api l query) _ (anything _)
        (λ users _.
          single-IsMatched field rest (all_matches l source (strategy field) users) next
            (All-weaken _ (Fits l source field)
              (λ u. matches-Fits l source field (strategy field) query u refl e)
              (all_matches l source (strategy field) users)
              (all_matches-match l source (strategy field) users))
            n)

  try_fields-IsMatched :
      (fields : List Str) → Ensures (IsMatched l source fields) (try_fields api l source fields)
  unfolding try_fields
  try_fields-IsMatched [] = λ c. tt
  try_fields-IsMatched (field ∷ rest) =
      try_query-IsMatched field rest (query_for l source (strategy field)) refl
        (try_fields api l source rest)
        (λ c. weaken (try_fields api l source rest c) (try_fields-IsMatched rest c))
    where
      weaken :
          (r : Result SyncError (Option GitUser) × Client W)
          → Yields (IsMatched l source rest) r
          → Yields (IsMatched l source (field ∷ rest)) r
      weaken (ok o, c) m = later field rest o m
      weaken (err e, c) m = tt

  find_user-matches :
      (fields : List Str) → Ensures (IsMatched l source fields) (find_user api l source fields)
  unfolding find_user
  find_user-matches fields =
      if_cases (Ensures (IsMatched l source fields))
        (ltb 1 (length fields) && contains fields (bytes "oidc-username")) _ _ (λ _ c. tt)
        (λ _. try_fields-IsMatched fields)

  -- Whoever is found as the GitLab user of a source's user, whatever the server's search returns,
  -- fits one of the strategies that the rule names: it has the identity of the source's id (oidc) or
  -- username (oidc-username) at the configured provider, or the same username or email, upper and
  -- lower case being equal. What is compared is never empty.
  pub find_user-IsMatched :
      (fields : List Str) (c : Client W)
      → Yields (IsMatched l source fields) (find_user api l source fields c)
  find_user-IsMatched fields c = find_user-matches fields c
