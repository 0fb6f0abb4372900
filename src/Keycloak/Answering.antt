-- ===== src/Keycloak/Answering.antt =====
-- A server that grants tokens and answers: what the client needs of it to list anything.
use group_bridge.Base.{
  ℕ, ◌≡◌, true, false, Option, none, some, ◌++◌, if_cases, Str, is_empty, ◌&&◌, ◌==◌, number_eq,
  arith,
}
use group_bridge.Base.Exec.{Result, ok, err}
use group_bridge.Base.Outcomes.{Gives, Delivers, given_in_turn}
use group_bridge.Base.Clock.{is_fresh}
use group_bridge.Credential.Loading.{LoadError, load}
use group_bridge.Gitlab.Api.{is_success}
use group_bridge.Keycloak.Urls.{Query, token_url, token_form}
use group_bridge.Keycloak.Api.{
  TokenRep, HttpReply, no_reply, replied, Keycloak, SourceError, Settings, Client, Call, outside,
  on_host, with_secret,
}
use group_bridge.Keycloak.Token.{
  granted, token_reply, new_token, token, attempts, judged, get_optional, required, get,
}

-- A token that is not empty.
abbrev pub Grants : HttpReply TokenRep → Type 0
Grants no_reply = ⊥
Grants (replied status none) = ⊥
Grants (replied status (some t)) = (is_success status ≡ true) × (is_empty t.access_token ≡ false)

abbrev pub Holds : {A : Type 0} → (A → Type 0) → Option A → Type 0
Holds P none = ⊥
Holds P (some a) = P a

-- A body with the property.
abbrev pub Answers : {A : Type 0} → (A → Type 0) → HttpReply A → Type 0
Answers P no_reply = ⊥
Answers P (replied status none) = ⊥
Answers P (replied status (some a)) = (is_success status ≡ true) × P a

module _ {W : Type 0} (settings : Settings) (api : Keycloak W) where
  -- The secret can be loaded, and every request for a token is granted.
  pub record IsGranting : Type 0 where
    pub loads : (w : W) → Gives (λ secret. Unit) (load api.host settings.client_secret w)
    pub grants :
        (form : Query) (w : W)
        → Grants (api.post_token (token_url settings.base_url settings.realm) form w).0

  granted-Delivers :
      (t : TokenRep)
      → is_empty t.access_token ≡ false
      → Delivers (λ t. Unit {0}) (granted settings api t)
  unfolding outside
  granted-Delivers t e c =
      if_cases (λ (m : Call W Str). Gives (λ t. Unit {0}) (m c)) (is_empty t.access_token) _ _
        (λ h. ground (arith, e, h)) (λ h. tt)

  token_reply-Delivers :
      (r : HttpReply TokenRep) → Grants r → Delivers (λ t. Unit {0}) (token_reply settings api r)
  token_reply-Delivers no_reply h c = absurd h
  token_reply-Delivers (replied status none) h c = absurd h
  token_reply-Delivers (replied status (some t)) h c =
      if_cases (λ (m : Call W Str). Gives (λ t. Unit {0}) (m c)) (is_success status) _ _
        (λ y. granted-Delivers t h.1 c) (λ n. ground (arith, h.0, n))

  pub on_host-Delivers :
      {A : Type 0} (f : W → Result LoadError A × W)
      → ((w : W) → Gives (λ a. Unit {0}) (f w))
      → Delivers (λ a. Unit {0}) (on_host f)
  unfolding on_host
  on_host-Delivers {A = A} f h c = of_result (f c.world).0 (f c.world).1 (h c.world)
    where
      of_result :
          (r : Result LoadError A) (w : W)
          → Gives (λ a. Unit {0}) (r, w)
          → Gives (λ a. Unit {0}) (with_secret r (record c { world = w }))
      of_result (ok a) w p = tt
      of_result (err e) w p = absurd p

  module _ (granting : IsGranting) where
    new_token-Delivers : Delivers (λ t. Unit {0}) (new_token settings api)
    unfolding new_token outside
    new_token-Delivers =
        given_in_turn (λ s. Unit {0}) (λ t. Unit {0})
          (on_host (load api.host settings.client_secret)) _ (on_host-Delivers _ granting.loads)
          λ secret u.
            given_in_turn Grants (λ t. Unit {0})
              (outside (
                api.post_token (token_url settings.base_url settings.realm)
                  (token_form settings.client_id secret)))
              (token_reply settings api) (λ d. granting.grants _ d.world) token_reply-Delivers

    pub token-Delivers : Delivers (λ t. Unit {0}) (token settings api)
    unfolding token outside
    token-Delivers c =
        if_cases (λ (r : Result SourceError Str × Client W). Gives (λ t. Unit {0}) r)
          (is_empty c.access_token) _ _ (λ _. new_token-Delivers c)
          (λ _.
            if_cases (λ (r : Result SourceError Str × Client W). Gives (λ t. Unit {0}) r)
              (is_fresh (api.now c.world).0 c.token_expiry) _ _ (λ _. tt)
              (λ _. new_token-Delivers _))

    module _ {A : Type 0} (P : A → Type 0) where
      pub judged-Delivers :
          (attempt : ℕ) (next : Call W (Option A)) (r : HttpReply A)
          → Answers P r
          → Delivers (Holds P) (judged settings api attempt next r)
      judged-Delivers attempt next no_reply h c = absurd h
      judged-Delivers attempt next (replied status none) h c = absurd h
      judged-Delivers attempt next (replied status (some a)) h c =
          if_cases (λ (m : Call W (Option A)). Gives (Holds P) (m c))
            (status == 401 && attempt == 0) _ _ (λ y. ground (arith, h.0, y))
            (λ _.
              if_cases (λ (m : Call W (Option A)). Gives (Holds P) (m c)) (status == 404) _ _
                (λ y. ground (arith, h.0, y))
                (λ _.
                  if_cases (λ (m : Call W (Option A)). Gives (Holds P) (m c)) (is_success status) _
                    _ (λ _. h.1) (λ n. ground (arith, h.0, n))))

      required-Delivers : (o : Option A) → Holds P o → Delivers P (required settings api o)
      required-Delivers none h c = absurd h
      required-Delivers (some a) h c = h

      -- A request whose answers have a property gives what has it.
      pub get-Delivers :
          (endpoint : Str → Query → Str → W → HttpReply A × W) (path : Str) (query : Query)
          → ((t : Str) (w : W) → Answers P (endpoint (settings.base_url ++ path) query t w).0)
          → Delivers P (get settings api endpoint path query)
      unfolding get get_optional attempts outside
      get-Delivers endpoint path query h =
          given_in_turn (Holds P) P
            (attempts settings api 2 0 (endpoint (settings.base_url ++ path) query))
            (required settings api)
            (given_in_turn (λ t. Unit {0}) (Holds P) (token settings api) _ token-Delivers
              λ t u.
                given_in_turn (Answers P) (Holds P)
                  (outside (endpoint (settings.base_url ++ path) query t)) _ (λ d. h t d.world)
                  (judged-Delivers 0 _))
            required-Delivers
