-- ===== src/Keycloak/Attempts.antt =====
-- A token that is refused is replaced, and the request is sent once more.
use group_bridge.Base.{
  ◌≡◌, refl, true, false, Option, none, some, [], if_cases, if_true, ◌++◌, ◌&&◌, ◌==◌, number_eq,
  arith, ◌⊎◌, inl, inr, ℕ, sym, subst, Str, is_empty,
}
use group_bridge.Base.Outcomes.{
  Gives, Delivers, given_in_turn, Reaches, Gives-Reaches, reached_in_turn,
}
use group_bridge.Credential.Loading.{load}
use group_bridge.Gitlab.Api.{is_success}
use group_bridge.Keycloak.Urls.{Query, token_url, token_form}
use group_bridge.Keycloak.Api.{
  TokenRep, HttpReply, no_reply, replied, Keycloak, Settings, Client, Call, outside, on_host,
}
use group_bridge.Keycloak.Token.{
  granted, token_reply, new_token, token, invalidate_token, attempts, judged, get_optional,
}
use group_bridge.Keycloak.Answering.{
  Holds, Answers, Grants, IsGranting, on_host-Delivers, token-Delivers, judged-Delivers,
}

-- The request is refused for its token.
abbrev pub Refuses : {A : Type 0} → HttpReply A → Type 0
Refuses no_reply = ⊥
Refuses (replied status body) = status ≡ 401

module _ {W : Type 0} (settings : Settings) (api : Keycloak W) (Valid : Str → W → Type 0) where
  -- A token that is good in the world after it was issued.
  abbrev pub Issues : HttpReply TokenRep × W → Type 0
  Issues (no_reply, w) = ⊥
  Issues (replied status none, w) = ⊥
  Issues (replied status (some t), w) =
      (is_success status ≡ true) × (is_empty t.access_token ≡ false) × Valid t.access_token w

  -- The secret can be loaded, every request for a token is granted one that is good, and a look at
  -- the clock revokes none. Which tokens are good may change with the world in any other way.
  pub record IsIssuing : Type 0 where
    pub loads : (w : W) → Gives (λ secret. Unit) (load api.host settings.client_secret w)
    pub issues :
        (form : Query) (w : W)
        → Issues (api.post_token (token_url settings.base_url settings.realm) form w)
    pub lasting : (t : Str) (w : W) → Valid t w → Valid t (api.now w).1

  module _ (issuing : IsIssuing) where
    is_granting : IsGranting settings api
    is_granting = record {
      loads = issuing.loads;
      grants = λ form w.
          granted_by (api.post_token (token_url settings.base_url settings.realm) form w)
            (issuing.issues form w);
    }
      where
        granted_by : (r : HttpReply TokenRep × W) → Issues r → Grants r.0
        granted_by (no_reply, w) h = h
        granted_by (replied status none, w) h = h
        granted_by (replied status (some t), w) h = (h.0, h.1)

    abbrev Good : Str → Client W → Type 0
    Good t c = Valid t c.world

    granted-Good :
        (t : TokenRep)
        → is_empty t.access_token ≡ false
        → (c : Client W) → Valid t.access_token c.world
        → Reaches Good (granted settings api t c)
    unfolding outside
    granted-Good t e c v =
        if_cases (λ (m : Call W Str). Reaches Good (m c)) (is_empty t.access_token) _ _
          (λ h. ground (arith, e, h)) (λ h. issuing.lasting t.access_token c.world v)

    token_reply-Good :
        (r : HttpReply TokenRep) (c : Client W)
        → Issues (r, c.world)
        → Reaches Good (token_reply settings api r c)
    token_reply-Good no_reply c h = h
    token_reply-Good (replied status none) c h = absurd h
    token_reply-Good (replied status (some t)) c h =
        if_cases (λ (m : Call W Str). Reaches Good (m c)) (is_success status) _ _
          (λ y. granted-Good t h.1 c h.2) (λ n. ground (arith, h.0, n))

    new_token-Good : (c : Client W) → Reaches Good (new_token settings api c)
    unfolding new_token outside
    new_token-Good c =
        reached_in_turn (λ secret d. Unit {0}) (Reaches Good)
          (on_host (load api.host settings.client_secret)) _ c
          (Gives-Reaches (λ secret. Unit {0}) _
            (on_host-Delivers settings api (load api.host settings.client_secret) issuing.loads c))
          λ secret d u.
            token_reply-Good _ _ (issuing.issues (token_form settings.client_id secret) d.world)

    module _ {A : Type 0} (P : A → Type 0) (send : Str → W → HttpReply A × W)
        (served : (t : Str) (w : W) → Valid t w → Answers P (send t w).0)
        (known : (t : Str) (w : W) → Answers P (send t w).0 ⊎ Refuses (send t w).0) where
      -- The second attempt, for which no token is kept.
      second-Delivers :
          (c : Client W) → c.access_token ≡ [] → Gives (Holds P) (attempts settings api 1 1 send c)
      unfolding attempts token outside
      second-Delivers c e =
          reached_in_turn Good (Gives (Holds P)) (token settings api) _ c
            (subst (Reaches Good) (sym (if_true (is_empty c.access_token) _ _ (ground (arith, e))))
              (new_token-Good c))
            λ t d v. judged-Delivers settings api is_granting P 1 _ _ (served t d.world v) _

      first-Delivers :
          (r : HttpReply A) (c : Client W)
          → Answers P r ⊎ Refuses r
          → Gives (Holds P) (judged settings api 0 (attempts settings api 1 1 send) r c)
      unfolding invalidate_token
      first-Delivers r c (inl h) =
          judged-Delivers settings api is_granting P 0 (attempts settings api 1 1 send) r h c
      first-Delivers no_reply c (inr h) = absurd h
      first-Delivers (replied status body) c (inr h) =
          subst (λ (m : Call W (Option A)). Gives (Holds P) (m c))
            (sym (if_true (status == 401 && (◌==◌ {A = ℕ} 0 0)) _ _ (ground (arith, h))))
            (second-Delivers _ refl)

    -- Where the client's secret can be loaded, and the server issues good tokens, which no look at the
    -- clock revokes, serves every request with a good one, and serves the others or refuses them as
    -- unauthorized, a request has its answer from every state of the client, also where the token that
    -- the client keeps is not good any more.
    pub get_optional-Delivers :
        {A : Type 0} (P : A → Type 0) (endpoint : Str → Query → Str → W → HttpReply A × W)
        (path : Str) (query : Query)
        → ((t : Str) (w : W)
            → Valid t w
            → Answers P (endpoint (settings.base_url ++ path) query t w).0)
        → ((t : Str) (w : W)
            → Answers P (endpoint (settings.base_url ++ path) query t w).0
              ⊎ Refuses (endpoint (settings.base_url ++ path) query t w).0)
        → Delivers (Holds P) (get_optional settings api endpoint path query)
    unfolding get_optional attempts outside
    get_optional-Delivers P endpoint path query served known =
        let send = endpoint (settings.base_url ++ path) query in
        given_in_turn (λ t. Unit {0}) (Holds P) (token settings api) _
          (token-Delivers settings api is_granting)
          λ t u c. first-Delivers P send served known (send t c.world).0 _ (known t c.world)
