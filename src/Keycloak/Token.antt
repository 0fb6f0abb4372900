-- ===== src/Keycloak/Token.antt =====
-- internal/source/keycloak/client.go: the access token, and the requests that carry it.
use group_bridge.Base.{
  ℕ, zero, suc, ◌+◌, ◌&&◌, Option, none, some, ◌++◌, [], ◌==◌, if◌then◌else◌, number_eq, Str,
  is_empty, ℤ,
}
use group_bridge.Base.Exec.{ok, pure, fail, ◌>>=◌, ◌>>◌}
use group_bridge.Base.Clock.{seconds, later, is_fresh}
use group_bridge.Credential.Loading.{load}
use group_bridge.Gitlab.Api.{is_success}
use group_bridge.Keycloak.Urls.{Query, token_url, token_form}
use group_bridge.Keycloak.Api.{
  TokenRep, HttpReply, no_reply, replied, Keycloak, SourceError, Settings, Call, outside, on_host,
}

module _ {W : Type 0} (settings : Settings) (api : Keycloak W) where
  abbrev pub holding : Str → Option ℤ → Call W Str
  holding token expiry c = (ok token, record c { access_token = token; token_expiry = expiry })

  abbrev pub granted : TokenRep → Call W Str
  granted t =
      if is_empty t.access_token
      then fail SourceError.empty_token
      else (outside api.now >>= λ now.
          holding t.access_token (some (later now (seconds t.expires_in))))

  abbrev pub decoded_token : Option TokenRep → Call W Str
  decoded_token none = fail SourceError.undecoded
  decoded_token (some t) = granted t

  abbrev pub token_reply : HttpReply TokenRep → Call W Str
  token_reply no_reply = fail SourceError.no_answer
  token_reply (replied status body) =
      if is_success status then decoded_token body else fail SourceError.bad_token_status

  -- The secret is loaded for every token.
  unfoldable pub new_token : Call W Str
  new_token = do
    secret ← on_host (load api.host settings.client_secret)
    reply ← outside (
        api.post_token (token_url settings.base_url settings.realm)
          (token_form settings.client_id secret))
    token_reply reply

  abbrev pub reused : ℕ → Call W Str
  reused now c = if is_fresh now c.token_expiry then (ok c.access_token, c) else new_token c

  -- The clock is read only where a token is there.
  unfoldable pub token : Call W Str
  token c = if is_empty c.access_token then new_token c else (outside api.now >>= reused) c

  -- `invalidateToken`
  unfoldable pub invalidate_token : Call W (Unit {0})
  invalidate_token c = (ok tt, record c { access_token = []; token_expiry = none })

  module _ {A : Type 0} where
    abbrev pub decoded : Option A → Call W (Option A)
    decoded none = fail SourceError.undecoded
    decoded (some a) = pure (some a)

    -- The answer to an attempt; `next` are the attempts that remain.
    abbrev pub judged : ℕ → Call W (Option A) → HttpReply A → Call W (Option A)
    judged attempt next no_reply = fail SourceError.no_answer
    judged attempt next (replied status body) =
        if status == 401 && attempt == 0
        then (invalidate_token >> next)
        else if status == 404
        then pure none
        else if is_success status
        then decoded body
        else fail SourceError.bad_status

    unfoldable pub attempts : ℕ → ℕ → (Str → W → HttpReply A × W) → Call W (Option A)
    attempts zero attempt send = fail SourceError.unauthenticated
    attempts (suc left) attempt send =
        let next = attempts left (attempt + 1) send in
        token >>= λ t. outside (send t) >>= judged attempt next

    -- `getOptional`, with `none` for what is not found.
    unfoldable pub get_optional :
        (Str → Query → Str → W → HttpReply A × W) → Str → Query → Call W (Option A)
    get_optional endpoint path query = attempts 2 0 (endpoint (settings.base_url ++ path) query)

    abbrev pub required : Option A → Call W A
    required none = fail SourceError.not_found
    required (some a) = pure a

    unfoldable pub get : (Str → Query → Str → W → HttpReply A × W) → Str → Query → Call W A
    get endpoint path query = get_optional endpoint path query >>= required
