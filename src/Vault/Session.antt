-- ===== src/Vault/Session.antt =====
-- internal/provider/vault/client.go: the login, and the requests that carry its token.
use group_bridge.Base.{
  ℕ, ◌^◌, Bool, ◌||◌, Option, none, some, [], ◌++◌, ◌==◌, if◌then◌else◌, number_eq, Str, str_eq,
  bytes, is_empty, length, ltb, ℤ,
}
use group_bridge.Base.Exec.{ok, pure, fail, ◌>>=◌, ◌>>◌}
use group_bridge.Base.Clock.{seconds, later, is_fresh}
use group_bridge.Reconcile.Paths.{trim, is_slash}
use group_bridge.Credential.Runes.{trim_space}
use group_bridge.Gitlab.Api.{is_success}
use group_bridge.Vault.Api.{
  Options, LoginRep, RawReply, failed, answered, Vault, VaultError, Settings, Call, url_of, outside,
}

abbrev pub is_bad_jwt : Str → Bool
is_bad_jwt jwt = is_empty jwt || ltb (2 ^ 20) (length jwt) || is_empty (trim_space jwt)

abbrev pub login_path : Options → Str
login_path o = bytes "auth/" ++ (trim is_slash o.kubernetes_auth_mount ++ bytes "/login")

module _ {W : Type 0} (settings : Settings) (api : Vault W) where
  abbrev pub holding : Str → Option ℤ → Call W Str
  holding token expiry c = (ok token, record c { token = token; expires_at = expiry })

  abbrev pub logged_in : RawReply LoginRep → Call W Str
  logged_in failed = fail VaultError.no_answer
  logged_in (answered status auth) =
      if is_success status
      then if is_empty auth.client_token
        then fail VaultError.no_login
        else (outside api.now >>= λ now.
            holding auth.client_token (some (later now (seconds auth.lease_duration))))
      else fail VaultError.no_login

  abbrev pub with_jwt : Option Str → Call W Str
  with_jwt none = fail VaultError.no_jwt
  with_jwt (some jwt) =
      if is_bad_jwt jwt
      then fail VaultError.bad_jwt
      else (outside (
            api.login (url_of settings (login_path settings.options))
              settings.options.kubernetes_role (trim_space jwt))
          >>= logged_in)

  -- `loginLocked`
  unfoldable pub login_locked : Call W Str
  login_locked = outside (api.read_jwt settings.options.service_account_token_file) >>= with_jwt

  -- A token that is about to expire is dropped before a new login.
  abbrev pub kept_or_new : ℕ → Call W Str
  kept_or_new now c =
      if is_fresh now c.expires_at then (ok c.token, c) else login_locked (record c { token = [] })

  -- `ensureToken`; the clock is read only where a token is there.
  unfoldable pub ensure_token : Call W Str
  ensure_token c = if is_empty c.token then login_locked c else (outside api.now >>= kept_or_new) c

  -- `clearToken`
  unfoldable pub clear_token : Str → Call W (Unit {0})
  clear_token token c = (ok tt, if c.token == token then record c { token = [] } else c)

  module _ {A : Type 0} where
    abbrev pub received : RawReply A → Call W (ℕ × A)
    received failed = fail VaultError.no_answer
    received (answered status a) = pure (status, a)

    abbrev pub send : (Str → W → RawReply A × W) → Str → Call W (ℕ × A)
    send endpoint token = outside (endpoint token) >>= received

    -- The body, or `none` for not found.
    abbrev pub judged : ℕ × A → Call W (Option A)
    judged (status, a) =
        if status == 404
        then pure none
        else if is_success status
        then pure (some a)
        else fail VaultError.bad_status

    -- After one refusal of the token, the request is sent once more with another.
    abbrev pub retried : (Str → W → RawReply A × W) → Str → ℕ × A → Call W (ℕ × A)
    retried endpoint token (status, a) =
        if status == 403
        then (clear_token token >> (ensure_token >>= send endpoint))
        else pure (status, a)

    -- `request`
    unfoldable pub request : (Str → W → RawReply A × W) → Call W (Option A)
    request endpoint = do
      token ← ensure_token
      reply ← send endpoint token
      final ← retried endpoint token reply
      judged final
