-- ===== src/Vault/Answering.antt =====
-- A server that lets the client log in and answers, and what a request has of it.
use group_bridge.Base.{
  ℕ, ◌≡◌, refl, ap, true, false, Option, none, some, ◌==◌, if_cases, number_eq, Str, str_eq,
  is_empty, arith,
}
use group_bridge.Base.Exec.{Result}
use group_bridge.Base.Outcomes.{Gives, Delivers, given_in_turn}
use group_bridge.Base.Clock.{is_fresh}
use group_bridge.Gitlab.Api.{is_success}
use group_bridge.Vault.Api.{
  LoginRep, RawReply, failed, answered, Vault, VaultError, Settings, Client, Call, outside,
}
use group_bridge.Vault.Session.{
  is_bad_jwt, logged_in, with_jwt, login_locked, ensure_token, clear_token, received, send, judged,
  retried, request,
}
use group_bridge.Vault.Provisioned.{View}

-- A file with a token of the service account.
abbrev pub Readable : Option Str → Type 0
Readable none = ⊥
Readable (some jwt) = is_bad_jwt jwt ≡ false

abbrev pub Admits : RawReply LoginRep → Type 0
Admits failed = ⊥
Admits (answered status auth) = (is_success status ≡ true) × (is_empty auth.client_token ≡ false)

-- The answer has what is there, or is that nothing is.
abbrev pub Tells : {A : Type 0} → Option A → RawReply A → Type 0
Tells o failed = ⊥
Tells none (answered status a) = status ≡ 404
Tells (some b) (answered status a) = (is_success status ≡ true) × (a ≡ b)

-- A server that lets the client log in and answers every request from what Vault holds.
pub record IsAnswering {W : Type 0} (api : Vault W) (view : View) : Type 0 where
  pub jwt : (path : Str) (w : W) → Readable (api.read_jwt path w).0
  pub logins : (url role jwt : Str) (w : W) → Admits (api.login url role jwt w).0
  pub mounts : (url t : Str) (w : W) → Tells (view.mount url) (api.get_mount url t w).0
  pub policies : (url t : Str) (w : W) → Tells (view.policy url) (api.get_policy url t w).0
  pub groups : (url t : Str) (w : W) → Tells (view.group url) (api.get_group url t w).0
  pub aliases :
      (url name accessor t : Str) (w : W)
      → Tells (view.alias url name accessor) (api.lookup_group url name accessor t w).0

module _ {W : Type 0} (settings : Settings) (api : Vault W) (view : View)
    (answering : IsAnswering api view) where
  logged_in-Delivers :
      (r : RawReply LoginRep) → Admits r → Delivers (λ t. Unit {0}) (logged_in settings api r)
  unfolding outside
  logged_in-Delivers failed h c = absurd h
  logged_in-Delivers (answered status auth) h c =
      if_cases (λ (m : Call W Str). Gives (λ t. Unit {0}) (m c)) (is_success status) _ _
        (λ y.
          if_cases (λ (m : Call W Str). Gives (λ t. Unit {0}) (m c)) (is_empty auth.client_token) _
            _ (λ n. ground (arith, h.1, n)) (λ n. tt))
        (λ n. ground (arith, h.0, n))

  with_jwt-Delivers :
      (o : Option Str) → Readable o → Delivers (λ t. Unit {0}) (with_jwt settings api o)
  unfolding outside
  with_jwt-Delivers none h c = absurd h
  with_jwt-Delivers (some jwt) h c =
      if_cases (λ (m : Call W Str). Gives (λ t. Unit {0}) (m c)) (is_bad_jwt jwt) _ _
        (λ y. ground (arith, h, y)) (λ n. logged_in-Delivers _ (answering.logins _ _ _ c.world) _)

  login_locked-Delivers : Delivers (λ t. Unit {0}) (login_locked settings api)
  unfolding login_locked outside
  login_locked-Delivers c = with_jwt-Delivers _ (answering.jwt _ c.world) _

  ensure_token-Delivers : Delivers (λ t. Unit {0}) (ensure_token settings api)
  unfolding ensure_token outside
  ensure_token-Delivers c =
      if_cases (λ (r : Result VaultError Str × Client W). Gives (λ t. Unit {0}) r)
        (is_empty c.token) _ _ (λ y. login_locked-Delivers c)
        (λ n.
          if_cases (λ (r : Result VaultError Str × Client W). Gives (λ t. Unit {0}) r)
            (is_fresh (api.now c.world).0 c.expires_at) _ _ (λ y. tt)
            (λ m. login_locked-Delivers _))

  clear_token-Delivers : (t : Str) → Delivers (λ u. Unit {0}) (clear_token settings api t)
  unfolding clear_token
  clear_token-Delivers t c = tt

  module _ {A : Type 0} (o : Option A) (endpoint : Str → W → RawReply A × W)
      (tells : (t : Str) (w : W) → Tells o (endpoint t w).0) where
    abbrev Told : Option A → ℕ × A → Type 0
    Told none (status, a) = status ≡ 404
    Told (some b) (status, a) = (is_success status ≡ true) × (a ≡ b)

    send-Told : (t : Str) → Delivers (Told o) (send settings api endpoint t)
    unfolding outside
    send-Told t c = of_reply o (endpoint t c.world).0 _ (tells t c.world)
      where
        of_reply :
            (o : Option A) (r : RawReply A) (d : Client W)
            → Tells o r
            → Gives (Told o) (received settings api r d)
        of_reply none failed d s = absurd s
        of_reply (some b) failed d s = absurd s
        of_reply none (answered status a) d s = s
        of_reply (some b) (answered status a) d s = s

    judged-Told :
        (o : Option A) (r : ℕ × A) → Told o r → Delivers (λ x. x ≡ o) (judged settings api r)
    judged-Told none (status, a) h c =
        if_cases (λ (m : Call W (Option A)). Gives (λ x. x ≡ none) (m c)) (status == 404) _ _
          (λ y. refl) (λ n. absurd (ground (arith, h, n)))
    judged-Told (some b) (status, a) h c =
        if_cases (λ (m : Call W (Option A)). Gives (λ x. x ≡ some b) (m c)) (status == 404) _ _
          (λ y. absurd (ground (arith, h.0, y)))
          (λ n.
            if_cases (λ (m : Call W (Option A)). Gives (λ x. x ≡ some b) (m c)) (is_success status)
              _ _ (λ y. ap (λ a. some a) h.1) (λ m. absurd (ground (arith, h.0, m))))

    -- A request has what is there.
    pub request-Told : Delivers (λ x. x ≡ o) (request settings api endpoint)
    unfolding request
    request-Told =
        given_in_turn (λ t. Unit {0}) (λ x. x ≡ o) (ensure_token settings api) _
          ensure_token-Delivers
          λ t u.
            given_in_turn (Told o) (λ x. x ≡ o) (send settings api endpoint t) _ (send-Told t)
              λ reply s.
                given_in_turn (Told o) (λ x. x ≡ o) (retried settings api endpoint t reply)
                  (judged settings api) (again t reply s) (judged-Told o)
      where
        again :
            (t : Str) (reply : ℕ × A)
            → Told o reply
            → Delivers (Told o) (retried settings api endpoint t reply)
        again t (status, a) s =
            if_cases (Delivers (Told o)) (status == 403) _ _
              (λ y.
                given_in_turn (λ u. Unit {0}) (Told o) (clear_token settings api t) _
                  (clear_token-Delivers t)
                  λ u v.
                    given_in_turn (λ t. Unit {0}) (Told o) (ensure_token settings api) _
                      ensure_token-Delivers (λ t u. send-Told t))
              (λ n c. s)
