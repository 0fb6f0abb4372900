-- ===== src/Vault/Shown.antt =====
-- What the steps of the check tell of Vault where they do not fail.
use group_bridge.Base.{
  ℕ, ◌≡◌, refl, sym, Bool, true, false, not, ◌&&◌, Option, none, some, ◌==◌, if_cases, number_eq,
  Str, str_eq, bytes, is_empty, length, arith,
}
use group_bridge.Base.Map.{Map}
use group_bridge.Base.Exec.{◌>>=◌}
use group_bridge.Base.Outcomes.{Yields, Ensures, anything, in_turn, same_in_turn}
use group_bridge.Gitlab.Api.{is_success}
use group_bridge.Vault.Api.{
  Call, MountInfo, VaultGroup, VaultAlias, RawReply, failed, answered, Vault, VaultError, Settings,
  Client, outside,
}
use group_bridge.Vault.Session.{ensure_token, clear_token, received, send, judged, retried, request}
use group_bridge.Vault.Access.{
  oidc_name, mount_name, auth_url, mount_url, fields_match, is_only, is_alias_of,
  validate_git_ops_group, required, provided, only_linked, linked,
}
use group_bridge.Vault.Provisioned.{
  View, Shows, IsOidcMount, IsKvMount, IsOwned, IsAliasOf, fields_match-HasFields, is_only-eq,
  is_alias_of-IsAliasOf,
}

module _ {W : Type 0} (settings : Settings) (api : Vault W) where
  module _ {A : Type 0} (o : Option A) (endpoint : Str → W → RawReply A × W)
      (shows : (t : Str) (w : W) → Shows o (endpoint t w).0) where
    abbrev Shown : ℕ × A → Type 0
    Shown (status, a) = (is_success status ≡ true → o ≡ some a) × (status ≡ 404 → o ≡ none)

    send-Shown : (t : Str) → Ensures Shown (send settings api endpoint t)
    unfolding outside
    send-Shown t c = of_reply (endpoint t c.world).0 _ (shows t c.world)
      where
        of_reply :
            (r : RawReply A) (d : Client W) → Shows o r → Yields Shown (received settings api r d)
        of_reply failed d s = tt
        of_reply (answered status a) d s = s

    -- A request shows what is there.
    pub request-Shown : Ensures (λ x. x ≡ o) (request settings api endpoint)
    unfolding request
    request-Shown =
        in_turn (λ t. Unit {0}) (λ x. x ≡ o) (ensure_token settings api) _
          (anything (ensure_token settings api))
          λ t u.
            in_turn Shown (λ x. x ≡ o) (send settings api endpoint t) _ (send-Shown t)
              λ reply s.
                in_turn Shown (λ x. x ≡ o) (retried settings api endpoint t reply)
                  (judged settings api) (again t reply s) judgment
      where
        again :
            (t : Str) (reply : ℕ × A)
            → Shown reply
            → Ensures Shown (retried settings api endpoint t reply)
        again t (status, a) s =
            if_cases (Ensures Shown) (status == 403) _ _
              (λ y.
                in_turn (λ u. Unit {0}) Shown (clear_token settings api t) _
                  (anything (clear_token settings api t))
                  λ u v.
                    in_turn (λ t. Unit {0}) Shown (ensure_token settings api) _
                      (anything (ensure_token settings api)) (λ t u. send-Shown t))
              (λ n c. s)

        judgment : (reply : ℕ × A) → Shown reply → Ensures (λ x. x ≡ o) (judged settings api reply)
        judgment (status, a) s =
            if_cases (Ensures (λ x. x ≡ o)) (status == 404) _ _
              (λ y c. sym (s.1 (ground (arith, y))))
              λ n.
                if_cases (Ensures (λ x. x ≡ o)) (is_success status) _ _ (λ y c. sym (s.0 y))
                  (λ m c. tt)

  required-there :
      {A : Type 0} (e : VaultError) (o : Option A)
      → Ensures (λ a. o ≡ some a) (required {W = W} e o)
  required-there e none = λ c. tt
  required-there e (some a) = λ c. refl

  -- A request for what has to be there, and what follows it.
  pub found-then :
      {A B : Type 0} (e : VaultError) (there : Option A) (endpoint : Str → W → RawReply A × W)
      → ((t : Str) (w : W) → Shows there (endpoint t w).0)
      → (Q : B → Type 0) (f : A → Call W B) → ((a : A) → there ≡ some a → Ensures Q (f a))
      → Ensures Q (request settings api endpoint >>= λ o. required e o >>= f)
  found-then e there endpoint shows Q f g =
      same_in_turn Q there (request settings api endpoint) _ (request-Shown there endpoint shows)
        (in_turn (λ a. there ≡ some a) Q (required e there) f (required-there e there) g)

  pub provided-so :
      {A : Type 0} (t : Bool) (e : VaultError) (a : A)
      → Ensures (λ b. (a ≡ b) × (t ≡ true)) (provided {W = W} t e a)
  provided-so true e a = λ c. (refl, refl)
  provided-so false e a = λ c. tt

  pub validate_git_ops_group-IsOwned :
      (g : VaultGroup) (name : Str) (metadata : Map Str Str)
      → Ensures (λ u. IsOwned name metadata g) (validate_git_ops_group {W = W} g name metadata)
  unfolding validate_git_ops_group
  validate_git_ops_group-IsOwned g name metadata =
      if_cases (Ensures (λ u. IsOwned name metadata g))
        (not (g.name == name && g.kind == bytes "external")) _ _ (λ y c. tt)
        λ named.
          if_cases (Ensures (λ u. IsOwned name metadata g)) (not (is_only name g.policies)) _ _
            (λ y c. tt)
            λ only.
              if_cases (Ensures (λ u. IsOwned name metadata g))
                (not (length g.metadata == length metadata && fields_match metadata g.metadata)) _ _
                (λ y c. tt)
                λ matched c. (
                  ground (arith, named),
                  ground (arith, named),
                  is_only-eq name g.policies (ground (arith, only)),
                  ground (arith, matched),
                  fields_match-HasFields metadata g.metadata (ground (arith, matched)),
                )

  pub only_linked-there :
      (o : Option (VaultGroup × VaultAlias))
      → Ensures
          (λ x. (f : VaultGroup × VaultAlias) → x ≡ some f → o ≡ some f)
          (only_linked {W = W} o)
  only_linked-there none = λ c f e. e
  only_linked-there (some (g, a)) =
      if_cases (Ensures (λ x. (f : VaultGroup × VaultAlias) → x ≡ some f → some (g, a) ≡ some f))
        (is_empty g.id && is_empty a.id) _ _ (λ y c f e. ground (arith, e)) (λ n c f e. e)

  pub linked-IsAliasOf :
      (name accessor : Str) (g : VaultGroup) (o : Option (VaultGroup × VaultAlias))
      → Ensures
          (λ u. (f : VaultGroup × VaultAlias) × (o ≡ some f) × IsAliasOf name accessor g f)
          (linked {W = W} name accessor g o)
  linked-IsAliasOf name accessor g none = λ c. tt
  linked-IsAliasOf name accessor g (some f) =
      if_cases
        (Ensures
          (λ u. (h : VaultGroup × VaultAlias) × (some f ≡ some h) × IsAliasOf name accessor g h))
        (is_alias_of name accessor g f) _ _
        (λ y c. (f, refl, is_alias_of-IsAliasOf name accessor g f y)) (λ n c. tt)

  -- What the discovery finds.
  pub record IsRuntime (view : View) (r : Str × Str) : Type 0 where
    pub auth : MountInfo
    pub auth_there : view.mount (auth_url settings) ≡ some auth
    pub auth_fits : IsOidcMount (oidc_name settings) auth
    pub kv : MountInfo
    pub kv_there : view.mount (mount_url settings) ≡ some kv
    pub kv_fits : IsKvMount (mount_name settings) kv
    pub is_accessor : r.0 ≡ auth.accessor
    pub is_mount : r.1 ≡ mount_name settings
