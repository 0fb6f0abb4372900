-- ===== src/Vault/Complete.antt =====
-- The check of a group's access passes wherever Vault holds all that the access needs.
use group_bridge.Base.{
  ◌≡◌, refl, sym, subst, Bool, true, false, not, ◌&&◌, Option, none, some, List, [], ◌∷◌, ◌==◌,
  if_cases, if_true, number_eq, Str, str_eq, bytes, is_empty, length, arith,
}
use group_bridge.Base.Map.{Map}
use group_bridge.Base.Exec.{◌>>=◌}
use group_bridge.Base.Outcomes.{Delivers, given_in_turn, known_in_turn}
use group_bridge.Model.{AccessSyncRequest, AccessResult}
use group_bridge.Vault.Api.{
  MountInfo, VaultGroup, VaultAlias, RawReply, Vault, VaultError, Settings, Call,
}
use group_bridge.Vault.Policy.{hash_policy}
use group_bridge.Vault.Session.{request}
use group_bridge.Vault.Access.{
  oidc_name, mount_name, auth_url, mount_url, policy_url, group_url, lookup_url, is_oidc_mount,
  fields_match, is_only, expected_metadata, is_alias_of, validate_git_ops_group, required, provided,
  only_linked, linked, discover_runtime, verify_policy, get_group_by_name, lookup_alias,
  with_runtime, sync_access_group,
}
use group_bridge.Vault.Provisioned.{
  View, IsOidcMount, IsKvMount, IsOwned, IsAliasOf, name_of, policy_of, IsProvisioned,
  IsOidcMount-is_oidc_mount, IsKvMount-is_kv_mount, HasFields-fields_match, IsAliasOf-is_alias_of,
}
use group_bridge.Vault.Answering.{IsAnswering, Tells, request-Told}

module _ {W : Type 0} (settings : Settings) (api : Vault W) (view : View)
    (answering : IsAnswering api view) where
  required-given :
      {A : Type 0} (e : VaultError) (o : Option A) (a : A)
      → o ≡ some a
      → Delivers (λ b. b ≡ a) (required {W = W} e o)
  required-given e none a h c = ground arith
  required-given e (some b) a h c = ground (arith, h)

  -- A request for what is there, and what follows it.
  pub fetched :
      {A B : Type 0} (e : VaultError) (o : Option A) (a : A) (endpoint : Str → W → RawReply A × W)
      → ((t : Str) (w : W) → Tells o (endpoint t w).0)
      → o ≡ some a
      → (Q : B → Type 0) (f : A → Call W B) → Delivers Q (f a)
      → Delivers Q (request settings api endpoint >>= λ o. required e o >>= f)
  fetched e o a endpoint tells h Q f g =
      known_in_turn Q o (request settings api endpoint) _
        (request-Told settings api view answering o endpoint tells)
        (known_in_turn Q a (required e o) f (required-given e o a h) g)

  provided-given :
      {A : Type 0} (t : Bool) (e : VaultError) (a : A)
      → t ≡ true
      → Delivers (λ b. b ≡ a) (provided {W = W} t e a)
  provided-given true e a h = λ c. refl
  provided-given false e a h = λ c. ground arith

  validate_git_ops_group-given :
      (g : VaultGroup) (name : Str) (metadata : Map Str Str)
      → IsOwned name metadata g
      → Delivers (λ u. Unit {0}) (validate_git_ops_group {W = W} g name metadata)
  unfolding validate_git_ops_group
  validate_git_ops_group-given g name metadata h =
      if_cases (Delivers (λ u. Unit {0})) (not (g.name == name && g.kind == bytes "external")) _ _
        (λ y c. ground (arith, h.0, h.1, y))
        λ named.
          if_cases (Delivers (λ u. Unit {0})) (not (is_only name g.policies)) _ _
            (λ y c. absurd (let p = only_given name g.policies h.2 in ground (arith, p, y)))
            λ only.
              if_cases (Delivers (λ u. Unit {0}))
                (not (length g.metadata == length metadata && fields_match metadata g.metadata)) _ _
                (λ y c. absurd (
                  let p = HasFields-fields_match metadata g.metadata h.4 in
                  ground (arith, h.3, p, y)))
                λ matched c. tt
    where
      only_given : (s : Str) (ts : List Str) → ts ≡ s ∷ [] → is_only s ts ≡ true
      only_given s [] e = ground (arith, e)
      only_given s (t ∷ []) e = ground (arith, e)
      only_given s (t ∷ u ∷ ts) e = ground (arith, e)

  linked-given :
      (name accessor : Str) (g : VaultGroup) (f : VaultGroup × VaultAlias)
      → IsAliasOf name accessor g f
      → Delivers (λ u. Unit {0}) (linked {W = W} name accessor g (some f))
  linked-given name accessor g f h =
      subst (Delivers (λ u. Unit {0}))
        (sym
          (if_true (is_alias_of name accessor g f) _ _ (IsAliasOf-is_alias_of name accessor g f h)))
        (λ c. tt)

  only_linked-given :
      (name accessor : Str) (g : VaultGroup) (f : VaultGroup × VaultAlias)
      → IsAliasOf name accessor g f
      → Delivers (λ x. x ≡ some f) (only_linked {W = W} (some f))
  only_linked-given name accessor g (found, a) h =
      if_cases (Delivers (λ x. x ≡ some (found, a))) (is_empty found.id && is_empty a.id) _ _
        (λ y c. absurd (ground (arith, h.1, y))) (λ n c. refl)

  -- The discovery finds the accessor of the login mount and the name of the secret mount.
  discover_runtime-given :
      (auth kv : MountInfo)
      → view.mount (auth_url settings) ≡ some auth
      → IsOidcMount (oidc_name settings) auth
      → view.mount (mount_url settings) ≡ some kv
      → IsKvMount (mount_name settings) kv
      → Delivers (λ r. r ≡ (auth.accessor, mount_name settings)) (discover_runtime settings api)
  unfolding discover_runtime
  discover_runtime-given auth kv auth_there auth_fits kv_there kv_fits =
      fetched VaultError.not_found (view.mount (auth_url settings)) auth
        (api.get_mount (auth_url settings)) (answering.mounts (auth_url settings)) auth_there
        (λ r. r ≡ (auth.accessor, mount_name settings)) _
        (known_in_turn (λ r. r ≡ (auth.accessor, mount_name settings)) auth
          (provided (is_oidc_mount (oidc_name settings) auth) VaultError.no_oidc_mount auth) _
          (provided-given _ VaultError.no_oidc_mount auth
            (IsOidcMount-is_oidc_mount (oidc_name settings) auth auth_fits))
          (fetched VaultError.not_found (view.mount (mount_url settings)) kv
            (api.get_mount (mount_url settings)) (answering.mounts (mount_url settings)) kv_there
            (λ r. r ≡ (auth.accessor, mount_name settings)) _
            (provided-given _ VaultError.no_kv_mount (auth.accessor, mount_name settings)
              (IsKvMount-is_kv_mount (mount_name settings) kv kv_fits))))

  verify_policy-given :
      (name expected : Str)
      → view.policy (policy_url settings name) ≡ some expected
      → Delivers (λ u. Unit {0}) (verify_policy settings api name expected)
  unfolding verify_policy
  verify_policy-given name expected there =
      fetched VaultError.no_policy (view.policy (policy_url settings name)) expected
        (api.get_policy (policy_url settings name)) (answering.policies (policy_url settings name))
        there (λ u. Unit {0}) _
        (if_cases (Delivers (λ u. Unit {0})) (expected == expected) _ _ (λ y c. tt)
          (λ n c. absurd (ground (arith, n))))

  lookup_alias-given :
      (name accessor : Str) (g : VaultGroup) (f : VaultGroup × VaultAlias)
      → view.alias (lookup_url settings) name accessor ≡ some f
      → IsAliasOf name accessor g f
      → Delivers (λ x. x ≡ some f) (lookup_alias settings api name accessor)
  unfolding lookup_alias
  lookup_alias-given name accessor g f there fits =
      known_in_turn (λ x. x ≡ some f) (some f)
        (request settings api (api.lookup_group (lookup_url settings) name accessor)) only_linked
        (subst
          (λ o.
            Delivers (λ x. x ≡ o)
              (request settings api (api.lookup_group (lookup_url settings) name accessor)))
          there
          (request-Told settings api view answering _
            (api.lookup_group (lookup_url settings) name accessor)
            (answering.aliases (lookup_url settings) name accessor)))
        (only_linked-given name accessor g f fits)

  abbrev pub Converges : AccessResult → Type 0
  Converges r = (r.verified_policy ≡ true) × (r.converged ≡ true)

  with_runtime-given :
      (req : AccessSyncRequest) (p : IsProvisioned settings view req)
      → Delivers Converges (with_runtime settings api req (p.auth.accessor, mount_name settings))
  unfolding get_group_by_name
  with_runtime-given req p =
      let name = name_of settings req in
      let policy = policy_of settings req in
      let metadata = expected_metadata req (hash_policy settings.hash policy) in
      let alias = req.source_group.path in
      given_in_turn (λ u. Unit {0}) Converges (verify_policy settings api name policy) _
        (verify_policy-given name policy p.policy_there)
        λ u v.
          fetched VaultError.no_group (view.group (group_url settings name)) p.group
            (api.get_group (group_url settings name)) (answering.groups (group_url settings name))
            p.group_there Converges _
            (given_in_turn (λ u. Unit {0}) Converges (validate_git_ops_group p.group name metadata)
              _ (validate_git_ops_group-given p.group name metadata p.group_fits)
              λ u v.
                known_in_turn Converges (some p.found)
                  (lookup_alias settings api alias p.auth.accessor) _
                  (lookup_alias-given alias p.auth.accessor p.group p.found p.alias_there
                    p.alias_fits)
                  (given_in_turn (λ u. Unit {0}) Converges
                    (linked alias p.auth.accessor p.group (some p.found)) _
                    (linked-given alias p.auth.accessor p.group p.found p.alias_fits)
                    (λ u v c. (refl, refl))))

  -- Where the client can log in and the server answers from what Vault holds, the check of a
  -- request that asks for a check alone passes if Vault holds all that the access needs.
  pub sync_access_group-Converges :
      (req : AccessSyncRequest)
      → req.policy_mode ≡ bytes "verify-only"
      → IsProvisioned settings view req
      → Delivers Converges (sync_access_group settings api req)
  unfolding sync_access_group
  sync_access_group-Converges req mode p =
      if_cases (Delivers Converges) (req.policy_mode == bytes "verify-only") _ _
        (λ y.
          known_in_turn Converges (p.auth.accessor, mount_name settings)
            (discover_runtime settings api) (with_runtime settings api req)
            (discover_runtime-given p.auth p.kv p.auth_there p.auth_fits p.kv_there p.kv_fits)
            (with_runtime-given req p))
        (λ n. absurd (ground (arith, mode, n)))
