-- ===== src/Vault/Sound.antt =====
-- The check of a group's access passes only where Vault holds all that the access needs.
use group_bridge.Base.{
  ◌≡◌, refl, sym, ◌∙◌, ap, subst, true, some, ◌==◌, if_cases, number_eq, Str, str_eq, bytes, arith,
}
use group_bridge.Base.Outcomes.{Ensures, in_turn, same_in_turn}
use group_bridge.Model.{AccessSyncRequest, AccessResult}
use group_bridge.Vault.Api.{MountInfo, VaultGroup, VaultAlias, Vault, VaultError, Settings}
use group_bridge.Vault.Policy.{hash_policy}
use group_bridge.Vault.Session.{request}
use group_bridge.Vault.Access.{
  oidc_name, mount_name, auth_url, mount_url, policy_url, group_url, lookup_url, is_oidc_mount,
  is_kv_mount, expected_metadata, validate_git_ops_group, provided, only_linked, linked,
  discover_runtime, verify_policy, get_group_by_name, lookup_alias, with_runtime, sync_access_group,
}
use group_bridge.Vault.Provisioned.{
  View, IsTruthful, IsOwned, IsAliasOf, name_of, policy_of, IsProvisioned,
  is_oidc_mount-IsOidcMount, is_kv_mount-IsKvMount,
}
use group_bridge.Vault.Shown.{
  found-then, request-Shown, provided-so, validate_git_ops_group-IsOwned, only_linked-there,
  linked-IsAliasOf, IsRuntime,
}

module _ {W : Type 0} (settings : Settings) (api : Vault W) where
  module _ (view : View) (truthful : IsTruthful api view) where
    discover_runtime-IsRuntime :
        Ensures (IsRuntime settings api view) (discover_runtime settings api)
    unfolding discover_runtime
    discover_runtime-IsRuntime =
        found-then settings api VaultError.not_found (view.mount (auth_url settings))
          (api.get_mount (auth_url settings)) (truthful.mounts (auth_url settings))
          (IsRuntime settings api view) _
          λ auth there.
            in_turn (λ b. (auth ≡ b) × (is_oidc_mount (oidc_name settings) auth ≡ true))
              (IsRuntime settings api view)
              (provided (is_oidc_mount (oidc_name settings) auth) VaultError.no_oidc_mount auth) _
              (provided-so settings api _ VaultError.no_oidc_mount auth)
              λ checked fits.
                found-then settings api VaultError.not_found (view.mount (mount_url settings))
                  (api.get_mount (mount_url settings)) (truthful.mounts (mount_url settings))
                  (IsRuntime settings api view) _
                  λ kv kv_there.
                    if_cases (Ensures (IsRuntime settings api view))
                      (is_kv_mount (mount_name settings) kv) _ _
                      (λ y c. record {
                        auth = auth;
                        auth_there = there;
                        auth_fits = is_oidc_mount-IsOidcMount (oidc_name settings) auth fits.1;
                        kv = kv;
                        kv_there = kv_there;
                        kv_fits = is_kv_mount-IsKvMount (mount_name settings) kv y;
                        is_accessor = ap (λ (m : MountInfo). m.accessor) (sym fits.0);
                        is_mount = refl;
                      })
                      (λ n c. tt)

    verify_policy-there :
        (name expected : Str)
        → Ensures
            (λ u. view.policy (policy_url settings name) ≡ some expected)
            (verify_policy settings api name expected)
    unfolding verify_policy
    verify_policy-there name expected =
        let there = view.policy (policy_url settings name) in
        found-then settings api VaultError.no_policy there
          (api.get_policy (policy_url settings name)) (truthful.policies (policy_url settings name))
          (λ u. there ≡ some expected) _
          λ policy f.
            if_cases (Ensures (λ u. there ≡ some expected)) (policy == expected) _ _
              (λ y c. f ∙ ap (λ p. some p) (ground (arith, y))) (λ n c. tt)

    lookup_alias-there :
        (name accessor : Str)
        → Ensures
            (λ x.
              (f : VaultGroup × VaultAlias)
              → x ≡ some f
              → view.alias (lookup_url settings) name accessor ≡ some f)
            (lookup_alias settings api name accessor)
    unfolding lookup_alias
    lookup_alias-there name accessor =
        let there = view.alias (lookup_url settings) name accessor in
        let lookup = api.lookup_group (lookup_url settings) name accessor in
        same_in_turn (λ x. (f : VaultGroup × VaultAlias) → x ≡ some f → there ≡ some f) there
          (request settings api lookup) only_linked
          (request-Shown settings api there lookup
            (truthful.aliases (lookup_url settings) name accessor))
          (only_linked-there settings api there)

    -- What a check that passes tells.
    abbrev pub Passed : AccessSyncRequest → AccessResult → Type 0
    Passed req r =
        (r.verified_policy ≡ true) × (r.converged ≡ true) × IsProvisioned settings view req

    -- The check of a group's access at the runtime that was discovered.
    checked-Passed :
        (req : AccessSyncRequest) (r : Str × Str) (i : IsRuntime settings api view r)
        → Ensures
            (Passed req)
            (with_runtime settings api req (i.auth.accessor, mount_name settings))
    unfolding get_group_by_name
    checked-Passed req r i =
        let name = name_of settings req in
        let policy = policy_of settings req in
        let metadata = expected_metadata req (hash_policy settings.hash policy) in
        let alias = req.source_group.path in
        let policy_there = view.policy (policy_url settings name) in
        let group_there = view.group (group_url settings name) in
        let alias_there = view.alias (lookup_url settings) alias i.auth.accessor in
        in_turn (λ u. policy_there ≡ some policy) (Passed req)
          (verify_policy settings api name policy) _ (verify_policy-there name policy)
          λ u at_policy.
            found-then settings api VaultError.no_group group_there
              (api.get_group (group_url settings name)) (truthful.groups (group_url settings name))
              (Passed req) _
              λ g some_group.
                in_turn (λ u. IsOwned name metadata g) (Passed req)
                  (validate_git_ops_group g name metadata) _
                  (validate_git_ops_group-IsOwned settings api g name metadata)
                  λ u owned.
                    in_turn (λ x. (f : VaultGroup × VaultAlias) → x ≡ some f → alias_there ≡ some f)
                      (Passed req) (lookup_alias settings api alias i.auth.accessor) _
                      (lookup_alias-there alias i.auth.accessor)
                      λ x linked_there.
                        in_turn
                          (λ u.
                            (f : VaultGroup × VaultAlias) × (x ≡ some f)
                            × IsAliasOf alias i.auth.accessor g f)
                          (Passed req) (linked alias i.auth.accessor g x) _
                          (linked-IsAliasOf settings api alias i.auth.accessor g x)
                          λ u found c. (
                            refl,
                            refl,
                            record {
                              auth = i.auth;
                              auth_there = i.auth_there;
                              auth_fits = i.auth_fits;
                              kv = i.kv;
                              kv_there = i.kv_there;
                              kv_fits = i.kv_fits;
                              policy_there = at_policy;
                              group = g;
                              group_there = some_group;
                              group_fits = owned;
                              found = found.0;
                              alias_there = linked_there found.0 found.1;
                              alias_fits = found.2;
                            },
                          )

    with_runtime-Passed :
        (req : AccessSyncRequest) (r : Str × Str)
        → IsRuntime settings api view r
        → Ensures (Passed req) (with_runtime settings api req r)
    with_runtime-Passed req (accessor, mount) i =
        subst (λ a. Ensures (Passed req) (with_runtime settings api req (a, mount)))
          (sym i.is_accessor)
          (subst (λ m. Ensures (Passed req) (with_runtime settings api req (i.auth.accessor, m)))
            (sym i.is_mount) (checked-Passed req (accessor, mount) i))

    -- Where the server shows what Vault holds whenever it answers, the check of a group's access
    -- passes only if Vault holds all that the access needs: the login mount, the secret mount, the
    -- policy with the expected text, the external group with that policy alone and the expected
    -- metadata, and its alias for the path of the source's group.
    pub sync_access_group-Passed :
        (req : AccessSyncRequest) → Ensures (Passed req) (sync_access_group settings api req)
    unfolding sync_access_group
    sync_access_group-Passed req =
        if_cases (Ensures (Passed req)) (req.policy_mode == bytes "verify-only") _ _
          (λ y.
            in_turn (IsRuntime settings api view) (Passed req) (discover_runtime settings api)
              (with_runtime settings api req) discover_runtime-IsRuntime (with_runtime-Passed req))
          (λ n c. tt)
