-- ===== src/Gitlab/Settle.antt =====
-- internal/provider/gitlab/client.go: the part of `SyncGroup` that adds and updates members.
use group_bridge.Base.{
  ℕ, ◌+◌, Bool, true, false, not, ◌&&◌, ◌||◌, Option, none, some, List, [], ◌∷◌, ◌==◌,
  if◌then◌else◌, number_eq, str_eq, bytes, ltb,
}
use group_bridge.Base.Map.{Map, lookup, insert}
use group_bridge.Base.Exec.{pure, fail, ◌>>=◌, ◌>>◌}
use group_bridge.Model.{User, SyncRequest, SyncResult}
use group_bridge.State.Operations.{is_managed, mark_managed, reset_absent}
use group_bridge.Gitlab.Api.{Member, GitUser, Api, SyncError, Client, Call, itoa, on_store}
use group_bridge.Gitlab.Users.{find_user}
use group_bridge.Gitlab.Members.{add_member, get_member, update_member}
use group_bridge.Gitlab.Terms.{owner_level, Options, is_managed_only}

module _ {W : Type 0} (api : Api W) (o : Options) where
  unfoldable pub resolve_all :
      SyncRequest → List User → Map ℕ GitUser → ℕ → Call W (Map ℕ GitUser × ℕ)
  resolve_all req [] desired unresolved = pure (desired, unresolved)
  resolve_all req (u ∷ us) desired unresolved = do
    found ← find_user api o.lookup_by u req.identity_match
    elim found [
      | none ↦ resolve_all req us desired (unresolved + 1)
      | some t ↦
          if t.state == bytes "active"
          then resolve_all req us (insert t.id t desired) unresolved
          else resolve_all req us desired (unresolved + 1)
    ]

  unfoldable pub add_verified : ℕ → ℕ → ℕ → Call W (Unit {0})
  add_verified group_id id level = do
    add_member api group_id id level
    verified ← get_member api group_id id
    elim verified [
      | none ↦ fail SyncError.unverified
      | some m ↦
          if ltb m.access_level level
          then fail SyncError.unverified
          else on_store api (λ f. mark_managed f o.ownership_key (itoa group_id) (itoa id))
    ]

  unfoldable pub update_verified : ℕ → ℕ → ℕ → Call W (Unit {0})
  update_verified group_id id level = do
    update_member api group_id id level
    verified ← get_member api group_id id
    elim verified [
      | none ↦ fail SyncError.unverified
      | some m ↦ if m.access_level == level then pure tt else fail SyncError.unverified
    ]

  abbrev pub managed : ℕ → ℕ → Client W → Bool
  managed group_id id c = is_managed o.ownership_key (itoa group_id) (itoa id) c.store

  abbrev pub change_level : SyncRequest → ℕ → ℕ → Member → Call W Bool
  change_level req group_id level m c =
      if is_managed_only req && not (managed group_id m.id c)
      then fail SyncError.predates c
      else (update_verified group_id m.id level >> pure true) c

  -- A custom role is left alone: an update could discard it.
  abbrev pub adjust_role : SyncRequest → ℕ → ℕ → Member → Option ℕ → Call W Bool
  adjust_role req group_id level m (some role) =
      if ltb m.access_level level || (req.enforce_access_level && not (m.access_level == level))
      then fail SyncError.custom_role
      else pure false
  adjust_role req group_id level m none =
      if ltb m.access_level level
        || (req.enforce_access_level
            && not (m.access_level == level)
            && ltb m.access_level owner_level)
      then change_level req group_id level m
      else pure false

  -- A member that is there already: whether the level was changed.
  unfoldable pub adjust : SyncRequest → ℕ → ℕ → Member → Call W Bool
  adjust req group_id level m = adjust_role req group_id level m m.member_role_id

  abbrev pub settle_member :
      SyncRequest → ℕ → ℕ → ℕ → Option Member → SyncResult → Call W SyncResult
  settle_member req group_id level id none x = do
    add_verified group_id id level
    pure (record x { added = x.added + 1 })
  settle_member req group_id level id (some m) x = do
    changed ← adjust req group_id level m
    pure (if changed then record x { updated = x.updated + 1 } else x)

  unfoldable pub settle_all :
      SyncRequest → ℕ → ℕ → Map ℕ Member → Map ℕ GitUser → SyncResult → Call W SyncResult
  settle_all req group_id level existing [] x = pure x
  settle_all req group_id level existing ((id, u) ∷ rest) x = do
    on_store api (λ f. reset_absent f o.ownership_key (itoa group_id) (itoa id))
    y ← settle_member req group_id level id (lookup id existing) x
    settle_all req group_id level existing rest y
