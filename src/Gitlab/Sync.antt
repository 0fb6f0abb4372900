-- ===== src/Gitlab/Sync.antt =====
-- internal/provider/gitlab/client.go: `SyncGroup`.
use group_bridge.Base.{Bool, not, ◌&&◌, [], if◌then◌else◌, number_eq, str_eq, ltb}
use group_bridge.Base.Exec.{pure, fail, ◌>>=◌, ◌>>◌}
use group_bridge.Model.{SyncRequest, SyncResult}
use group_bridge.State.Operations.{group, put_group}
use group_bridge.Gitlab.Api.{GitGroup, Api, SyncError, Call, on_store}
use group_bridge.Gitlab.Groups.{ensure_group}
use group_bridge.Gitlab.Members.{list_members}
use group_bridge.Gitlab.Terms.{
  access_level_of, Options, no_result, state_key_of, bind, is_authoritative, index_members,
}
use group_bridge.Gitlab.Settle.{resolve_all, settle_all}
use group_bridge.Gitlab.Prune.{prune_members}

module _ {W : Type 0} (api : Api W) (o : Options) where
  unfoldable pub sync_direct : SyncRequest → GitGroup → Bool → Call W SyncResult
  sync_direct req target created = do
    members ← list_members api o.fuel target.id
    (desired, unresolved) ← resolve_all api o req req.source_group.members [] 0
    x ←
        settle_all api o req target.id (access_level_of req.access_level) (index_members members [])
          desired (record no_result { created_group = created; unresolved = unresolved })
    if ltb 0 unresolved then pure x else prune_members api o req target.id desired members x

  unfoldable pub sync_group : SyncRequest → Call W SyncResult
  sync_group req = do
    (target, created) ← ensure_group api req.target_path req.target_parent req.create_group
    mapping ← λ c. (
      bind o req target created (group o.ownership_key req.rule_name (state_key_of req) c.store),
      c,
    )
    if is_authoritative req && not mapping.owned
        then fail SyncError.not_owned
        else do on_store api (λ f. put_group f mapping); sync_direct req target created
