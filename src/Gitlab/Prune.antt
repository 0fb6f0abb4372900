-- ===== src/Gitlab/Prune.antt =====
-- internal/provider/gitlab/client.go: the part of `SyncGroup` that removes members.
use group_bridge.Base.{
  ℕ, Bool, true, false, not, ◌&&◌, ◌||◌, List, [], ◌∷◌, if◌then◌else◌, number_eq, str_eq, ltb,
  length,
}
use group_bridge.Base.Map.{Map, has}
use group_bridge.Base.Exec.{ok, pure, fail, ◌>>=◌, ◌>>◌}
use group_bridge.Model.{SyncRequest, SyncResult}
use group_bridge.State.Operations.{unmark, confirm_absent, reset_absent}
use group_bridge.Gitlab.Api.{Member, GitUser, Api, SyncError, Call, itoa, on_store}
use group_bridge.Gitlab.Members.{remove_member, current_identity}
use group_bridge.Gitlab.Terms.{
  Options, is_authoritative, is_managed_only, is_spared, Removals, skip, chosen,
}
use group_bridge.Gitlab.Settle.{managed}

module _ {W : Type 0} (api : Api W) (o : Options) where
  abbrev pub confirm_removal : SyncRequest → ℕ → ℕ → Call W Bool
  confirm_removal req group_id id =
      if req.immediate_removal
      then pure true
      else on_store api (λ f. confirm_absent f o.ownership_key (itoa group_id) (itoa id))

  -- One round of the loop over the members.
  unfoldable pub consider :
      SyncRequest → ℕ → ℕ → Map ℕ GitUser → Member → Removals → Call W Removals
  consider req group_id self desired m r c =
      if has m.id desired
      then (ok r, c)
      else if is_spared o req self m
      then (ok (skip r), c)
      else if is_authoritative req || (is_managed_only req && managed api o group_id m.id c)
      then (confirm_removal req group_id m.id >>= λ confirmed. pure (chosen m confirmed r)) c
      else (ok r, c)

  unfoldable pub choose_removals :
      SyncRequest → ℕ → ℕ → Map ℕ GitUser → List Member → Removals → Call W Removals
  choose_removals req group_id self desired [] r = pure r
  choose_removals req group_id self desired (m ∷ ms) r = do
    s ← consider req group_id self desired m r
    choose_removals req group_id self desired ms s

  unfoldable pub remove_all : ℕ → List Member → Call W (Unit {0})
  remove_all group_id [] = pure tt
  remove_all group_id (m ∷ ms) = do
    remove_member api group_id m.id
    on_store api (λ f. unmark f o.ownership_key (itoa group_id) (itoa m.id))
    on_store api (λ f. reset_absent f o.ownership_key (itoa group_id) (itoa m.id))
    remove_all group_id ms

  unfoldable pub prune_members :
      SyncRequest → ℕ → Map ℕ GitUser → List Member → SyncResult → Call W SyncResult
  prune_members req group_id desired members x = do
    self ← current_identity api o.hash
    r ←
        choose_removals req group_id self desired members
          (record { removals = []; skipped = 0; pending = false })
    if ltb req.max_removals (length r.removals) then fail SyncError.too_many_removals else do
      remove_all group_id r.removals
      pure (record x {
        removed = length r.removals;
        skipped_removal = r.skipped;
        converged = not r.pending;
      })
