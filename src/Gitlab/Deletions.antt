-- ===== src/Gitlab/Deletions.antt =====
-- How many requests to delete a membership a synchronization sends, however it ends.
use group_bridge.Base.{
  ℕ, suc, ◌+◌, ◌≤◌, Bool, true, false, not, ◌&&◌, ◌||◌, List, [], ◌∷◌, ◌==◌, if_cases, arith,
  number_eq, Str, str_eq, ltb, length,
}
use group_bridge.Base.Map.{Map, has}
use group_bridge.Base.Exec.{Result, ok, pure, fail, ◌>>◌}
use group_bridge.Model.{SyncRequest, SyncResult}
use group_bridge.State.Operations.{reset_absent, confirm_absent}
use group_bridge.Gitlab.Api.{
  GitGroup, Member, GitUser, Reply, Api, SyncError, Client, Call, is_success, itoa, on_store,
  request,
}
use group_bridge.Gitlab.Groups.{ensure_group}
use group_bridge.Gitlab.Members.{list_members, current_identity}
use group_bridge.Gitlab.Terms.{Options}
use group_bridge.Gitlab.Settle.{resolve_all, managed, settle_all}
use group_bridge.Gitlab.Quiet.{
  IsCounting, AtMost, AtMost-then, AtMost-bind, AtMost-on_store, AtMost-request,
  AtMost-ensure_group,
}
use group_bridge.State.Operations.{group, put_group, unmark}
use group_bridge.Gitlab.Members.{remove_member}
use group_bridge.Gitlab.Terms.{
  Removals, no_result, access_level_of, index_members, state_key_of, bind, is_authoritative,
  is_managed_only, is_spared,
}
use group_bridge.Gitlab.Prune.{
  confirm_removal, consider, choose_removals, remove_all, prune_members,
}
use group_bridge.Gitlab.Sync.{sync_direct, sync_group}
use group_bridge.Gitlab.Settled.{AtMost-pages, AtMost-current_identity}
use group_bridge.Gitlab.Unpruned.{AtMost-resolve_all, AtMost-settle_all}

module _ {W : Type 0} (deleted : W → ℕ) (api : Api W) (counting : IsCounting deleted api)
    (o : Options) (req : SyncRequest) where
  AtMost-consider :
      (g self : ℕ) (d : Map ℕ GitUser) (m : Member) (r : Removals)
      → AtMost deleted 0 (consider api o req g self d m r)
  unfolding consider
  AtMost-consider g self d m r c =
      if_cases P (has m.id d) (ok r, c) _ (λ _. ground arith)
        λ _.
          if_cases P (is_spared o req self m) _ _ (λ _. ground arith)
            λ _.
              if_cases P (is_authoritative req || (is_managed_only req && managed api o g m.id c)) _
                (ok r, c)
                (λ _.
                  AtMost-then deleted 0 (confirm_removal api o req g m.id) _ asked
                    (λ b e. ground arith) c)
                (λ _. ground arith)
    where
      P : Result SyncError Removals × Client W → Type 0
      P x = deleted x.1.world ≤ deleted c.world + 0

      asked : AtMost deleted 0 (confirm_removal api o req g m.id)
      asked =
          if_cases (AtMost deleted {A = Bool} 0) req.immediate_removal (pure true)
            (on_store api (λ f. confirm_absent f o.ownership_key (itoa g) (itoa m.id)))
            (λ _ e. ground arith) (λ _. AtMost-on_store deleted api _)

  AtMost-choose_removals :
      (g self : ℕ) (d : Map ℕ GitUser) (ms : List Member) (r : Removals)
      → AtMost deleted 0 (choose_removals api o req g self d ms r)
  unfolding choose_removals
  AtMost-choose_removals g self d [] r = λ c. ground arith
  AtMost-choose_removals g self d (m ∷ ms) r =
      AtMost-then deleted 0 (consider api o req g self d m r) _ (AtMost-consider g self d m r)
        (λ s. AtMost-choose_removals g self d ms s)

  AtMost-remove_member : (g i : ℕ) → AtMost deleted (1 + 0) (remove_member api g i)
  unfolding remove_member
  AtMost-remove_member g i =
      let f : Str → W → Reply (Unit {0}) × W = λ t. api.members_delete t g i in
      AtMost-bind deleted 1 0 (request api f) _
        (AtMost-request deleted api counting 1 f (λ t. counting.members_delete t g i))
        λ x.
          if_cases (AtMost deleted {A = Unit {0}} 0) (x.0 == 404 || is_success x.0) (pure tt)
            (fail SyncError.bad_status) (λ _ c. ground arith) (λ _ c. ground arith)

  AtMost-weaken :
      {A : Type 0} (j k : ℕ) (m : Call W A) → j ≤ k → AtMost deleted j m → AtMost deleted k m
  AtMost-weaken j k m le h c = ground (arith, h c)

  AtMost-remove_all :
      (g : ℕ) (ms : List Member) → AtMost deleted (length ms) (remove_all api o g ms)
  unfolding remove_all
  AtMost-remove_all g [] = λ c. ground arith
  AtMost-remove_all g (m ∷ ms) =
      let n = length ms in
      AtMost-weaken (1 + 0 + n) (suc n) (remove_all api o g (m ∷ ms)) (omega arith) (
        AtMost-bind deleted (1 + 0) n (remove_member api g m.id) _ (AtMost-remove_member g m.id)
          λ _.
            AtMost-then deleted n
              (on_store api (λ f. unmark f o.ownership_key (itoa g) (itoa m.id))) _
              (AtMost-on_store deleted api _)
              λ _.
                AtMost-then deleted n
                  (on_store api (λ f. reset_absent f o.ownership_key (itoa g) (itoa m.id))) _
                  (AtMost-on_store deleted api _) (λ _. AtMost-remove_all g ms))

  AtMost-prune_members :
      (g : ℕ) (d : Map ℕ GitUser) (ms : List Member) (x : SyncResult)
      → AtMost deleted req.max_removals (prune_members api o req g d ms x)
  unfolding prune_members
  AtMost-prune_members g d ms x =
      AtMost-then deleted req.max_removals (current_identity api o.hash) _
        (AtMost-current_identity deleted api counting o.hash)
        λ self.
          AtMost-then deleted req.max_removals
            (choose_removals api o req g self d ms
              (record { removals = []; skipped = 0; pending = false }))
            _ (AtMost-choose_removals g self d ms _)
            λ r.
              if_cases (AtMost deleted {A = SyncResult} req.max_removals)
                (ltb req.max_removals (length r.removals)) (fail SyncError.too_many_removals)
                (remove_all api o g r.removals
                  >> pure (record x {
                    removed = length r.removals;
                    skipped_removal = r.skipped;
                    converged = not r.pending;
                  }))
                (λ _ c. ground arith)
                λ fits c. ground (
                  arith,
                  AtMost-bind deleted (length r.removals) 0 (remove_all api o g r.removals)
                      (λ _. pure (record x {
                        removed = length r.removals;
                        skipped_removal = r.skipped;
                        converged = not r.pending;
                      }))
                      (AtMost-remove_all g r.removals) (λ a e. ground arith) c,
                )

  AtMost-sync_direct :
      (t : GitGroup) (b : Bool) → AtMost deleted req.max_removals (sync_direct api o req t b)
  unfolding sync_direct
  AtMost-sync_direct t b =
      AtMost-then deleted req.max_removals (list_members api o.fuel t.id) _
        (AtMost-pages deleted api counting o.fuel t.id 1 [])
        λ ms.
          AtMost-then deleted req.max_removals (resolve_all api o req req.source_group.members [] 0)
            _ (AtMost-resolve_all deleted api counting o req req.source_group.members [] 0)
            λ p.
              AtMost-then deleted req.max_removals
                (settle_all api o req t.id (access_level_of req.access_level) (index_members ms [])
                  p.0 (record no_result { created_group = b; unresolved = p.1 }))
                _
                (AtMost-settle_all deleted api counting o req t.id
                  (access_level_of req.access_level) (index_members ms []) p.0 _)
                λ x.
                  if_cases (AtMost deleted {A = SyncResult} req.max_removals) (ltb 0 p.1) (pure x)
                    (prune_members api o req t.id p.0 ms x) (λ _ c. ground arith)
                    (λ _. AtMost-prune_members t.id p.0 ms x)

  AtMost-sync_group : AtMost deleted req.max_removals (sync_group api o req)
  unfolding sync_group
  AtMost-sync_group =
      AtMost-then deleted req.max_removals
        (ensure_group api req.target_path req.target_parent req.create_group) _
        (AtMost-ensure_group deleted api counting req.target_path req.target_parent
          req.create_group)
        λ t.
          AtMost-then deleted req.max_removals
            (λ c. (
              bind o req t.0 t.1 (group o.ownership_key req.rule_name (state_key_of req) c.store),
              c,
            ))
            _ (λ c. ground arith)
            λ mapping.
              if_cases (AtMost deleted {A = SyncResult} req.max_removals)
                (is_authoritative req && not mapping.owned) (fail SyncError.not_owned)
                (on_store api (λ f. put_group f mapping) >> sync_direct api o req t.0 t.1)
                (λ _ c. ground arith)
                λ _.
                  AtMost-then deleted req.max_removals (on_store api (λ f. put_group f mapping)) _
                    (AtMost-on_store deleted api _) (λ _. AtMost-sync_direct t.0 t.1)

  -- Where the world counts the requests to delete a membership, a synchronization sends no more of
  -- them than the request allows, whether it succeeds or fails, and wherever it fails.
  pub sync_group-deletions :
      (c : Client W) → deleted (sync_group api o req c).1.world ≤ deleted c.world + req.max_removals
  sync_group-deletions c = AtMost-sync_group c
