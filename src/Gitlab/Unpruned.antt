-- ===== src/Gitlab/Unpruned.antt =====
-- Adding and updating members sends no request to delete a membership.
use group_bridge.Base.{
  ℕ, ◌+◌, ◌≤◌, Bool, true, false, not, ◌&&◌, ◌||◌, Option, none, some, List, [], ◌∷◌, ◌==◌,
  if◌then◌else◌, if_cases, arith, number_eq, str_eq, bytes, ltb,
}
use group_bridge.Base.Map.{Map, lookup, insert}
use group_bridge.Base.Exec.{Result, pure, fail, ◌>>◌}
use group_bridge.Model.{User, SyncRequest, SyncResult}
use group_bridge.State.Operations.{mark_managed, reset_absent}
use group_bridge.Gitlab.Api.{Member, GitUser, Api, SyncError, Client, Call, itoa, on_store}
use group_bridge.Gitlab.Users.{find_user}
use group_bridge.Gitlab.Members.{add_member, get_member, update_member}
use group_bridge.Gitlab.Terms.{Options}
use group_bridge.Gitlab.Settle.{
  resolve_all, add_verified, update_verified, managed, change_level, adjust_role, adjust,
  settle_member, settle_all,
}
use group_bridge.Gitlab.Quiet.{IsCounting, AtMost, AtMost-then, AtMost-on_store}
use group_bridge.Gitlab.Terms.{owner_level, is_managed_only}
use group_bridge.Gitlab.Settled.{
  AtMost-find_user, AtMost-add_member, AtMost-update_member, AtMost-get_member,
}

module _ {W : Type 0} (deleted : W → ℕ) (api : Api W) (counting : IsCounting deleted api)
    (o : Options) (req : SyncRequest) where
  pub AtMost-resolve_all :
      (us : List User) (d : Map ℕ GitUser) (n : ℕ) → AtMost deleted 0 (resolve_all api o req us d n)
  unfolding resolve_all
  AtMost-resolve_all [] d n = λ c. ground arith
  AtMost-resolve_all (u ∷ us) d n =
      AtMost-then deleted 0 (find_user api o.lookup_by u req.identity_match) _
        (AtMost-find_user deleted api counting o.lookup_by u req.identity_match)
        (by_found (AtMost-resolve_all us))
    where
      by_found :
          ((e : Map ℕ GitUser) (k : ℕ) → AtMost deleted 0 (resolve_all api o req us e k))
          → (f : Option GitUser)
          → AtMost deleted {A = Map ℕ GitUser × ℕ} 0 (elim f [
            | none ↦ resolve_all api o req us d (n + 1)
            | some t ↦
                if t.state == bytes "active"
                then resolve_all api o req us (insert t.id t d) n
                else resolve_all api o req us d (n + 1)
          ])
      by_found rest none = rest d (n + 1)
      by_found rest (some t) =
          if_cases (AtMost deleted {A = Map ℕ GitUser × ℕ} 0) (t.state == bytes "active")
            (resolve_all api o req us (insert t.id t d) n) (resolve_all api o req us d (n + 1))
            (λ _. rest (insert t.id t d) n) (λ _. rest d (n + 1))

  AtMost-add_verified : (g i l : ℕ) → AtMost deleted 0 (add_verified api o g i l)
  unfolding add_verified
  AtMost-add_verified g i l =
      AtMost-then deleted 0 (add_member api g i l) _ (AtMost-add_member deleted api counting g i l)
        λ _.
          AtMost-then deleted 0 (get_member api g i) _ (AtMost-get_member deleted api counting g i)
            by_member
    where
      mark : Call W (Unit {0})
      mark = on_store api (λ f. mark_managed f o.ownership_key (itoa g) (itoa i))

      by_member :
          (f : Option Member)
          → AtMost deleted {A = Unit {0}} 0 (elim f [
            | none ↦ fail SyncError.unverified
            | some m ↦ if ltb m.access_level l then fail SyncError.unverified else mark
          ])
      by_member none = λ c. ground arith
      by_member (some m) =
          if_cases (AtMost deleted {A = Unit {0}} 0) (ltb m.access_level l)
            (fail SyncError.unverified) mark (λ _ c. ground arith)
            (λ _. AtMost-on_store deleted api _)

  AtMost-update_verified : (g i l : ℕ) → AtMost deleted 0 (update_verified api o g i l)
  unfolding update_verified
  AtMost-update_verified g i l =
      AtMost-then deleted 0 (update_member api g i l) _
        (AtMost-update_member deleted api counting g i l)
        λ _.
          AtMost-then deleted 0 (get_member api g i) _ (AtMost-get_member deleted api counting g i)
            by_member
    where
      by_member :
          (f : Option Member)
          → AtMost deleted {A = Unit {0}} 0 (elim f [
            | none ↦ fail SyncError.unverified
            | some m ↦ if m.access_level == l then pure tt else fail SyncError.unverified
          ])
      by_member none = λ c. ground arith
      by_member (some m) =
          if_cases (AtMost deleted {A = Unit {0}} 0) (m.access_level == l) (pure tt)
            (fail SyncError.unverified) (λ _ c. ground arith) (λ _ c. ground arith)

  AtMost-change_level : (g l : ℕ) (m : Member) → AtMost deleted 0 (change_level api o req g l m)
  AtMost-change_level g l m c =
      if_cases (λ (r : Result SyncError Bool × Client W). deleted r.1.world ≤ deleted c.world + 0)
        (is_managed_only req && not (managed api o g m.id c)) (fail SyncError.predates c)
        ((update_verified api o g m.id l >> pure true) c) (λ _. ground arith)
        (λ _.
          AtMost-then deleted 0 (update_verified api o g m.id l) _ (AtMost-update_verified g m.id l)
            (λ a d. ground arith) c)

  AtMost-adjust_role :
      (g l : ℕ) (m : Member) (role : Option ℕ) → AtMost deleted 0 (adjust_role api o req g l m role)
  AtMost-adjust_role g l m (some role) =
      if_cases (AtMost deleted {A = Bool} 0)
        (ltb m.access_level l || (req.enforce_access_level && not (m.access_level == l)))
        (fail SyncError.custom_role) (pure false) (λ _ c. ground arith) (λ _ c. ground arith)
  AtMost-adjust_role g l m none =
      if_cases (AtMost deleted {A = Bool} 0)
        (ltb m.access_level l
          || (req.enforce_access_level
              && not (m.access_level == l)
              && ltb m.access_level owner_level))
        (change_level api o req g l m) (pure false) (λ _. AtMost-change_level g l m)
        (λ _ c. ground arith)

  AtMost-settle_member :
      (g l id : ℕ) (f : Option Member) (x : SyncResult)
      → AtMost deleted 0 (settle_member api o req g l id f x)
  unfolding adjust
  AtMost-settle_member g l id none x =
      AtMost-then deleted 0 (add_verified api o g id l) _ (AtMost-add_verified g id l)
        (λ a c. ground arith)
  AtMost-settle_member g l id (some m) x =
      AtMost-then deleted 0 (adjust api o req g l m) _ (AtMost-adjust_role g l m m.member_role_id)
        (λ a c. ground arith)

  pub AtMost-settle_all :
      (g l : ℕ) (e : Map ℕ Member) (d : Map ℕ GitUser) (x : SyncResult)
      → AtMost deleted 0 (settle_all api o req g l e d x)
  unfolding settle_all
  AtMost-settle_all g l e [] x = λ c. ground arith
  AtMost-settle_all g l e ((id, u) ∷ rest) x =
      AtMost-then deleted 0 (on_store api (λ f. reset_absent f o.ownership_key (itoa g) (itoa id)))
        _ (AtMost-on_store deleted api _)
        λ _.
          AtMost-then deleted 0 (settle_member api o req g l id (lookup id e) x) _
            (AtMost-settle_member g l id (lookup id e) x) (λ y. AtMost-settle_all g l e rest y)
