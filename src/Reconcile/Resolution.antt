-- ===== src/Reconcile/Resolution.antt =====
-- Each hint of a batch gets its work, for each group that it concerns, or a full repair is due.
use group_bridge.Base.{
  ◌≡◌, inl, inr, refl, sym, subst, Bool, true, false, Option, none, some, List, [], ◌∷◌, arith, All,
  Str, str_eq,
}
use group_bridge.Base.Map.{Map, lookup, has-insert}
use group_bridge.Events.Queue.{EventWork, UserWork, EventBatch}
use group_bridge.Events.Routes.{RouteIndex, resolve_group, resolve_user, route_for_group}
use group_bridge.Reconcile.Batch.{
  Resolved, nothing_resolved, unrouted, work_for, resolve_groups, retry_for, user_group,
  resolve_user_groups, resolve_users, resolve_batch,
}
use group_bridge.Reconcile.Lasting.{
  InRetries, InWork-IsLasting, GroupCovered, UserGroupCovered, UserCovered, membership_work,
  work_for-own, group-Step, user_group-Step, user-Step, groups-last, users-last, user_groups-last,
}

group_resolved :
    (i : RouteIndex) (w : EventWork) (k : Str) (x : Resolved) (o : Option Str)
    → resolve_group k i ≡ o
    → GroupCovered i w k (elim o [ none ↦ unrouted x | some g ↦ work_for g k w x ])
group_resolved i w k x none e = inl refl
group_resolved i w k x (some g) e = inr (g, e, work_for-own g k w x)

groups_resolved :
    (i : RouteIndex) (m : Map Str EventWork) (k : Str) (w : EventWork) (x : Resolved)
    → lookup k m ≡ some w
    → GroupCovered i w k (resolve_groups i m x)
unfolding resolve_groups lookup
groups_resolved i [] k w x e = absurd (ground arith)
groups_resolved i ((j, v) ∷ rest) k w x e = by_key (str_eq.dec k j) (groups_resolved i rest k w _)
  where
    next : Resolved
    next = elim (resolve_group j i) [ none ↦ unrouted x | some g ↦ work_for g j v x ]

    by_key :
        Dec (k ≡ j)
        → (lookup k rest ≡ some w → GroupCovered i w k (resolve_groups i rest next))
        → GroupCovered i w k (resolve_groups i rest next)
    by_key (no n) later = later (ground arith)
    by_key (yes p) later =
        let own : GroupCovered i v j next = group_resolved i v j x (resolve_group j i) refl in
        let same_work : v ≡ w = ground arith in
        group-Step i w k next (resolve_groups i rest next) (λ P l. groups-last P l i rest next)
          (subst (λ u. GroupCovered i u k next) same_work
            (subst (λ h. GroupCovered i v h next) (sym p) own))

user_group_resolved :
    (i : RouteIndex) (w : UserWork) (g : Str) (x : Resolved) (o : Option Str)
    → route_for_group g i ≡ o
    → UserGroupCovered i w g (user_group w g o x)
user_group_resolved i w g x none e = inl refl
user_group_resolved i w g x (some k) e =
    let working : Resolved = work_for g k (membership_work w) x in
    inr (
      k,
      e,
      (InWork-IsLasting (membership_work w) g).retrying w.jit_retry k working
          (work_for-own g k (membership_work w) x),
      λ j. retried w.jit_retry j working,
    )
  where
    retried : (jit : Bool) → jit ≡ true → (y : Resolved) → InRetries k (retry_for jit k y)
    retried true e y = inr (ground (arith, has-insert k k tt y.retries))
    retried false e y = absurd (ground arith)

user_groups_resolved :
    (i : RouteIndex) (w : UserWork) (gs : List Str) (x : Resolved)
    → All (λ g. UserGroupCovered i w g (resolve_user_groups i w gs x)) gs
unfolding resolve_user_groups
user_groups_resolved i w [] x = tt
user_groups_resolved i w (g ∷ gs) x =
    let next : Resolved = user_group w g (route_for_group g i) x in
    (
      user_group-Step i w g next (resolve_user_groups i w gs next)
          (λ P l. user_groups-last P l i w gs next)
          (user_group_resolved i w g x (route_for_group g i) refl),
      user_groups_resolved i w gs next,
    )

user_resolved :
    (i : RouteIndex) (w : UserWork) (k : Str) (x : Resolved) (o : Option (List Str))
    → resolve_user k i ≡ o
    → UserCovered i w k (elim o [ none ↦ unrouted x | some gs ↦ resolve_user_groups i w gs x ])
user_resolved i w k x none e = inl refl
user_resolved i w k x (some gs) e = inr (gs, e, user_groups_resolved i w gs x)

users_resolved :
    (i : RouteIndex) (m : Map Str UserWork) (k : Str) (w : UserWork) (x : Resolved)
    → lookup k m ≡ some w
    → UserCovered i w k (resolve_users i m x)
unfolding resolve_users lookup
users_resolved i [] k w x e = absurd (ground arith)
users_resolved i ((j, v) ∷ rest) k w x e = by_key (str_eq.dec k j) (users_resolved i rest k w _)
  where
    next : Resolved
    next = elim (resolve_user j i) [ none ↦ unrouted x | some gs ↦ resolve_user_groups i v gs x ]

    by_key :
        Dec (k ≡ j)
        → (lookup k rest ≡ some w → UserCovered i w k (resolve_users i rest next))
        → UserCovered i w k (resolve_users i rest next)
    by_key (no n) later = later (ground arith)
    by_key (yes p) later =
        let own : UserCovered i v j next = user_resolved i v j x (resolve_user j i) refl in
        let same_work : v ≡ w = ground arith in
        user-Step i w k next (resolve_users i rest next) (λ P l. users-last P l i rest next)
          (subst (λ u. UserCovered i u k next) same_work
            (subst (λ h. UserCovered i v h next) (sym p) own))

-- For each group hint of a batch, a full repair is due, or the hint's route leads to a group that
-- has at least the work of the hint.
pub resolve_batch-groups :
    (i : RouteIndex) (batch : EventBatch) (k : Str) (w : EventWork)
    → lookup k batch.groups ≡ some w
    → GroupCovered i w k (resolve_batch i batch)
unfolding resolve_batch
resolve_batch-groups i batch k w e =
    let x : Resolved = resolve_groups i batch.groups (nothing_resolved batch.global_repair) in
    group-Step i w k x (resolve_users i batch.users x) (λ P l. users-last P l i batch.users x)
      (groups_resolved i batch.groups k w (nothing_resolved batch.global_repair) e)

-- For each user hint of a batch, a full repair is due, or for every group that the index has for the
-- user either a full repair is due or the group's route is known, the group has a run, which confirms
-- a removal where the hint asks for it, and the route is tried again where the hint is a login.
pub resolve_batch-users :
    (i : RouteIndex) (batch : EventBatch) (k : Str) (w : UserWork)
    → lookup k batch.users ≡ some w
    → UserCovered i w k (resolve_batch i batch)
unfolding resolve_batch
resolve_batch-users i batch k w e =
    users_resolved i batch.users k w
      (resolve_groups i batch.groups (nothing_resolved batch.global_repair)) e
