-- ===== src/Reconcile/Lasting.antt =====
-- What one step of the resolution of a batch has done lasts through the others.
use group_bridge.Base.{
  ◌≡◌, ◌⊎◌, inl, inr, refl, subst, Bool, true, false, Option, none, some, List, [], ◌∷◌, if_cases,
  arith, All, Str, str_eq,
}
use group_bridge.Base.Map.{Map, lookup, has, insert, lookup-insert_self, has-insert}
use group_bridge.Events.Queue.{EventWork, merge, work_at, UserWork}
use group_bridge.Events.Covered.{HoldsGroup, HoldsGroup-merge, lookup-insert_cases}
use group_bridge.Events.Routes.{RouteIndex, resolve_group, resolve_user, route_for_group}
use group_bridge.Reconcile.Batch.{
  Resolved, unrouted, work_for, resolve_groups, retry_for, user_group, resolve_user_groups,
  resolve_users,
}

-- A property that the steps of the resolution keep.
pub record IsLasting (P : Resolved → Type 0) : Type 0 where
  pub global : (x : Resolved) → P x → P (unrouted x)
  pub working : (g k : Str) (w : EventWork) (x : Resolved) → P x → P (work_for g k w x)
  pub retrying : (jit : Bool) (k : Str) (x : Resolved) → P x → P (retry_for jit k x)

module _ (P : Resolved → Type 0) (lasting : IsLasting P) where
  group-lasts :
      (k : Str) (w : EventWork) (x : Resolved) (o : Option Str)
      → P x
      → P (elim o [ none ↦ unrouted x | some g ↦ work_for g k w x ])
  group-lasts k w x none h = lasting.global x h
  group-lasts k w x (some g) h = lasting.working g k w x h

  pub groups-last :
      (i : RouteIndex) (m : Map Str EventWork) (x : Resolved) → P x → P (resolve_groups i m x)
  unfolding resolve_groups
  groups-last i [] x h = h
  groups-last i ((k, w) ∷ rest) x h = groups-last i rest _ (group-lasts k w x (resolve_group k i) h)

  user_group-lasts :
      (w : UserWork) (g : Str) (o : Option Str) (x : Resolved) → P x → P (user_group w g o x)
  user_group-lasts w g none x h = lasting.global x h
  user_group-lasts w g (some k) x h = lasting.retrying w.jit_retry k _ (lasting.working g k _ x h)

  pub user_groups-last :
      (i : RouteIndex) (w : UserWork) (gs : List Str) (x : Resolved)
      → P x
      → P (resolve_user_groups i w gs x)
  unfolding resolve_user_groups
  user_groups-last i w [] x h = h
  user_groups-last i w (g ∷ gs) x h =
      user_groups-last i w gs _ (user_group-lasts w g (route_for_group g i) x h)

  user-lasts :
      (i : RouteIndex) (w : UserWork) (x : Resolved) (o : Option (List Str))
      → P x
      → P (elim o [ none ↦ unrouted x | some gs ↦ resolve_user_groups i w gs x ])
  user-lasts i w x none h = lasting.global x h
  user-lasts i w x (some gs) h = user_groups-last i w gs x h

  pub users-last :
      (i : RouteIndex) (m : Map Str UserWork) (x : Resolved) → P x → P (resolve_users i m x)
  unfolding resolve_users
  users-last i [] x h = h
  users-last i ((k, w) ∷ rest) x h = users-last i rest _ (user-lasts i w x (resolve_user k i) h)

-- A full repair is due, or the group has the work.
abbrev pub InWork : EventWork → Str → Resolved → Type 0
InWork w g x = (x.global_repair ≡ true) ⊎ HoldsGroup w (lookup g x.work)

-- A full repair is due, or the route will be tried again.
abbrev pub InRetries : Str → Resolved → Type 0
InRetries k x = (x.global_repair ≡ true) ⊎ (has k x.retries ≡ true)

InWork-work_for :
    (w : EventWork) (g h k : Str) (v : EventWork) (x : Resolved)
    → InWork w g x
    → InWork w g (work_for h k v x)
InWork-work_for w g h k v x (inl r) = inl r
InWork-work_for w g h k v x (inr r) = inr (
    lookup-insert_cases (HoldsGroup w) g h _ x.work r
      (λ p. merged (lookup h x.work) (subst (λ j. HoldsGroup w (lookup j x.work)) p r)))
  where
    merged : (o : Option EventWork) → HoldsGroup w o → HoldsGroup w (some (merge (work_at o) v))
    merged none h = absurd h
    merged (some c) h = HoldsGroup-merge w c v h

pub InWork-IsLasting : (w : EventWork) (g : Str) → IsLasting (InWork w g)
InWork-IsLasting w g = record {
  global = λ x h. inl refl;
  working = λ h k v x i. InWork-work_for w g h k v x i;
  retrying = λ jit k x h. if_cases (InWork w g) jit _ x (λ _. h) (λ _. h);
}

pub InRetries-IsLasting : (k : Str) → IsLasting (InRetries k)
InRetries-IsLasting k = record {
  global = λ x h. inl refl;
  working = λ h j v x i. i;
  retrying = λ jit j x h. if_cases (InRetries k) jit _ x (λ _. added j x h) (λ _. h);
}
  where
    added :
        (j : Str) (x : Resolved)
        → InRetries k x
        → InRetries k (record x { retries = insert j tt x.retries })
    added j x (inl r) = inl r
    added j x (inr r) = inr (ground (arith, has-insert k j tt x.retries, r))

pub work_for-own : (g k : Str) (w : EventWork) (x : Resolved) → InWork w g (work_for g k w x)
work_for-own g k w x = inr (rw lookup-insert_self (λ a. ground arith, λ a. ground arith))

-- Where the route of a hint leads, and that the work is there.
abbrev pub GroupCovered : RouteIndex → EventWork → Str → Resolved → Type 0
GroupCovered i w k x =
    (x.global_repair ≡ true) ⊎ ((g : Str) × (resolve_group k i ≡ some g) × InWork w g x)

abbrev pub membership_work : UserWork → EventWork
membership_work w = record { all_providers = false; confirm_removal = w.confirm_membership }

abbrev pub UserGroupCovered : RouteIndex → UserWork → Str → Resolved → Type 0
UserGroupCovered i w g x =
    (x.global_repair ≡ true)
    ⊎ ((k : Str) × (route_for_group g i ≡ some k)
        × InWork (membership_work w) g x
        × (w.jit_retry ≡ true → InRetries k x))

abbrev pub UserCovered : RouteIndex → UserWork → Str → Resolved → Type 0
UserCovered i w k x =
    (x.global_repair ≡ true)
    ⊎ ((gs : List Str) × (resolve_user k i ≡ some gs) × All (λ g. UserGroupCovered i w g x) gs)

-- A step that keeps all that lasts.
abbrev pub Step : Resolved → Resolved → Type 1
Step x y = (P : Resolved → Type 0) → IsLasting P → P x → P y

GroupCovered-Step :
    (i : RouteIndex) (w : EventWork) (k : Str) (x y : Resolved)
    → (x.global_repair ≡ true → y.global_repair ≡ true)
    → ((g : Str) → InWork w g x → InWork w g y)
    → GroupCovered i w k x
    → GroupCovered i w k y
GroupCovered-Step i w k x y f s (inl r) = inl (f r)
GroupCovered-Step i w k x y f s (inr (g, e, h)) = inr (g, e, s g h)

IsGlobal-IsLasting : IsLasting (λ x. x.global_repair ≡ true)
IsGlobal-IsLasting = record {
  global = λ x h. refl;
  working = λ h k v x i. i;
  retrying =
      λ jit k x h. if_cases (λ (y : Resolved). y.global_repair ≡ true) jit _ x (λ _. h) (λ _. h);
}

pub group-Step :
    (i : RouteIndex) (w : EventWork) (k : Str) (x y : Resolved)
    → Step x y
    → GroupCovered i w k x
    → GroupCovered i w k y
group-Step i w k x y s h =
    GroupCovered-Step i w k x y (s _ IsGlobal-IsLasting) (λ g. s _ (InWork-IsLasting w g)) h

pub user_group-Step :
    (i : RouteIndex) (w : UserWork) (g : Str) (x y : Resolved)
    → Step x y
    → UserGroupCovered i w g x
    → UserGroupCovered i w g y
user_group-Step i w g x y s (inl r) = inl (s _ IsGlobal-IsLasting r)
user_group-Step i w g x y s (inr (k, e, h, t)) =
    inr (k, e, s _ (InWork-IsLasting _ g) h, λ j. s _ (InRetries-IsLasting k) (t j))

All-Step :
    (i : RouteIndex) (w : UserWork) (x y : Resolved)
    → Step x y
    → (gs : List Str) → All (λ g. UserGroupCovered i w g x) gs
    → All (λ g. UserGroupCovered i w g y) gs
All-Step i w x y s [] h = tt
All-Step i w x y s (g ∷ gs) h = (user_group-Step i w g x y s h.0, All-Step i w x y s gs h.1)

pub user-Step :
    (i : RouteIndex) (w : UserWork) (k : Str) (x y : Resolved)
    → Step x y
    → UserCovered i w k x
    → UserCovered i w k y
user-Step i w k x y s (inl r) = inl (s _ IsGlobal-IsLasting r)
user-Step i w k x y s (inr (gs, e, h)) = inr (gs, e, All-Step i w x y s gs h)
