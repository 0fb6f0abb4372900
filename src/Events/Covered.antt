-- ===== src/Events/Covered.antt =====
-- No hint is lost: what was recorded stays recorded, or a global repair stands for it, until the
-- next drain hands it over.
use group_bridge.Base.{
  ℕ, ◌≡◌, ◌⊎◌, inl, inr, refl, sym, ap, subst, ◌∙◌, Bool, true, false, not, Option, none, some, [],
  ◌∷◌, ◌==◌, if◌then◌else◌, if_cases, if_true, if_false, arith, Str, str_eq, bytes, is_empty, leb,
  ltb,
}
use mathlib.Core.Logic.{ite}
use group_bridge.Base.Map.{Map, lookup, insert, erase, lookup-insert, lookup-insert_self}
use group_bridge.Webhook.Events.{Hint}
use group_bridge.Events.Queue.{
  max_dirty_routes, EventWork, merge, work_at, UserWork, merge_user, DelayedWork, EventBatch,
  EventQueue, dirty, signal_locked, global_locked, user_work, group_work, put_user, put_group,
  settle, add, reset_timer_locked, schedule_at, schedule_group, drain, close, release_group,
  release_each, release_due,
}

-- The work on record includes this work.
abbrev pub HoldsUser : UserWork → Option UserWork → Type 0
HoldsUser w none = ⊥
HoldsUser w (some v) =
    (w.jit_retry ≡ true → v.jit_retry ≡ true)
    × (w.confirm_membership ≡ true → v.confirm_membership ≡ true)

abbrev pub HoldsGroup : EventWork → Option EventWork → Type 0
HoldsGroup w none = ⊥
HoldsGroup w (some v) =
    (w.all_providers ≡ true → v.all_providers ≡ true)
    × (w.confirm_removal ≡ true → v.confirm_removal ≡ true)

-- What was recorded under two keys, for a group and a user; either may ask for nothing.
pub data Entry : Type 0 where
  for_user : Str → UserWork → Entry
  for_group : Str → EventWork → Entry

abbrev pub Holds : Entry → Map Str EventWork → Map Str UserWork → Type 0
Holds (for_user k w) groups users = HoldsUser w (lookup k users)
Holds (for_group k w) groups users = HoldsGroup w (lookup k groups)

-- The entry is on record, or a global repair stands for it.
abbrev pub IsCovered : Entry → EventQueue → Type 0
IsCovered e q = (q.global ≡ true) ⊎ Holds e q.groups q.users

HoldsUser-merge : (w v n : UserWork) → HoldsUser w (some v) → HoldsUser w (some (merge_user v n))
HoldsUser-merge w v n h = (λ a. ground (arith, h.0 a), λ a. ground (arith, h.1 a))

pub HoldsGroup-merge : (w v n : EventWork) → HoldsGroup w (some v) → HoldsGroup w (some (merge v n))
HoldsGroup-merge w v n h = (λ a. ground (arith, h.0 a), λ a. ground (arith, h.1 a))

-- An entry of a map survives a write, if what is written under its own key includes it.
pub lookup-insert_cases {ℓ κ} :
    {V : Type ℓ} (P : Option V → Type κ) (k j : Str) (v : V) (m : Map Str V)
    → P (lookup k m)
    → (k ≡ j → P (some v))
    → P (lookup k (insert j v m))
lookup-insert_cases P k j v m old new = rw lookup-insert (by_key (str_eq.dec k j))
  where
    by_key : (d : Dec (k ≡ j)) → P (if ite d true false then some v else lookup k m)
    by_key (yes p) = new p
    by_key (no p) = old

put_user-Holds :
    (e : Entry) (j : Str) (n : UserWork) (o : Option UserWork) (q : EventQueue)
    → lookup j q.users ≡ o
    → Holds e q.groups q.users
    → Holds e (put_user j n o q).groups (put_user j n o q).users
unfolding put_user
put_user-Holds (for_group k w) j n none q x h = h
put_user-Holds (for_group k w) j n (some c) q x h = h
put_user-Holds (for_user k w) j n none q x h =
    lookup-insert_cases (HoldsUser w) k j n q.users h
      (λ p. absurd (subst (HoldsUser w) (ap (λ i. lookup i q.users) p ∙ x) h))
put_user-Holds (for_user k w) j n (some c) q x h =
    lookup-insert_cases (HoldsUser w) k j (merge_user c n) q.users h
      (λ p. HoldsUser-merge w c n (subst (HoldsUser w) (ap (λ i. lookup i q.users) p ∙ x) h))

put_group-Holds :
    (e : Entry) (j : Str) (n : EventWork) (o : Option EventWork) (q : EventQueue)
    → lookup j q.groups ≡ o
    → Holds e q.groups q.users
    → Holds e (put_group j n o q).groups (put_group j n o q).users
unfolding put_group
put_group-Holds (for_user k w) j n none q x h = h
put_group-Holds (for_user k w) j n (some c) q x h = h
put_group-Holds (for_group k w) j n none q x h =
    lookup-insert_cases (HoldsGroup w) k j n q.groups h
      (λ p. absurd (subst (HoldsGroup w) (ap (λ i. lookup i q.groups) p ∙ x) h))
put_group-Holds (for_group k w) j n (some c) q x h =
    lookup-insert_cases (HoldsGroup w) k j (merge c n) q.groups h
      (λ p. HoldsGroup-merge w c n (subst (HoldsGroup w) (ap (λ i. lookup i q.groups) p ∙ x) h))

global_locked-IsCovered : (e : Entry) (q : EventQueue) → IsCovered e (global_locked q)
unfolding global_locked signal_locked
global_locked-IsCovered e q = inl refl

settle-IsCovered : (e : Entry) (q : EventQueue) → Holds e q.groups q.users → IsCovered e (settle q)
unfolding settle signal_locked global_locked
settle-IsCovered e q h =
    if_cases (IsCovered e) (ltb max_dirty_routes (dirty q)) _ _ (λ b. inl refl) (λ b. inr h)

pub add-IsCovered : (e : Entry) (h : Hint) (q : EventQueue) → IsCovered e q → IsCovered e (add h q)
unfolding add
add-IsCovered e h q c =
    if_cases (IsCovered e) q.closed _ _ (λ _. c)
      λ _.
        if_cases (IsCovered e) h.global_repair _ _ (λ _. global_locked-IsCovered e _)
          λ _.
            if_cases (IsCovered e) q.global _ _ (λ g. inl g)
              λ g.
                let held : Holds e q.groups q.users = not_global q.global c g in
                if_cases (IsCovered e) (not (is_empty h.user_key)) _ _
                  (λ _.
                    settle-IsCovered e _ (put_user-Holds e h.user_key (user_work h) _ q refl held))
                  λ _.
                    if_cases (IsCovered e) (not (is_empty h.group_key)) _ _
                      (λ _.
                        settle-IsCovered e _
                          (put_group-Holds e h.group_key (group_work h) _ q refl held))
                      λ _. global_locked-IsCovered e _
  where
    not_global :
        (b : Bool) → (b ≡ true) ⊎ Holds e q.groups q.users → b ≡ false → Holds e q.groups q.users
    not_global b (inl t) f = absurd (ground arith)
    not_global b (inr p) f = p

schedule_at-IsCovered :
    (e : Entry) (now : ℕ) (k : Str) (w : EventWork) (due : ℕ) (reason : Str)
    (o : Option DelayedWork) (q : EventQueue)
    → IsCovered e q
    → IsCovered e (schedule_at now k w due reason o q)
unfolding schedule_at reset_timer_locked
schedule_at-IsCovered e now k w due reason (some c) q h = h
schedule_at-IsCovered e now k w due reason none q h =
    if_cases (IsCovered e) (leb max_dirty_routes (dirty q)) _ _ (λ _. global_locked-IsCovered e _)
      (λ _. h)

pub schedule_group-IsCovered :
    (e : Entry) (now : ℕ) (k : Str) (w : EventWork) (delay : ℕ) (reason : Str) (q : EventQueue)
    → IsCovered e q
    → IsCovered e (schedule_group now k w delay reason q)
unfolding schedule_group
schedule_group-IsCovered e now k w delay reason q h =
    if_cases (IsCovered e) q.closed _ _ (λ _. h)
      (λ _. schedule_at-IsCovered e now k w _ reason _ q h)

release_group-IsCovered :
    (e : Entry) (d : DelayedWork) (q : EventQueue) → IsCovered e q → IsCovered e (release_group d q)
release_group-IsCovered e d q h =
    if_cases (IsCovered e) q.global _ _ (λ g. inl g) (λ g. written e h)
  where
    written :
        (e : Entry)
        → IsCovered e q
        → IsCovered e (record q {
          groups =
              insert d.route_key (merge (work_at (lookup d.route_key q.groups)) d.work) q.groups;
        })
    written e (inl g) = inl g
    written (for_user k w) (inr h) = inr h
    written (for_group k w) (inr h) = inr (
        lookup-insert_cases (HoldsGroup w) k d.route_key _ q.groups h (λ p.
          merged (lookup d.route_key q.groups) (subst (λ i. HoldsGroup w (lookup i q.groups)) p h)))
      where
        merged :
            (o : Option EventWork) → HoldsGroup w o → HoldsGroup w (some (merge (work_at o) d.work))
        merged none h = absurd h
        merged (some v) h = HoldsGroup-merge w v d.work h

release_each-IsCovered :
    (e : Entry) (now : ℕ) (rest : Map Str DelayedWork) (q : EventQueue)
    → IsCovered e q
    → IsCovered e (release_each now rest q).1
unfolding release_each
release_each-IsCovered e now [] q h = h
release_each-IsCovered e now ((k, d) ∷ rest) q h =
    if_cases Covers (ltb now d.due) _ _ (λ _. release_each-IsCovered e now rest q h)
      λ _.
        if_cases Covers (d.reason == bytes "global") _ _ (λ _. global_locked-IsCovered e _)
          λ _.
            release_each-IsCovered e now rest _
              (release_group-IsCovered e d (record q { delayed = erase k q.delayed }) h)
  where
    Covers : Bool × EventQueue → Type 0
    Covers p = IsCovered e p.1

pub release_due-IsCovered :
    (e : Entry) (now : ℕ) (q : EventQueue) → IsCovered e q → IsCovered e (release_due now q)
unfolding release_due reset_timer_locked signal_locked
release_due-IsCovered e now q h =
    if_cases (IsCovered e) q.closed _ _ (λ _. h)
      λ _. by_end (release_each now q.delayed q) (release_each-IsCovered e now q.delayed q h)
  where
    by_end :
        (p : Bool × EventQueue)
        → IsCovered e p.1
        → IsCovered e (
            if p.0
            then p.1
            else signal_locked (reset_timer_locked now (record p.1 { timer = none })))
    by_end (true, p) r = r
    by_end (false, p) r = r

-- The methods that may run between two drains.
pub data Calls (q : EventQueue) : EventQueue → Type 0 where
  none_yet : Calls q q
  added : {p : EventQueue} (h : Hint) → Calls q p → Calls q (add h p)
  scheduled :
      {p : EventQueue} (now : ℕ) (k : Str) (w : EventWork) (delay : ℕ) (reason : Str)
      → Calls q p
      → Calls q (schedule_group now k w delay reason p)
  released : {p : EventQueue} (now : ℕ) → Calls q p → Calls q (release_due now p)
  closing : {p : EventQueue} → Calls q p → Calls q (close p)

close-IsCovered : (e : Entry) (q : EventQueue) → IsCovered e q → IsCovered e (close q)
unfolding close
close-IsCovered e q h = if_cases (IsCovered e) q.closed _ _ (λ _. h) (λ _. h)

Calls-IsCovered : (e : Entry) {q p : EventQueue} → IsCovered e q → Calls q p → IsCovered e p
Calls-IsCovered e h none_yet = h
Calls-IsCovered e h (added hint c) = add-IsCovered e hint _ (Calls-IsCovered e h c)
Calls-IsCovered e h (scheduled now k w delay reason c) =
    schedule_group-IsCovered e now k w delay reason _ (Calls-IsCovered e h c)
Calls-IsCovered e h (released now c) = release_due-IsCovered e now _ (Calls-IsCovered e h c)
Calls-IsCovered e h (closing c) = close-IsCovered e _ (Calls-IsCovered e h c)

-- What a hint asks for.
abbrev pub asked : Hint → Entry
asked h =
    if not (is_empty h.user_key)
    then for_user h.user_key (user_work h)
    else for_group h.group_key (group_work h)

abbrev pub InBatch : Hint → EventBatch → Type 0
InBatch h b = (b.global_repair ≡ true) ⊎ Holds (asked h) b.groups b.users

put_user-own :
    (k : Str) (w : UserWork) (o : Option UserWork) (q : EventQueue)
    → HoldsUser w (lookup k (put_user k w o q).users)
unfolding put_user
put_user-own k w none q = rw lookup-insert_self (λ a. a, λ a. a)
put_user-own k w (some c) q = rw lookup-insert_self (λ a. ground arith, λ a. ground arith)

put_group-own :
    (k : Str) (w : EventWork) (o : Option EventWork) (q : EventQueue)
    → HoldsGroup w (lookup k (put_group k w o q).groups)
unfolding put_group
put_group-own k w none q = rw lookup-insert_self (λ a. a, λ a. a)
put_group-own k w (some c) q = rw lookup-insert_self (λ a. ground arith, λ a. ground arith)

add-asked : (h : Hint) (q : EventQueue) → q.closed ≡ false → IsCovered (asked h) (add h q)
unfolding add
add-asked h q o =
    let as_user = put_user h.user_key (user_work h) (lookup h.user_key q.users) q in
    let as_group = put_group h.group_key (group_work h) (lookup h.group_key q.groups) q in
    if_cases Covers q.closed _ _ (λ c. absurd (ground arith))
      λ _.
        if_cases Covers h.global_repair _ _ (λ _. global_locked-IsCovered (asked h) q)
          λ _.
            if_cases Covers q.global _ _ (λ g. inl g)
              λ _.
                if_cases Covers (not (is_empty h.user_key)) _ _
                  (λ u.
                    subst (λ e. IsCovered e (settle as_user))
                      (sym (if_true (not (is_empty h.user_key)) _ _ u))
                      (settle-IsCovered (for_user h.user_key (user_work h)) as_user
                        (put_user-own h.user_key (user_work h) (lookup h.user_key q.users) q)))
                  λ u.
                    if_cases Covers (not (is_empty h.group_key)) _ _
                      (λ k.
                        subst (λ e. IsCovered e (settle as_group))
                          (sym (if_false (not (is_empty h.user_key)) _ _ u))
                          (settle-IsCovered (for_group h.group_key (group_work h)) as_group (
                            put_group-own h.group_key (group_work h) (lookup h.group_key q.groups)
                              q)))
                      λ k. global_locked-IsCovered (asked h) q
  where
    Covers : EventQueue → Type 0
    Covers = IsCovered (asked h)

-- A hint that an open queue takes is in the batch of the next drain, with all the work that it
-- asks for, or the batch asks for a global repair, whatever is called in between.
pub no_hint_lost :
    (h : Hint) (q p : EventQueue) → q.closed ≡ false → Calls (add h q) p → InBatch h (drain p).0
unfolding drain
no_hint_lost h q p o c = Calls-IsCovered (asked h) (add-asked h q o) c
