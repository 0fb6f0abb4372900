-- ===== src/Events/Bounded.antt =====
-- The queue stays within its limit, and its timer is armed while delayed work waits.
use group_bridge.Base.{
  ℕ, ◌≤◌, ◌<◌, ◌≡◌, refl, Bool, true, false, not, Option, none, some, [], ◌∷◌, ◌==◌, if◌then◌else◌,
  if_cases, arith, Str, str_eq, bytes, is_empty, leb, ltb,
}
use group_bridge.Base.Map.{
  Map, lookup, insert, erase, IsUnique, Stands, insert-IsUnique, erase-IsUnique, length-erase_has,
  length-erase, length-insert_le, length-insert_known, Stands-self, Stands-erase,
}
use group_bridge.Webhook.Events.{Hint}
use group_bridge.Events.Queue.{
  max_dirty_routes, EventWork, merge, work_at, UserWork, DelayedWork, EventQueue, dirty, coalesce,
  signal_locked, global_locked, put_user, put_group, settle, add, earliest, rearmed,
  reset_timer_locked, delayed_key, schedule_at, schedule_group, drain, close, release_group,
  release_each, release_due,
}

-- The routes that wait are at most the limit; while a global repair is pending no group and no user
-- waits, though work may be delayed; and work is delayed only while a timer will release it, unless the queue is closed.
pub record IsSound (q : EventQueue) : Type 0 where
  pub fits : dirty q ≤ max_dirty_routes
  pub alone : q.global ≡ true → (q.groups ≡ []) × (q.users ≡ [])
  pub unique : IsUnique q.delayed
  pub armed : q.closed ≡ false → q.timer ≡ none → earliest q.delayed ≡ none

global_locked-IsSound : (q : EventQueue) → IsSound (global_locked q)
unfolding global_locked earliest
global_locked-IsSound q = record {
  fits = ground arith;
  alone = λ g. (refl, refl);
  unique = tt;
  armed = λ o t. refl;
}

settle-IsSound :
    (q : EventQueue)
    → q.global ≡ false
    → IsUnique q.delayed
    → (q.closed ≡ false → q.timer ≡ none → earliest q.delayed ≡ none)
    → IsSound (settle q)
unfolding settle signal_locked
settle-IsSound q g u a = by_size (ltb max_dirty_routes (dirty q)) (λ h. ground arith)
  where
    by_size :
        (b : Bool)
        → (b ≡ false → dirty q ≤ max_dirty_routes)
        → IsSound (if b then global_locked q else signal_locked q)
    by_size true h = global_locked-IsSound q
    by_size false h = record { fits = h refl; alone = λ g'. ground arith; unique = u; armed = a }

put_user-IsSound :
    (k : Str) (w : UserWork) (o : Option UserWork) (q : EventQueue)
    → IsSound q
    → q.global ≡ false
    → IsSound (settle (put_user k w o q))
unfolding put_user
put_user-IsSound k w none q s g = settle-IsSound _ g s.unique s.armed
put_user-IsSound k w (some c) q s g = settle-IsSound _ g s.unique s.armed

put_group-IsSound :
    (k : Str) (w : EventWork) (o : Option EventWork) (q : EventQueue)
    → IsSound q
    → q.global ≡ false
    → IsSound (settle (put_group k w o q))
unfolding put_group
put_group-IsSound k w none q s g = settle-IsSound _ g s.unique s.armed
put_group-IsSound k w (some c) q s g = settle-IsSound _ g s.unique s.armed

pub add-IsSound : (h : Hint) (q : EventQueue) → IsSound q → IsSound (add h q)
unfolding add
add-IsSound h q s =
    if_cases IsSound q.closed _ _ (λ c. s)
      λ c.
        if_cases IsSound h.global_repair _ _ (λ g. global_locked-IsSound q)
          λ g.
            if_cases IsSound q.global _ _
              (λ e. record { fits = s.fits; alone = s.alone; unique = s.unique; armed = s.armed })
              λ e.
                if_cases IsSound (not (is_empty h.user_key)) _ _ (λ u. put_user-IsSound _ _ _ q s e)
                  λ u.
                    if_cases IsSound (not (is_empty h.group_key)) _ _
                      (λ k. put_group-IsSound _ _ _ q s e) λ k. global_locked-IsSound q

reset_timer_locked-IsSound :
    (now : ℕ) (q : EventQueue)
    → dirty q ≤ max_dirty_routes
    → (q.global ≡ true → (q.groups ≡ []) × (q.users ≡ []))
    → IsUnique q.delayed
    → IsSound (reset_timer_locked now q)
unfolding reset_timer_locked
reset_timer_locked-IsSound now q f a u = record {
  fits = f;
  alone = a;
  unique = u;
  armed = λ o. by_time (earliest q.delayed);
}
  where
    by_time : (e : Option ℕ) → rearmed now e ≡ none → e ≡ none
    by_time none h = refl
    by_time (some e) h = cc

schedule_at-IsSound :
    (now : ℕ) (k : Str) (w : EventWork) (due : ℕ) (reason : Str) (o : Option DelayedWork)
    (q : EventQueue)
    → IsSound q
    → lookup (delayed_key reason k) q.delayed ≡ o
    → IsSound (schedule_at now k w due reason o q)
unfolding schedule_at
schedule_at-IsSound now k w due reason (some c) q s e =
    let d : DelayedWork = record c { due = due; work = merge c.work w } in
    reset_timer_locked-IsSound now
      (coalesce (record q { delayed = insert (delayed_key reason k) d q.delayed }))
      (omega (arith, length-insert_known (delayed_key reason k) d c q.delayed e, s.fits)) s.alone
      (insert-IsUnique _ _ q.delayed s.unique)
schedule_at-IsSound now k w due reason none q s e =
    by_size (leb max_dirty_routes (dirty q)) (λ h. ground arith)
  where
    new : DelayedWork
    new = record { route_key = k; reason = reason; work = w; due = due }

    by_size :
        (b : Bool)
        → (b ≡ false → dirty q < max_dirty_routes)
        → IsSound (
            if b
            then global_locked q
            else reset_timer_locked now
                (record q { delayed = insert (delayed_key reason k) new q.delayed }))
    by_size true h = global_locked-IsSound q
    by_size false h =
        reset_timer_locked-IsSound now
          (record q { delayed = insert (delayed_key reason k) new q.delayed })
          (omega (arith, h refl, length-insert_le (delayed_key reason k) new q.delayed)) s.alone
          (insert-IsUnique _ _ q.delayed s.unique)

pub schedule_group-IsSound :
    (now : ℕ) (k : Str) (w : EventWork) (delay : ℕ) (reason : Str) (q : EventQueue)
    → IsSound q
    → IsSound (schedule_group now k w delay reason q)
unfolding schedule_group
schedule_group-IsSound now k w delay reason q s =
    if_cases IsSound q.closed _ _ (λ c. s) (λ c. schedule_at-IsSound now k w _ reason _ q s refl)

pub drain-IsSound : (q : EventQueue) → IsSound q → IsSound (drain q).1
unfolding drain
drain-IsSound q s = record {
  fits = omega (arith, s.fits);
  alone = λ g. (refl, refl);
  unique = s.unique;
  armed = s.armed;
}

pub close-IsSound : (q : EventQueue) → IsSound q → IsSound (close q)
unfolding close
close-IsSound q s =
    if_cases IsSound q.closed _ _ (λ c. s)
      λ c. record { fits = s.fits; alone = s.alone; unique = s.unique; armed = λ o. cc }

signal_locked-IsSound : (q : EventQueue) → IsSound q → IsSound (signal_locked q)
unfolding signal_locked
signal_locked-IsSound q s = record {
  fits = s.fits;
  alone = s.alone;
  unique = s.unique;
  armed = s.armed;
}

-- What the loop over the delayed work needs and leaves.
record IsReleasing (rest : Map Str DelayedWork) (q : EventQueue) : Type 0 where
  fits : dirty q ≤ max_dirty_routes
  alone : q.global ≡ true → (q.groups ≡ []) × (q.users ≡ [])
  unique : IsUnique q.delayed
  stands : Stands rest q.delayed

release_group-IsReleasing :
    (rest : Map Str DelayedWork) (k : Str) (d : DelayedWork) (q : EventQueue)
    → lookup k q.delayed ≡ some d
    → lookup k rest ≡ none
    → IsReleasing rest q
    → IsReleasing rest (release_group d (record q { delayed = erase k q.delayed }))
release_group-IsReleasing rest k d q e n s =
    if_cases (IsReleasing rest) q.global _ _
      (λ g. record {
        fits = omega (arith, length-erase k q.delayed, s.fits);
        alone = s.alone;
        unique = erase-IsUnique k q.delayed s.unique;
        stands = Stands-erase rest k q.delayed n s.stands;
      })
      (λ g. record {
        fits = omega (
          arith,
          length-erase_has k d q.delayed e,
          length-insert_le d.route_key (merge (work_at (lookup d.route_key q.groups)) d.work)
              q.groups,
          s.fits,
        );
        alone = λ g'. ground arith;
        unique = erase-IsUnique k q.delayed s.unique;
        stands = Stands-erase rest k q.delayed n s.stands;
      })

abbrev Released : Bool × EventQueue → Type 0
Released (true, q) = IsSound q
Released (false, q) = IsReleasing [] q

release_each-IsSound :
    (now : ℕ) (rest : Map Str DelayedWork) (q : EventQueue)
    → IsReleasing rest q
    → Released (release_each now rest q)
unfolding release_each
release_each-IsSound now [] q s = s
release_each-IsSound now ((k, d) ∷ rest) q s =
    let (e, n, more) = s.stands in
    let here : IsReleasing rest q = record {
      fits = s.fits;
      alone = s.alone;
      unique = s.unique;
      stands = more;
    } in
    if_cases Released (ltb now d.due) _ _ (λ l. release_each-IsSound now rest q here)
      λ l.
        if_cases Released (d.reason == bytes "global") _ _ (λ g. global_locked-IsSound _)
          λ g. release_each-IsSound now rest _ (release_group-IsReleasing rest k d q e n here)

pub release_due-IsSound : (now : ℕ) (q : EventQueue) → IsSound q → IsSound (release_due now q)
unfolding release_due
release_due-IsSound now q s =
    if_cases IsSound q.closed _ _ (λ c. s)
      λ c. by_end (release_each now q.delayed q) (
        release_each-IsSound now q.delayed q (record {
          fits = s.fits;
          alone = s.alone;
          unique = s.unique;
          stands = Stands-self q.delayed s.unique;
        }))
  where
    by_end :
        (p : Bool × EventQueue)
        → Released p
        → IsSound (
            if p.0
            then p.1
            else signal_locked (reset_timer_locked now (record p.1 { timer = none })))
    by_end (true, p) r = r
    by_end (false, p) r =
        signal_locked-IsSound _
          (reset_timer_locked-IsSound now (record p { timer = none }) r.fits r.alone r.unique)
