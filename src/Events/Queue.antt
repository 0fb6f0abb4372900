-- ===== src/Events/Queue.antt =====
-- internal/reconcile/events.go: the queue of dirty routes. The mutex makes each method one step,
-- and each takes the reading of the clock that it makes, in nanoseconds.
use Prim.Native.Nat.{min}
use group_bridge.Base.{
  ℕ, ◌+◌, ◌-◌, Bool, true, false, not, ◌&&◌, ◌||◌, Option, none, some, [], ◌∷◌, ◌++◌, ◌==◌, ◌!=◌,
  if◌then◌else◌, Str, str_eq, bytes, is_empty, leb, ltb, length, counted,
}
use group_bridge.Base.Map.{Map, lookup, insert, erase}
use group_bridge.Webhook.Events.{Hint}

abbrev pub max_dirty_routes : ℕ
max_dirty_routes = 10000

pub record EventWork : Type 0 where
  pub all_providers : Bool
  pub confirm_removal : Bool

abbrev pub no_work : EventWork
no_work = record { all_providers = false; confirm_removal = false }

abbrev pub merge : EventWork → EventWork → EventWork
merge w other = record {
  all_providers = w.all_providers || other.all_providers;
  confirm_removal = w.confirm_removal || other.confirm_removal;
}

pub record UserWork : Type 0 where
  pub jit_retry : Bool
  pub confirm_membership : Bool

abbrev pub merge_user : UserWork → UserWork → UserWork
merge_user w other = record {
  jit_retry = w.jit_retry || other.jit_retry;
  confirm_membership = w.confirm_membership || other.confirm_membership;
}

pub record DelayedWork : Type 0 where
  pub route_key : Str
  pub reason : Str
  pub work : EventWork
  pub due : ℕ

pub record EventBatch : Type 0 where
  pub groups : Map Str EventWork
  pub users : Map Str UserWork
  pub global_repair : Bool

-- `wake` says that the channel, which has room for one signal, holds one. `timer` is the time at
-- which the pending timer calls `release_due`.
pub record EventQueue : Type 0 where
  pub groups : Map Str EventWork
  pub users : Map Str UserWork
  pub global : Bool
  pub wake : Bool
  pub delayed : Map Str DelayedWork
  pub timer : Option ℕ
  pub closed : Bool
  pub coalesced : ℕ

abbrev pub new_event_queue : EventQueue
new_event_queue = record {
  groups = [];
  users = [];
  global = false;
  wake = false;
  delayed = [];
  timer = none;
  closed = false;
  coalesced = 0;
}

-- How many routes wait.
abbrev pub dirty : EventQueue → ℕ
dirty q = length q.groups + length q.users + length q.delayed

abbrev pub coalesce : EventQueue → EventQueue
coalesce q = record q { coalesced = counted q.coalesced 1 }

unfoldable pub signal_locked : EventQueue → EventQueue
signal_locked q = record q { wake = true }

unfoldable pub global_locked : EventQueue → EventQueue
unfolding signal_locked
global_locked q =
    let counted_q : EventQueue = if q.global then coalesce q else q in
    signal_locked
      (record counted_q { groups = []; users = []; delayed = []; global = true; timer = none })

abbrev pub user_work : Hint → UserWork
user_work h = record {
  jit_retry = h.operation_type == bytes "LOGIN";
  confirm_membership = h.operation_type == bytes "UPDATE" || h.operation_type == bytes "DELETE";
}

abbrev pub group_work : Hint → EventWork
group_work h = record {
  all_providers = h.resource_type == bytes "GROUP";
  confirm_removal = h.resource_type != bytes "GROUP" && h.operation_type == bytes "DELETE";
}

-- The work joins what waits under the key, which then counts as coalesced.
unfoldable pub put_user : Str → UserWork → Option UserWork → EventQueue → EventQueue
put_user k w none q = record q { users = insert k w q.users }
put_user k w (some current) q =
    coalesce (record q { users = insert k (merge_user current w) q.users })

unfoldable pub put_group : Str → EventWork → Option EventWork → EventQueue → EventQueue
put_group k w none q = record q { groups = insert k w q.groups }
put_group k w (some current) q =
    coalesce (record q { groups = insert k (merge current w) q.groups })

-- The last part of `Add`: too many routes end in a global repair.
unfoldable pub settle : EventQueue → EventQueue
settle q = if ltb max_dirty_routes (dirty q) then global_locked q else signal_locked q

unfoldable pub add : Hint → EventQueue → EventQueue
add h q =
    if q.closed
    then q
    else if h.global_repair
    then global_locked q
    else if q.global
    then coalesce q
    else if not (is_empty h.user_key)
    then settle (put_user h.user_key (user_work h) (lookup h.user_key q.users) q)
    else if not (is_empty h.group_key)
    then settle (put_group h.group_key (group_work h) (lookup h.group_key q.groups) q)
    else global_locked q

-- The earliest time at which delayed work falls due.
unfoldable pub earliest : Map Str DelayedWork → Option ℕ
earliest [] = none
earliest ((k, d) ∷ rest) = elim (earliest rest) [ none ↦ some d.due | some e ↦ some (min d.due e) ]

-- The timer runs out at the earliest time, or at once where that has passed.
abbrev pub rearmed : ℕ → Option ℕ → Option ℕ
rearmed now none = none
rearmed now (some e) = some (now + (e - now))

unfoldable pub reset_timer_locked : ℕ → EventQueue → EventQueue
unfolding earliest
reset_timer_locked now q = record q { timer = rearmed now (earliest q.delayed) }

abbrev pub delayed_key : Str → Str → Str
delayed_key reason route_key = reason ++ (0 ∷ route_key)

-- `ScheduleGroup` once the key is looked up.
unfoldable pub schedule_at :
    ℕ → Str → EventWork → ℕ → Str → Option DelayedWork → EventQueue → EventQueue
schedule_at now route_key work due reason (some current) q = reset_timer_locked now (
    coalesce (record q {
      delayed =
          insert (delayed_key reason route_key)
            (record current { due = due; work = merge current.work work }) q.delayed;
    }))
schedule_at now route_key work due reason none q =
    if leb max_dirty_routes (dirty q)
    then global_locked q
    else reset_timer_locked now (record q {
      delayed =
          insert (delayed_key reason route_key)
            (record { route_key = route_key; reason = reason; work = work; due = due }) q.delayed;
    })

unfoldable pub schedule_group : ℕ → Str → EventWork → ℕ → Str → EventQueue → EventQueue
schedule_group now route_key work delay reason q =
    if q.closed
    then q
    else schedule_at now route_key work (now + delay) reason
        (lookup (delayed_key reason route_key) q.delayed) q

unfoldable pub add_global_after : ℕ → ℕ → EventQueue → EventQueue
add_global_after now delay q = schedule_group now [] no_work delay (bytes "global") q

unfoldable pub drain : EventQueue → EventBatch × EventQueue
drain q = (
  record { groups = q.groups; users = q.users; global_repair = q.global },
  record q { groups = []; users = []; global = false },
)

unfoldable pub close : EventQueue → EventQueue
close q = if q.closed then q else record q { closed = true; timer = none }

abbrev pub work_at : Option EventWork → EventWork
work_at none = no_work
work_at (some w) = w

-- q.groups[routeKey] = q.groups[routeKey].merge(work), unless a global repair stands for it.
abbrev pub release_group : DelayedWork → EventQueue → EventQueue
release_group d q = if q.global then q else record q {
  groups = insert d.route_key (merge (work_at (lookup d.route_key q.groups)) d.work) q.groups;
}

-- The loop over the delayed work: `true` where it ended in a global repair.
unfoldable pub release_each : ℕ → Map Str DelayedWork → EventQueue → Bool × EventQueue
release_each now [] q = (false, q)
release_each now ((k, d) ∷ rest) q =
    let q' : EventQueue = record q { delayed = erase k q.delayed } in
    let later = release_each now rest q in
    let released = release_each now rest (release_group d q') in
    if ltb now d.due
    then later
    else if d.reason == bytes "global"
    then (true, global_locked q')
    else released

unfoldable pub release_due : ℕ → EventQueue → EventQueue
release_due now q =
    if q.closed
    then q
    else let (stopped, q') = release_each now q.delayed q in
      if stopped then q' else signal_locked (reset_timer_locked now (record q' { timer = none }))
