-- ===== src/Events/Sound.antt =====
-- The states that the queue reaches, and what holds in all of them.
use group_bridge.Base.{ℕ, refl, arith, Str}
use group_bridge.Webhook.Events.{Hint}
use group_bridge.Events.Queue.{
  EventWork, EventQueue, new_event_queue, add, earliest, schedule_group, drain, close, release_due,
}
use group_bridge.Events.Bounded.{
  IsSound, add-IsSound, schedule_group-IsSound, drain-IsSound, close-IsSound, release_due-IsSound,
}

-- The methods in any order, each in its own turn at the mutex. The timer runs `release_due`, at
-- any time, since a timer that is stopped may still run once more.
pub data Reachable : EventQueue → Type 0 where
  created : Reachable new_event_queue
  adds : {q : EventQueue} (h : Hint) → Reachable q → Reachable (add h q)
  schedules :
      {q : EventQueue} (now : ℕ) (route_key : Str) (work : EventWork) (delay : ℕ) (reason : Str)
      → Reachable q
      → Reachable (schedule_group now route_key work delay reason q)
  drains : {q : EventQueue} → Reachable q → Reachable (drain q).1
  closes : {q : EventQueue} → Reachable q → Reachable (close q)
  releases : {q : EventQueue} (now : ℕ) → Reachable q → Reachable (release_due now q)

new_event_queue-IsSound : IsSound new_event_queue
unfolding earliest
new_event_queue-IsSound = record {
  fits = ground arith;
  alone = λ g. (refl, refl);
  unique = tt;
  armed = λ o t. refl;
}

-- In every state that the queue reaches, at most 10000 routes wait, counting groups, users and
-- delayed work; while a global repair is pending no group and no user waits; no two delayed entries
-- have one key; and an open queue without a timer has no delayed work.
pub Reachable-IsSound : {q : EventQueue} → Reachable q → IsSound q
Reachable-IsSound created = new_event_queue-IsSound
Reachable-IsSound (adds h r) = add-IsSound h _ (Reachable-IsSound r)
Reachable-IsSound (schedules now k w delay reason r) =
    schedule_group-IsSound now k w delay reason _ (Reachable-IsSound r)
Reachable-IsSound (drains r) = drain-IsSound _ (Reachable-IsSound r)
Reachable-IsSound (closes r) = close-IsSound _ (Reachable-IsSound r)
Reachable-IsSound (releases now r) = release_due-IsSound now _ (Reachable-IsSound r)
