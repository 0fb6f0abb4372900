-- ===== src/Events/Tests.antt =====
-- Runs of the queue and the index, and their theorems at concrete data.
use group_bridge.Base.{
  ◌≡◌, ◌+◌, List, refl, str_eq, number_eq, Str, bytes, true, false, none, some, [], ◌∷◌,
}
use group_bridge.Base.Map.{lookup, insert}
use group_bridge.Model.{User, Group}
use group_bridge.Webhook.Events.{Hint}
use group_bridge.Events.Queue.{
  EventQueue, no_work, new_event_queue, add, settle, signal_locked, put_group, earliest,
  schedule_at, schedule_group, reset_timer_locked, drain, release_each, release_due,
}
use group_bridge.Events.Bounded.{IsSound}
use group_bridge.Events.Sound.{created, adds, drains, Reachable-IsSound}
use group_bridge.Events.Covered.{none_yet, added, released, InBatch, no_hint_lost}
use group_bridge.Events.Routes.{
  RouteCall, replacing, updating, refreshing, new_route_index, route_calls,
}
use group_bridge.Events.Indexed.{IsIndexed, route_calls-IsIndexed}
use group_bridge.Events.Burst.{Signal, Arrival, EndsBy, wait_for_trigger_burst, burst_ends}

abbrev removal : Hint
removal = record {
  resource_type = bytes "GROUP_MEMBERSHIP";
  operation_type = bytes "DELETE";
  group_key = bytes "k1";
  user_key = [];
  global_repair = false;
}

abbrev change : Hint
change = record {
  resource_type = bytes "GROUP";
  operation_type = bytes "UPDATE";
  group_key = bytes "k1";
  user_key = [];
  global_repair = false;
}

abbrev two_hints : EventQueue
two_hints = add change (add removal new_event_queue)

-- The work of two hints on one group is merged.
two_hints_merged :
    (drain two_hints).0.groups
    ≡ (bytes "k1", record { all_providers = true; confirm_removal = true }) ∷ []
unfolding drain add settle signal_locked put_group lookup insert bytes str_eq
two_hints_merged = refl

-- Delayed work waits under its reason until it is due.
delayed_released :
    (release_due 400
      (schedule_group 100 (bytes "k1") no_work 300 (bytes "jit") new_event_queue)).groups
    ≡ (bytes "k1", no_work) ∷ []
unfolding release_due release_each schedule_group schedule_at reset_timer_locked signal_locked
    earliest lookup insert str_eq bytes
delayed_released = refl

Reachable-IsSound_example : IsSound (drain two_hints).1
Reachable-IsSound_example = Reachable-IsSound (drains (adds change (adds removal created)))

no_hint_lost_example : InBatch removal (drain (release_due 7 two_hints)).0
no_hint_lost_example =
    no_hint_lost removal new_event_queue (release_due 7 two_hints) refl
      (released 7 (added change none_yet))

-- A keyed hash without collisions.
abbrev plain : Str → Str → Str
plain secret message = message

abbrev word : Str
word = bytes "0123456789abcdef0123456789abcdef"

abbrev user : Str → User
user id = record { id = id; username = id; email = [] }

abbrev ops : Group
ops = record {
  id = bytes "g1";
  name = bytes "ops";
  path = bytes "/ops";
  members = user (bytes "ann") ∷ [];
}

abbrev calls : List RouteCall
calls =
    replacing (some word) (ops ∷ []) ∷ updating none ops ∷ refreshing (some (bytes "short")) ∷ []

route_calls-IsIndexed_example :
    IsIndexed plain (bytes "eng") (route_calls plain (bytes "eng") calls new_route_index)
route_calls-IsIndexed_example = route_calls-IsIndexed plain (bytes "eng") (λ s m m' e. e) calls

abbrev arrivals : List Arrival
arrivals =
    record { at = 1; signal = Signal.trigger } ∷ record { at = 30; signal = Signal.trigger } ∷ []

burst_ends_example : EndsBy 10 (0 + 25) (wait_for_trigger_burst 0 10 arrivals)
burst_ends_example = burst_ends 0 10 25 arrivals
