-- ===== src/Events/Burst.antt =====
-- internal/reconcile/trigger.go: the wait for a burst of hints to settle. A `select` with several
-- channels that are ready takes any of them, so a round of the loop is a step of a relation.
use group_bridge.Base.{
  ℕ, ◌+◌, ◌≤◌, inl, inr, le_or_lt, ◌≡◌, refl, Bool, true, false, List, [], ◌∷◌, arith,
}

-- What arrives on a channel: the end of the context or of the process, a trigger, or the end of
-- the channel of triggers.
pub data Signal : Type 0 where
  done stopping trigger closing : Signal

pub record Arrival : Type 0 where
  pub at : ℕ
  pub signal : Signal

-- No arrival is ready before the time.
abbrev pub IsQuiet : ℕ → List Arrival → Type 0
IsQuiet t [] = Unit
IsQuiet t (a ∷ rest) = t ≤ a.at

-- The loop between two rounds, with the time of the last round, the time at which the timer of the
-- quiet period fires and what is still to arrive; or what was returned and when.
pub data BurstState : Type 0 where
  waiting : ℕ → ℕ → List Arrival → BurstState
  returned : Bool → ℕ → BurstState

-- A round: the channel that is ready first is taken, and any of those that are ready at one time. A
-- trigger starts the timer of the quiet period again.
pub data Round (window maximum : ℕ) : BurstState → BurstState → Type 0 where
  maximum_fires :
      {now settle : ℕ} {arrivals : List Arrival}
      → maximum ≤ settle
      → IsQuiet maximum arrivals
      → Round window maximum (waiting now settle arrivals) (returned true maximum)
  settle_fires :
      {now settle : ℕ} {arrivals : List Arrival}
      → settle ≤ maximum
      → IsQuiet settle arrivals
      → Round window maximum (waiting now settle arrivals) (returned true settle)
  trigger_taken :
      {now settle : ℕ} {a : Arrival} {rest : List Arrival}
      → a.signal ≡ Signal.trigger
      → a.at ≤ settle
      → a.at ≤ maximum
      → Round window maximum (waiting now settle (a ∷ rest)) (waiting a.at (a.at + window) rest)
  closing_taken :
      {now settle : ℕ} {a : Arrival} {rest : List Arrival}
      → a.signal ≡ Signal.closing
      → a.at ≤ settle
      → a.at ≤ maximum
      → Round window maximum (waiting now settle (a ∷ rest)) (returned true a.at)
  done_taken :
      {now settle : ℕ} {a : Arrival} {rest : List Arrival}
      → a.signal ≡ Signal.done
      → a.at ≤ settle
      → a.at ≤ maximum
      → Round window maximum (waiting now settle (a ∷ rest)) (returned false a.at)
  stopping_taken :
      {now settle : ℕ} {a : Arrival} {rest : List Arrival}
      → a.signal ≡ Signal.stopping
      → a.at ≤ settle
      → a.at ≤ maximum
      → Round window maximum (waiting now settle (a ∷ rest)) (returned false a.at)

-- The call, at the time at which both timers start.
abbrev pub wait_for_trigger_burst : ℕ → ℕ → List Arrival → BurstState
wait_for_trigger_burst start window arrivals = waiting start (start + window) arrivals

-- Every run from here, whichever channels are taken, comes to a return, none of its rounds and
-- returns is after the time given, and before it has returned another round is possible.
pub data EndsBy (window maximum : ℕ) : BurstState → Type 0 where
  ended : (answer : Bool) (t : ℕ) → t ≤ maximum → EndsBy window maximum (returned answer t)
  going :
      (now settle : ℕ) (arrivals : List Arrival) (next : BurstState)
      → now ≤ maximum
      → Round window maximum (waiting now settle arrivals) next
      → ((s : BurstState)
          → Round window maximum (waiting now settle arrivals) s
          → EndsBy window maximum s)
      → EndsBy window maximum (waiting now settle arrivals)

-- A round is always possible: a timer fires, or what arrives first is taken.
timer_fires :
    (window maximum now settle : ℕ) (arrivals : List Arrival)
    → (maximum ≤ settle → IsQuiet maximum arrivals)
    → (settle ≤ maximum → IsQuiet settle arrivals)
    → (next : BurstState) × Round window maximum (waiting now settle arrivals) next
timer_fires window maximum now settle arrivals m s = elim (le_or_lt maximum settle) [
  | inl p ↦ (returned true maximum, maximum_fires p (m p))
  | inr p ↦ (returned true settle, settle_fires (ground arith) (s (ground arith)))
]

arrival_taken :
    (window maximum now settle : ℕ) (a : Arrival) (signal : Signal) (rest : List Arrival)
    → a.signal ≡ signal
    → a.at ≤ settle
    → a.at ≤ maximum
    → (next : BurstState) × Round window maximum (waiting now settle (a ∷ rest)) next
arrival_taken window maximum now settle a Signal.trigger rest e p q =
    (waiting a.at (a.at + window) rest, trigger_taken e p q)
arrival_taken window maximum now settle a Signal.closing rest e p q =
    (returned true a.at, closing_taken e p q)
arrival_taken window maximum now settle a Signal.done rest e p q =
    (returned false a.at, done_taken e p q)
arrival_taken window maximum now settle a Signal.stopping rest e p q =
    (returned false a.at, stopping_taken e p q)

can_go :
    (window maximum now settle : ℕ) (arrivals : List Arrival)
    → (next : BurstState) × Round window maximum (waiting now settle arrivals) next
can_go window maximum now settle [] = timer_fires window maximum now settle [] (λ _. tt) (λ _. tt)
can_go window maximum now settle (a ∷ rest) =
    let fires = timer_fires window maximum now settle (a ∷ rest) in
    elim (le_or_lt a.at settle) [
      | inr p ↦ fires (λ h. ground arith) (λ h. ground arith)
      | inl p ↦ elim (le_or_lt a.at maximum) [
        | inl q ↦ arrival_taken window maximum now settle a a.signal rest refl p q
        | inr q ↦ fires (λ h. ground arith) (λ h. ground arith)
      ]
    ]

-- The runs that follow the first arrival, if it is taken as a trigger, end in time.
abbrev TriggerEndsBy : ℕ → ℕ → List Arrival → Type 0
TriggerEndsBy window maximum [] = Unit
TriggerEndsBy window maximum (a ∷ rest) =
    a.at ≤ maximum → EndsBy window maximum (waiting a.at (a.at + window) rest)

Round-EndsBy :
    {window maximum now settle : ℕ} {arrivals : List Arrival} {s : BurstState}
    → TriggerEndsBy window maximum arrivals
    → Round window maximum (waiting now settle arrivals) s
    → EndsBy window maximum s
Round-EndsBy ih (maximum_fires p q) = ended _ _ (ground arith)
Round-EndsBy ih (settle_fires p q) = ended _ _ p
Round-EndsBy ih (trigger_taken e p q) = ih q
Round-EndsBy ih (closing_taken e p q) = ended _ _ q
Round-EndsBy ih (done_taken e p q) = ended _ _ q
Round-EndsBy ih (stopping_taken e p q) = ended _ _ q

waiting-EndsBy :
    (window maximum now settle : ℕ) (arrivals : List Arrival)
    → now ≤ maximum
    → EndsBy window maximum (waiting now settle arrivals)
waiting-EndsBy window maximum now settle [] l =
    let (next, r) = can_go window maximum now settle [] in
    going now settle [] next l r (λ s. Round-EndsBy tt)
waiting-EndsBy window maximum now settle (a ∷ rest) l =
    let (next, r) = can_go window maximum now settle (a ∷ rest) in
    going now settle (a ∷ rest) next l r
      (λ s. Round-EndsBy (waiting-EndsBy window maximum a.at (a.at + window) rest))

-- Whatever arrives, and whichever of the channels that are ready are taken, every run of the wait
-- returns; no round and no return is later than the longest delay after its start, and until the
-- return another round is possible.
pub burst_ends :
    (start window delay : ℕ) (arrivals : List Arrival)
    → EndsBy window (start + delay) (wait_for_trigger_burst start window arrivals)
burst_ends start window delay arrivals =
    waiting-EndsBy window (start + delay) start (start + window) arrivals (omega arith)
