-- ===== src/Webhook/Classified.antt =====
-- What the classification of an event guarantees, and which events it takes.
use group_bridge.Base.{
  ◌≤◌, ◌≡◌, ◌⊎◌, inl, inr, true, false, some, [], ◌∷◌, arith, All, length, Str, str_eq, number_eq,
  bytes,
}
use group_bridge.Webhook.Events.{
  Envelope, Hint, is_hex_digit, all_hex, valid_routing_key, finish, classify_user, classify,
}

-- Sixty-four digits, '0' to '9' and 'a' to 'f'.
abbrev pub IsHexKey : Str → Type 0
IsHexKey k = (length k ≡ 64) × All (λ c. ((48 ≤ c) × (c ≤ 57)) ⊎ ((97 ≤ c) × (c ≤ 102))) k

-- The events that are about a group, and name no user.
abbrev pub OnGroup : Envelope → Type 0
OnGroup e =
    (e.user_key ≡ [])
    × (((e.resource_type ≡ bytes "GROUP")
          × ((e.operation_type ≡ bytes "CREATE")
              ⊎ (e.operation_type ≡ bytes "UPDATE")
              ⊎ (e.operation_type ≡ bytes "DELETE")))
        ⊎ ((e.resource_type ≡ bytes "GROUP_MEMBERSHIP")
            × ((e.operation_type ≡ bytes "CREATE") ⊎ (e.operation_type ≡ bytes "DELETE")))
        ⊎ ((e.resource_type ≡ bytes "USER")
            × ((e.operation_type ≡ bytes "CREATE") ⊎ (e.operation_type ≡ bytes "DELETE"))))

-- The events that are about a user, and name no group.
abbrev pub OnUser : Envelope → Type 0
OnUser e =
    (e.group_key ≡ [])
    × (e.resource_type ≡ bytes "USER")
    × ((e.operation_type ≡ bytes "LOGIN")
        ⊎ (e.operation_type ≡ bytes "UPDATE")
        ⊎ (e.operation_type ≡ bytes "DELETE"))

-- The hint has the event's words and keys. It asks for a global repair and names nothing, or it
-- names one group or one user by a key in hexadecimal, and not both.
abbrev pub IsTargeted : Envelope → Hint → Type 0
IsTargeted e h =
    (OnGroup e ⊎ OnUser e)
    × (h.resource_type ≡ e.resource_type)
    × (h.operation_type ≡ e.operation_type)
    × (h.group_key ≡ e.group_key)
    × (h.user_key ≡ e.user_key)
    × (((h.global_repair ≡ true) × (h.group_key ≡ []) × (h.user_key ≡ []))
        ⊎ ((h.global_repair ≡ false) × (h.user_key ≡ []) × IsHexKey h.group_key)
        ⊎ ((h.global_repair ≡ false) × (h.group_key ≡ []) × IsHexKey h.user_key))

all_hex-All :
    (s : Str) → all_hex s ≡ true → All (λ c. ((48 ≤ c) × (c ≤ 57)) ⊎ ((97 ≤ c) × (c ≤ 102))) s
unfolding all_hex is_hex_digit
all_hex-All [] h = tt
all_hex-All (c ∷ s) h = (ground (arith, h), all_hex-All s (ground (arith, h)))

valid_routing_key-IsHexKey : (k : Str) → valid_routing_key k ≡ true → IsHexKey k
unfolding valid_routing_key
valid_routing_key-IsHexKey k h = (ground (arith, h), all_hex-All k (ground (arith, h)))

one_empty : (e : Envelope) → OnGroup e ⊎ OnUser e → (e.group_key ≡ []) ⊎ (e.user_key ≡ [])
one_empty e (inl g) = inr g.0
one_empty e (inr u) = inl u.0

-- What `finish` makes of two keys of which one is empty.
finish-shape :
    (e : Envelope) (g u : Str) (h : Hint)
    → (g ≡ []) ⊎ (u ≡ [])
    → finish e g u ≡ some h
    → ((h.global_repair ≡ true) × (h.group_key ≡ []) × (h.user_key ≡ []))
      ⊎ ((h.global_repair ≡ false) × (h.user_key ≡ []) × (valid_routing_key h.group_key ≡ true))
      ⊎ ((h.global_repair ≡ false) × (h.group_key ≡ []) × (valid_routing_key h.user_key ≡ true))
unfolding finish
finish-shape e g u h o p = ground arith

finish-IsTargeted :
    (e : Envelope) (h : Hint)
    → OnGroup e ⊎ OnUser e
    → finish e e.group_key e.user_key ≡ some h
    → IsTargeted e h
finish-IsTargeted e h about p = (
  about,
  words.0,
  words.1,
  words.2,
  words.3,
  elim (finish-shape e e.group_key e.user_key h (one_empty e about) p) [
    | inl g ↦ inl g
    | inr (inl (n, u, k)) ↦ inr (inl (n, u, valid_routing_key-IsHexKey h.group_key k))
    | inr (inr (n, g, k)) ↦ inr (inr (n, g, valid_routing_key-IsHexKey h.user_key k))
  ],
)
  where
    words :
        (h.resource_type ≡ e.resource_type)
        × (h.operation_type ≡ e.operation_type)
        × (h.group_key ≡ e.group_key)
        × (h.user_key ≡ e.user_key)
    words =
        unfold finish in
        (ground (arith, p), ground (arith, p), ground (arith, p), ground (arith, p))

classify_user-finish :
    (e : Envelope) (h : Hint)
    → e.resource_type ≡ bytes "USER"
    → classify_user e ≡ some h
    → (OnGroup e ⊎ OnUser e) × (finish e e.group_key e.user_key ≡ some h)
unfolding classify_user
classify_user-finish e h r p = (ground (arith, r, p), ground (arith, p))

classify-finish :
    (e : Envelope) (h : Hint)
    → classify e ≡ some h
    → (OnGroup e ⊎ OnUser e) × (finish e e.group_key e.user_key ≡ some h)
unfolding classify
classify-finish e h p = ground (arith, p, classify_user-finish e h)

-- Whatever event is taken, it is about a group and names no user, or is about a user and names no
-- group, with an operation that is known for its type; its hint has its words and its keys, and asks
-- for a global repair alone, or names exactly one group or user by a key of 64 hexadecimal digits.
pub classify-IsTargeted : (e : Envelope) (h : Hint) → classify e ≡ some h → IsTargeted e h
classify-IsTargeted e h p = let q = classify-finish e h p in finish-IsTargeted e h q.0 q.1
