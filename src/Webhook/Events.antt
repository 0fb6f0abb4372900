-- ===== src/Webhook/Events.antt =====
-- internal/webhook/keycloak.go: the event envelope and its classification as a hint.
use group_bridge.Base.{
  ℕ, Bool, true, false, not, ◌&&◌, ◌||◌, Option, none, some, [], ◌∷◌, ◌==◌, ◌!=◌, if◌then◌else◌,
  Str, str_eq, number_eq, bytes, is_empty, leb, length,
}

pub record Envelope : Type 0 where
  pub spec_version : Str
  pub event_id : Str
  pub occurred_at : Str
  pub realm_name : Str
  pub resource_type : Str
  pub operation_type : Str
  pub group_key : Str
  pub user_key : Str

pub record Hint : Type 0 where
  pub resource_type : Str
  pub operation_type : Str
  pub group_key : Str
  pub user_key : Str
  pub global_repair : Bool

-- '0' to '9' and 'a' to 'f'
unfoldable pub is_hex_digit : ℕ → Bool
is_hex_digit c = (leb 48 c && leb c 57) || (leb 97 c && leb c 102)

unfoldable pub all_hex : Str → Bool
unfolding is_hex_digit
all_hex [] = true
all_hex (c ∷ s) = is_hex_digit c && all_hex s

-- The length is that of a SHA-256 sum in hexadecimal.
unfoldable pub valid_routing_key : Str → Bool
unfolding all_hex
valid_routing_key value = if length value == 64 then all_hex value else false

abbrev pub plain_hint : Envelope → Str → Str → Bool → Hint
plain_hint e group_key user_key global_repair = record {
  resource_type = e.resource_type;
  operation_type = e.operation_type;
  group_key = group_key;
  user_key = user_key;
  global_repair = global_repair;
}

-- What follows the switch: a hint with no key asks for a global repair, and any key is checked.
unfoldable pub finish : Envelope → Str → Str → Option Hint
unfolding valid_routing_key
finish e group_key user_key =
    if is_empty group_key && is_empty user_key
    then some (plain_hint e group_key user_key true)
    else if (not (is_empty group_key) && not (valid_routing_key group_key))
        || (not (is_empty user_key) && not (valid_routing_key user_key))
    then none
    else some (plain_hint e group_key user_key false)

unfoldable pub classify_user : Envelope → Option Hint
unfolding finish
classify_user e =
    if e.operation_type == bytes "LOGIN"
    then (if not (is_empty e.group_key) then none else finish e [] e.user_key)
    else if e.operation_type == bytes "CREATE"
    then (if not (is_empty e.user_key) then none else finish e e.group_key [])
    else if e.operation_type == bytes "UPDATE"
    then (if not (is_empty e.group_key) then none else finish e [] e.user_key)
    else if e.operation_type == bytes "DELETE"
    then (if is_empty e.group_key
        then (if is_empty e.user_key
            then some (plain_hint e [] [] true)
            else finish e e.group_key e.user_key)
        else if is_empty e.user_key
        then finish e e.group_key e.user_key
        else none)
    else none

unfoldable pub classify : Envelope → Option Hint
unfolding finish classify_user
classify e =
    if e.resource_type == bytes "GROUP"
    then (if e.operation_type != bytes "CREATE"
          && (e.operation_type != bytes "UPDATE" && e.operation_type != bytes "DELETE")
        then none
        else if not (is_empty e.user_key)
        then none
        else finish e e.group_key [])
    else if e.resource_type == bytes "GROUP_MEMBERSHIP"
    then (if e.operation_type != bytes "CREATE" && e.operation_type != bytes "DELETE"
        then none
        else if not (is_empty e.user_key)
        then none
        else finish e e.group_key [])
    else if e.resource_type == bytes "USER"
    then classify_user e
    else none
