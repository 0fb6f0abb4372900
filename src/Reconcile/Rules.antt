-- ===== src/Reconcile/Rules.antt =====
-- internal/reconcile/reconciler.go, internal/config/config.go and internal/provider/provider.go:
-- the rules, and the providers that a configuration names.
use group_bridge.Base.{
  ℕ, Bool, true, false, Option, none, some, List, [], ◌∷◌, ◌++◌, if◌then◌else◌, contains, Str,
  str_eq, bytes, is_empty, has_prefix,
}
use group_bridge.Base.Map.{Map, lookup, insert, values}
use group_bridge.Model.{Group}
use group_bridge.State.Ledger.{GroupMapping}

pub record VaultRule : Type 0 where
  pub path_prefix : Str
  pub access_profile : Str
  pub policy_mode : Str
  pub discoverable : Bool

-- `source_group_paths` is `none` where the configuration has no list, and `vault` where it has no
-- such section.
pub record Rule : Type 0 where
  pub name : Str
  pub source_group_prefix : Str
  pub source_group_paths : Option (List Str)
  pub target_provider : Str
  pub target_parent : Str
  pub create_groups : Bool
  pub adopt_existing_group : Bool
  pub access_level : Str
  pub prune : Str
  pub protected_users : List Str
  pub max_removals : ℕ
  pub identity_match : List Str
  pub enforce_access_level : Bool
  pub vault : Option VaultRule

-- Which of the interfaces a compiled provider has, by its name.
pub record Provider : Type 0 where
  pub name : Str
  pub syncs_groups : Bool
  pub syncs_access : Bool

abbrev pub Registry : Type 0
Registry = Map Str Provider

-- A provider takes the place of an earlier one with its name.
unfoldable pub register : List Provider → Registry → Registry
register [] r = r
register (p ∷ ps) r = register ps (insert p.name p r)

abbrev pub new_registry : List Provider → Registry
new_registry providers = register providers []

unfoldable pub get : Str → Registry → Option Provider
get name r = lookup name r

abbrev pub all : Registry → List Provider
all r = values r

unfoldable pub source_path_allowed : Rule → Str → Bool
source_path_allowed rule path = elim rule.source_group_paths [
  | none ↦ true
  | some allowed ↦ contains allowed path
]

abbrev pub is_vault : Rule → Bool
is_vault rule = elim rule.vault [ none ↦ false | some v ↦ true ]

abbrev pub is_listed : Rule → Bool
is_listed rule = elim rule.source_group_paths [ none ↦ false | some paths ↦ true ]

unfoldable pub source_state_key : Rule → Group → Str
source_state_key rule group =
    if is_vault rule then group.path else if is_listed rule then group.path else group.id

unfoldable pub source_native_id : GroupMapping → Str
source_native_id m = if is_empty m.source_native_id then m.source_group_id else m.source_native_id

unfoldable pub vault_policy_mode : VaultRule → Str
vault_policy_mode v = if is_empty v.policy_mode then bytes "verify-only" else v.policy_mode

-- The mapping is one of the rule, at the rule's provider.
abbrev pub is_at_provider : Rule → GroupMapping → Bool
is_at_provider rule m = has_prefix m.provider (rule.target_provider ++ (64 ∷ []))
