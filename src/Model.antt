-- ===== src/Model.antt =====
-- internal/model/model.go: the provider-neutral data that the parts exchange.
use group_bridge.Base.{ℕ, Bool, List, Str}

pub record User : Type 0 where
  pub id : Str
  pub username : Str
  pub email : Str

pub record Group : Type 0 where
  pub id : Str
  pub name : Str
  pub path : Str
  pub members : List User

pub record SyncRequest : Type 0 where
  pub rule_name : Str
  pub state_key : Str
  pub source_group : Group
  pub target_path : Str
  pub target_parent : Str
  pub create_group : Bool
  pub adopt_existing_group : Bool
  pub access_level : Str
  pub prune : Str
  pub protected_users : List Str
  pub max_removals : ℕ
  pub identity_match : List Str
  pub enforce_access_level : Bool
  pub immediate_removal : Bool

-- The numbers of a reconciliation. The duration is left out: nothing depends on it.
pub record SyncResult : Type 0 where
  pub created_group : Bool
  pub added : ℕ
  pub updated : ℕ
  pub removed : ℕ
  pub unresolved : ℕ
  pub skipped_removal : ℕ
  pub converged : Bool

pub record AccessSyncRequest : Type 0 where
  pub rule_name : Str
  pub state_key : Str
  pub source_group : Group
  pub secret_path : Str
  pub access_profile : Str
  pub policy_mode : Str
  pub discoverable : Bool

pub record AccessResult : Type 0 where
  pub verified_policy : Bool
  pub converged : Bool
