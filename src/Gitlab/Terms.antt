-- ===== src/Gitlab/Terms.antt =====
-- internal/provider/gitlab/client.go: the data and the conditions of `SyncGroup`.
use group_bridge.Base.{
  ℕ, ◌+◌, Bool, true, false, ◌||◌, Option, none, some, List, [], ◌∷◌, ◌++◌, ◌==◌, ◌!=◌,
  if◌then◌else◌, number_eq, Str, str_eq, bytes, contains, is_empty, leb,
}
use group_bridge.Base.Map.{Map, insert}
use group_bridge.Base.Exec.{Result, ok, err}
use group_bridge.Model.{SyncRequest, SyncResult}
use group_bridge.State.Ledger.{GroupMapping}
use group_bridge.Gitlab.Api.{GitGroup, Member, SyncError, itoa}
use group_bridge.Gitlab.Users.{Lookup}

abbrev pub owner_level : ℕ
owner_level = 50

-- accessLevels; 0 for a name that it does not have
unfoldable pub access_level_of : Str → ℕ
access_level_of s =
    if s == bytes "guest"
    then 10
    else if s == bytes "planner"
    then 15
    else if s == bytes "reporter"
    then 20
    else if s == bytes "developer"
    then 30
    else if s == bytes "maintainer"
    then 40
    else 0

-- `fuel` bounds the pages of a list of members.
pub record Options : Type 0 where
  pub ownership_key : Str
  pub lookup_by : Lookup
  pub hash : Str → Str
  pub to_lower : Str → Str
  pub fuel : ℕ

abbrev pub no_result : SyncResult
no_result = record {
  created_group = false;
  added = 0;
  updated = 0;
  removed = 0;
  unresolved = 0;
  skipped_removal = 0;
  converged = false;
}

abbrev pub state_key_of : SyncRequest → Str
state_key_of req = if is_empty req.state_key then req.source_group.id else req.state_key

-- The mapping to record, or the refusal to change the target of the one on record.
unfoldable pub bind :
    Options → SyncRequest → GitGroup → Bool → Option GroupMapping → Result SyncError GroupMapping
bind o req target created none = ok (record {
  provider = o.ownership_key;
  rule = req.rule_name;
  source_group_id = state_key_of req;
  source_native_id = req.source_group.id;
  source_group_path = req.source_group.path;
  target_group_id = itoa target.id;
  target_group_path = target.full_path;
  owned = created || req.adopt_existing_group;
})
bind o req target created (some m) =
    if m.target_group_id != itoa target.id || m.target_group_path != target.full_path
    then err SyncError.retargeted
    else ok (record m {
      owned = m.owned || req.adopt_existing_group;
      source_group_path = req.source_group.path;
      source_native_id = req.source_group.id;
    })

abbrev pub is_authoritative : SyncRequest → Bool
is_authoritative req = req.prune == bytes "authoritative"

abbrev pub is_managed_only : SyncRequest → Bool
is_managed_only req = req.prune == bytes "managed-only"

unfoldable pub index_members : List Member → Map ℕ Member → Map ℕ Member
index_members [] m = m
index_members (x ∷ xs) m = index_members xs (insert x.id x m)

unfoldable pub lower_all : (Str → Str) → List Str → List Str
lower_all f [] = []
lower_all f (s ∷ ss) = f s ∷ lower_all f ss

-- The members that the loop over them leaves alone in every case.
unfoldable pub is_spared : Options → SyncRequest → ℕ → Member → Bool
is_spared o req self m =
    m.id == self
    || leb owner_level m.access_level
    || elim m.member_role_id [ none ↦ false | some r ↦ true ]
    || contains (lower_all o.to_lower req.protected_users) (o.to_lower m.username)

-- What the loop over the members has found.
pub record Removals : Type 0 where
  pub removals : List Member
  pub skipped : ℕ
  pub pending : Bool

abbrev pub skip : Removals → Removals
skip r = record r { skipped = r.skipped + 1 }

abbrev pub chosen : Member → Bool → Removals → Removals
chosen m confirmed r =
    if confirmed
    then record r { removals = r.removals ++ (m ∷ []) }
    else record r { skipped = r.skipped + 1; pending = true }
