-- ===== src/Gitlab/Tests.antt =====
-- A small GitLab server, and the client's theorems there.
use group_bridge.Base.{
  ℕ, ◌≤◌, ◌+◌, refl, arith, true, false, none, some, [], ◌∷◌, ◌==◌, str_eq, number_eq, bytes,
}
use group_bridge.Model.{SyncRequest}
use group_bridge.State.Ledger.{missing}
use group_bridge.State.Opening.{fresh_store}
use group_bridge.Gitlab.Api.{Member, GitUser, no_reply, replied, Api, Client}
use group_bridge.Gitlab.Users.{Lookup, find_user}
use group_bridge.Gitlab.Members.{list_members}
use group_bridge.Gitlab.Terms.{Options}
use group_bridge.Gitlab.Prune.{choose_removals}
use group_bridge.Gitlab.Sync.{sync_group}
use group_bridge.Gitlab.Quiet.{IsCounting}
use group_bridge.Gitlab.Deletions.{sync_group-deletions}
use group_bridge.Base.Outcomes.{Yields}
use group_bridge.Gitlab.Removals.{Lawful, choose_removals-IsRemovable}
use group_bridge.Gitlab.Matches.{IsMatched, find_user-IsMatched}
use group_bridge.Gitlab.Paging.{EndsAt, Fueled, list_members-Fueled}

abbrev bob : Member
bob = record { id = 8; username = bytes "bob"; access_level = 30; member_role_id = none }

abbrev cid : GitUser
cid = record {
  id = 9;
  username = bytes "cid";
  email = [];
  state = bytes "active";
  identities = record { provider = bytes "kc"; extern_uid = bytes "u9" } ∷ [];
}

-- One group with one member; every change succeeds.
abbrev server : Api ℕ
server = record {
  load_token = λ w. (some (bytes "t"), w);
  load_resolver_token = λ w. (some (bytes "r"), w);
  groups_get = λ token path w. (replied 200 (record { id = 7; full_path = path }), w);
  groups_post = λ token segment parent w. (no_reply, w);
  members_page = λ token group_id page w. (replied 200 (bob ∷ [], false), w);
  members_post = λ token group_id id level w. (replied 201 tt, w);
  members_get = λ token group_id id w. (replied 200 (record bob { id = id }), w);
  members_put = λ token group_id id level w. (replied 200 tt, w);
  members_delete = λ token group_id id w. (replied 204 tt, w + 1);
  users_get = λ token query w. (replied 200 (cid ∷ []), w);
  user_get = λ token w. (replied 200 1, w);
  faults = λ w step. false;
}

abbrev folded : Lookup
folded = record { oidc_provider = bytes "kc"; equal_fold = λ s t. s == t }

abbrev options : Options
options = record {
  ownership_key = bytes "gl@1";
  lookup_by = folded;
  hash = λ s. s;
  to_lower = λ s. s;
  fuel = 3;
}

abbrev request : SyncRequest
request = record {
  rule_name = bytes "r";
  state_key = bytes "g1";
  source_group = record {
    id = bytes "g1";
    name = bytes "db";
    path = bytes "/ops/db";
    members = record { id = bytes "u9"; username = bytes "cid"; email = [] } ∷ [];
  };
  target_path = bytes "top/db";
  target_parent = bytes "top";
  create_group = true;
  adopt_existing_group = true;
  access_level = bytes "developer";
  prune = bytes "authoritative";
  protected_users = [];
  max_removals = 1;
  identity_match = bytes "oidc" ∷ [];
  enforce_access_level = false;
  immediate_removal = true;
}

abbrev client : Client ℕ
client = record { store = fresh_store missing; world = 0; identity = none }

choose_removals-IsRemovable_example : Lawful options request 7 1 [] client.store.records (
    choose_removals server options request 7 1 []
      (bob ∷ [])
      (record { removals = []; skipped = 0; pending = false })
      client)
choose_removals-IsRemovable_example =
    choose_removals-IsRemovable options request 7 1 [] server (bob ∷ []) client

find_user-IsMatched_example :
    Yields
      (IsMatched folded
        (record { id = bytes "u9"; username = bytes "cid"; email = [] })
        (bytes "oidc" ∷ []))
      (find_user server folded
        (record { id = bytes "u9"; username = bytes "cid"; email = [] })
        (bytes "oidc" ∷ [])
        client)
find_user-IsMatched_example =
    find_user-IsMatched server folded
      (record { id = bytes "u9"; username = bytes "cid"; email = [] }) (bytes "oidc" ∷ []) client

one_page : EndsAt server 7 1
one_page token page w h = refl

list_members-Fueled_example : Fueled (λ ms. Unit) (list_members server 3 7 client)
list_members-Fueled_example =
    list_members-Fueled server 7 1 one_page 3 client (omega arith) (omega arith)

-- The world of the server is the number of deletions that it was asked for.
server-IsCounting : IsCounting (λ w. w) server
server-IsCounting = record {
  token = λ w. ground arith;
  resolver = λ w. ground arith;
  groups_get = λ t p w. ground arith;
  groups_post = λ t s p w. ground arith;
  members_page = λ t g p w. ground arith;
  members_post = λ t g i l w. ground arith;
  members_get = λ t g i w. ground arith;
  members_put = λ t g i l w. ground arith;
  members_delete = λ t g i w. ground arith;
  users_get = λ t q w. ground arith;
  user_get = λ t w. ground arith;
}

sync_group-deletions_example : (sync_group server options request client).1.world ≤ 0 + 1
sync_group-deletions_example =
    sync_group-deletions (λ w. w) server server-IsCounting options request client
