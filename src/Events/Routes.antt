-- ===== src/Events/Routes.antt =====
-- internal/reconcile/events.go: the index from private routing keys to groups and users. The keyed
-- hash, HMAC-SHA-256 in hexadecimal, is a parameter, and so is what the secret's loader returns.
use group_bridge.Base.{
  Option, none, some, List, [], ◌∷◌, ◌++◌, ◌==◌, if◌then◌else◌, Str, str_eq, bytes, is_empty, ltb,
  length,
}
use group_bridge.Base.Map.{Map, lookup, insert, erase}
use group_bridge.Base.Exec.{Result, ok, err}
use group_bridge.Model.{User, Group}

-- map[string]struct{}
abbrev pub Names : Type 0
Names = Map Str (Unit {0})

pub record RouteIndex : Type 0 where
  pub secret : Str
  pub group_ids : Map Str Str
  pub group_keys : Map Str Str
  pub user_groups : Map Str Names
  pub group_users : Map Str Names

pub data RouteError : Type 0 where
  load_failed short_secret : RouteError

abbrev pub new_route_index : RouteIndex
new_route_index = record {
  secret = [];
  group_ids = [];
  group_keys = [];
  user_groups = [];
  group_users = [];
}

abbrev pub or_empty : Option Names → Names
or_empty none = []
or_empty (some s) = s

-- The identifiers of a group's members, the empty ones left out.
unfoldable pub member_ids : List User → Names → Names
member_ids [] s = s
member_ids (u ∷ us) s = member_ids us (if is_empty u.id then s else insert u.id tt s)

-- The keys of a set, in the order of an iteration.
abbrev pub names : Names → List Str
names [] = []
names ((k, _) ∷ s) = k ∷ names s

abbrev pub and_then :
    Result RouteError (Unit {0}) × RouteIndex
    → (RouteIndex → RouteIndex)
    → Result RouteError (Unit {0}) × RouteIndex
and_then (ok _, i) f = (ok tt, f i)
and_then (err e, i) f = (err e, i)

unfoldable pub collect_users : List Group → Map Str Names → Map Str Names
collect_users [] m = m
collect_users (g ∷ gs) m = collect_users gs (insert g.id (member_ids g.members []) m)

module _ (mac : Str → Str → Str) (realm : Str) where
  abbrev pub message : Str → Str → Str
  message domain identifier =
      bytes "groupbridge-route-v1" ++ (10 ∷ (domain ++ (10 ∷ (realm ++ (10 ∷ identifier)))))

  unfoldable pub routing_key : Str → Str → Str → Str
  routing_key secret domain identifier = mac secret (message domain identifier)

  abbrev pub group_route : Str → Str → Str
  group_route secret g = routing_key secret (bytes "group") g

  abbrev pub user_route : Str → Str → Str
  user_route secret u = routing_key secret (bytes "user") u

  -- The group joins the groups of the user.
  unfoldable pub link : Str → Str → Str → Map Str Names → Map Str Names
  link secret g u m =
      let k = user_route secret u in insert k (insert g tt (or_empty (lookup k m))) m

  unfoldable pub link_all : Str → Str → List Str → Map Str Names → Map Str Names
  link_all secret g [] m = m
  link_all secret g (u ∷ us) m = link_all secret g us (link secret g u m)

  abbrev pub put_names : Str → Names → Map Str Names → Map Str Names
  put_names k [] m = erase k m
  put_names k (n ∷ s) m = insert k (n ∷ s) m

  -- The group leaves the groups of the user, who goes with the last of them.
  unfoldable pub unlink : Str → Str → Str → Map Str Names → Map Str Names
  unlink secret g u m =
      let k = user_route secret u in put_names k (erase g (or_empty (lookup k m))) m

  unfoldable pub unlink_all : Str → Str → List Str → Map Str Names → Map Str Names
  unlink_all secret g [] m = m
  unlink_all secret g (u ∷ us) m = unlink_all secret g us (unlink secret g u m)

  -- One round of the loop in `rebuildWithSecretLocked`.
  abbrev pub index_group : Str → Str → Names → RouteIndex → RouteIndex
  index_group secret g users i =
      let k = group_route secret g in
      record i {
        group_ids = insert k g i.group_ids;
        group_keys = insert g k i.group_keys;
        user_groups = link_all secret g (names users) i.user_groups;
      }

  unfoldable pub index_groups : Str → Map Str Names → RouteIndex → RouteIndex
  index_groups secret [] i = i
  index_groups secret ((g, users) ∷ rest) i =
      index_groups secret rest (index_group secret g users i)

  unfoldable pub rebuild : Str → RouteIndex → RouteIndex
  rebuild secret i =
      index_groups secret i.group_users
        (record i { group_ids = []; group_keys = []; user_groups = [] })

  -- The index under the secret that the loader has now; a new secret rekeys every route.
  unfoldable pub refresh : Option Str → RouteIndex → Result RouteError (Unit {0}) × RouteIndex
  refresh none i = (err load_failed, i)
  refresh (some loaded) i =
      if ltb (length loaded) 32
      then (err short_secret, i)
      else if loaded == i.secret
      then (ok tt, i)
      else (ok tt, rebuild loaded (record i { secret = loaded }))

  unfoldable pub replace :
      Option Str → List Group → RouteIndex → Result RouteError (Unit {0}) × RouteIndex
  replace loaded groups i =
      and_then (refresh loaded i)
        λ j. rebuild j.secret (record j { group_users = collect_users groups [] })

  -- The part of `Update` under the secret that was refreshed.
  unfoldable pub update_group : Group → RouteIndex → RouteIndex
  update_group g i =
      let old = names (or_empty (lookup g.id i.group_users)) in
      let users = member_ids g.members [] in
      let k = group_route i.secret g.id in
      record i {
        user_groups =
            link_all i.secret g.id (names users) (unlink_all i.secret g.id old i.user_groups);
        group_users = insert g.id users i.group_users;
        group_ids = insert k g.id i.group_ids;
        group_keys = insert g.id k i.group_keys;
      }

  unfoldable pub update :
      Option Str → Group → RouteIndex → Result RouteError (Unit {0}) × RouteIndex
  update loaded g i = and_then (refresh loaded i) (update_group g)

unfoldable pub resolve_group : Str → RouteIndex → Option Str
resolve_group k i = lookup k i.group_ids

-- The groups of the user, in some order.
unfoldable pub resolve_user : Str → RouteIndex → Option (List Str)
resolve_user k i = elim (lookup k i.user_groups) [ none ↦ none | some s ↦ some (names s) ]

unfoldable pub route_for_group : Str → RouteIndex → Option Str
route_for_group g i = lookup g i.group_keys

-- A call on the index, with what the secret's loader returned to it.
pub data RouteCall : Type 0 where
  replacing : Option Str → List Group → RouteCall
  updating : Option Str → Group → RouteCall
  refreshing : Option Str → RouteCall

module _ (mac : Str → Str → Str) (realm : Str) where
  unfoldable pub route_calls : List RouteCall → RouteIndex → RouteIndex
  route_calls [] i = i
  route_calls (replacing loaded gs ∷ cs) i = route_calls cs (replace mac realm loaded gs i).1
  route_calls (updating loaded g ∷ cs) i = route_calls cs (update mac realm loaded g i).1
  route_calls (refreshing loaded ∷ cs) i = route_calls cs (refresh mac realm loaded i).1
