-- ===== src/Events/Indexed.antt =====
-- The route index answers for exactly the memberships that it was given.
use group_bridge.Base.{
  ◌≡◌, refl, sym, subst, ◌||◌, Option, none, some, List, [], ◌∷◌, ◌==◌, if◌then◌else◌, arith,
  if_cases, Str, str_eq, ltb, length,
}
use group_bridge.Base.Map.{Map, lookup, has, lookup-insert, has-insert, IsUnique, insert-IsUnique}
use group_bridge.Base.Exec.{Result, ok, err}
use group_bridge.Events.Linked.{
  in_set, contains-names, in_set-link_all, in_set-unlink_all, group_route_injective,
}
use group_bridge.Model.{Group}
use group_bridge.Events.Routes.{
  Names, RouteIndex, RouteError, RouteCall, replacing, updating, refreshing, route_calls,
  new_route_index, or_empty, member_ids, names, group_route, user_route, unlink_all, index_group,
  index_groups, rebuild, refresh, and_then, collect_users, replace, update_group, update,
}

module _ (mac : Str → Str → Str) (realm : Str) where
  -- The index lists a group for a user exactly if the user is on record as a member, and a group
  -- has a route, which leads back to it, exactly if it is on record.
  pub record IsIndexed (i : RouteIndex) : Type 0 where
    pub members :
        (g u : Str)
        → in_set g (lookup (user_route mac realm i.secret u) i.user_groups)
          ≡ in_set u (lookup g i.group_users)
    pub route :
        (g : Str)
        → lookup g i.group_keys
          ≡ (if has g i.group_users then some (group_route mac realm i.secret g) else none)
    pub back :
        (g : Str)
        → lookup (group_route mac realm i.secret g) i.group_ids
          ≡ (if has g i.group_users then some g else none)
    pub unique : IsUnique i.group_users

  -- What the loop of a rebuild has indexed, of the entries `done`.
  record IsPartial (secret : Str) (rest : Map Str Names) (before after : RouteIndex) : Type 0 where
    members :
        (g u : Str)
        → in_set g (lookup (user_route mac realm secret u) after.user_groups) ≡ (
            in_set u (lookup g rest)
            || in_set g (lookup (user_route mac realm secret u) before.user_groups))
    route :
        (g : Str)
        → lookup g after.group_keys ≡ (
            if has g rest
            then some (group_route mac realm secret g)
            else lookup g before.group_keys)
    back :
        (g : Str)
        → lookup (group_route mac realm secret g) after.group_ids ≡ (
            if has g rest then some g else lookup (group_route mac realm secret g) before.group_ids)
    group_users : after.group_users ≡ before.group_users
    same_secret : after.secret ≡ before.secret

module _ (mac : Str → Str → Str) (realm : Str)
    (distinct : (s m m' : Str) → mac s m ≡ mac s m' → m ≡ m') where
  update_group-IsIndexed :
      (g : Group) (i : RouteIndex)
      → IsIndexed mac realm i
      → IsIndexed mac realm (update_group mac realm g i)
  unfolding update_group
  update_group-IsIndexed g i x =
      let old = names (or_empty (lookup g.id i.group_users)) in
      let users = member_ids g.members [] in
      let key = group_route mac realm i.secret g.id in
      record {
        members = λ h u. ground (
          arith,
          in_set-link_all mac realm distinct i.secret g.id (names users) h u
              (unlink_all mac realm i.secret g.id old i.user_groups),
          in_set-unlink_all mac realm distinct i.secret g.id old h u i.user_groups,
          x.members h u,
          lookup-insert h g.id users i.group_users,
          contains-names u users,
          contains-names u (or_empty (lookup g.id i.group_users)),
        );
        route = λ h. ground (
          arith,
          lookup-insert h g.id key i.group_keys,
          has-insert h g.id users i.group_users,
          x.route h,
        );
        back = λ h. ground (
          arith,
          lookup-insert (group_route mac realm i.secret h) key g.id i.group_ids,
          has-insert h g.id users i.group_users,
          x.back h,
          group_route_injective mac realm distinct i.secret h g.id,
        );
        unique = insert-IsUnique g.id users i.group_users x.unique;
      }

  index_groups-IsPartial :
      (secret : Str) (rest : Map Str Names) (i : RouteIndex)
      → IsUnique rest
      → IsPartial mac realm secret rest i (index_groups mac realm secret rest i)
  unfolding index_groups lookup has
  index_groups-IsPartial secret [] i u = record {
    members = λ g v. refl;
    route = λ g. refl;
    back = λ g. refl;
    group_users = refl;
    same_secret = refl;
  }
  index_groups-IsPartial secret ((g, users) ∷ rest) i u =
      let key = group_route mac realm secret g in
      let ih = index_groups-IsPartial secret rest (index_group mac realm secret g users i) u.1 in
      record {
        members = λ h v. ground (
          arith,
          ih.members h v,
          in_set-link_all mac realm distinct secret g (names users) h v i.user_groups,
          contains-names v users,
          u.0,
        );
        route = λ h. ground (arith, ih.route h, lookup-insert h g key i.group_keys);
        back = λ h. ground (
          arith,
          ih.back h,
          lookup-insert (group_route mac realm secret h) key g i.group_ids,
          group_route_injective mac realm distinct secret h g,
        );
        group_users = ih.group_users;
        same_secret = ih.same_secret;
      }

  -- A rebuild that started with no route has them all.
  IsIndexed-after :
      (secret : Str) (rest : Map Str Names) (after : RouteIndex)
      → IsPartial mac realm secret rest
          (record {
            secret = secret;
            group_ids = [];
            group_keys = [];
            user_groups = [];
            group_users = rest;
          })
          after
      → IsUnique rest
      → IsIndexed mac realm after
  unfolding lookup has
  IsIndexed-after secret rest after p u = record {
    members = λ g v. ground (arith, p.members g v, p.group_users, p.same_secret);
    route = λ g. ground (arith, p.route g, p.group_users, p.same_secret);
    back = λ g. ground (arith, p.back g, p.group_users, p.same_secret);
    unique = subst (λ m. IsUnique m) (sym p.group_users) u;
  }

  rebuild-IsIndexed :
      (secret : Str) (i : RouteIndex)
      → IsUnique i.group_users
      → IsIndexed mac realm (rebuild mac realm secret (record i { secret = secret }))
  unfolding rebuild
  rebuild-IsIndexed secret i u =
      let start : RouteIndex = record {
        secret = secret;
        group_ids = [];
        group_keys = [];
        user_groups = [];
        group_users = i.group_users;
      } in
      IsIndexed-after secret i.group_users (index_groups mac realm secret i.group_users start)
        (index_groups-IsPartial secret i.group_users start u) u

  collect_users-IsUnique :
      (gs : List Group) (m : Map Str Names) → IsUnique m → IsUnique (collect_users gs m)
  unfolding collect_users
  collect_users-IsUnique [] m u = u
  collect_users-IsUnique (g ∷ gs) m u =
      collect_users-IsUnique gs _ (insert-IsUnique g.id (member_ids g.members []) m u)

  refresh-IsIndexed :
      (loaded : Option Str) (i : RouteIndex)
      → IsIndexed mac realm i
      → IsIndexed mac realm (refresh mac realm loaded i).1
  unfolding refresh
  refresh-IsIndexed none i x = x
  refresh-IsIndexed (some s) i x =
      if_cases Kept (ltb (length s) 32) _ _ (λ _. x)
        λ _. if_cases Kept (s == i.secret) _ _ (λ _. x) (λ _. rebuild-IsIndexed s i x.unique)
    where
      Kept : Result RouteError (Unit {0}) × RouteIndex → Type 0
      Kept r = IsIndexed mac realm r.1

  -- What follows a refresh keeps the index, whichever way the refresh ended.
  and_then-IsIndexed :
      (f : RouteIndex → RouteIndex)
      → ((j : RouteIndex) → IsIndexed mac realm j → IsIndexed mac realm (f j))
      → (r : Result RouteError (Unit {0}) × RouteIndex) → IsIndexed mac realm r.1
      → IsIndexed mac realm (and_then r f).1
  and_then-IsIndexed f keeps (ok _, i) x = keeps i x
  and_then-IsIndexed f keeps (err _, i) x = x

  replace-IsIndexed :
      (loaded : Option Str) (gs : List Group) (i : RouteIndex)
      → IsIndexed mac realm i
      → IsIndexed mac realm (replace mac realm loaded gs i).1
  unfolding replace
  replace-IsIndexed loaded gs i x =
      and_then-IsIndexed _
        (λ j _.
          rebuild-IsIndexed j.secret (record j { group_users = collect_users gs [] })
            (collect_users-IsUnique gs [] tt))
        (refresh mac realm loaded i) (refresh-IsIndexed loaded i x)

  update-IsIndexed :
      (loaded : Option Str) (g : Group) (i : RouteIndex)
      → IsIndexed mac realm i
      → IsIndexed mac realm (update mac realm loaded g i).1
  unfolding update
  update-IsIndexed loaded g i x =
      and_then-IsIndexed _ (update_group-IsIndexed g) (refresh mac realm loaded i)
        (refresh-IsIndexed loaded i x)

  new_route_index-IsIndexed : IsIndexed mac realm new_route_index
  unfolding lookup has
  new_route_index-IsIndexed = record {
    members = λ g u. refl;
    route = λ g. refl;
    back = λ g. refl;
    unique = tt;
  }

  run_calls-IsIndexed :
      (cs : List RouteCall) (i : RouteIndex)
      → IsIndexed mac realm i
      → IsIndexed mac realm (route_calls mac realm cs i)
  unfolding route_calls
  run_calls-IsIndexed [] i x = x
  run_calls-IsIndexed (replacing loaded gs ∷ cs) i x =
      run_calls-IsIndexed cs _ (replace-IsIndexed loaded gs i x)
  run_calls-IsIndexed (updating loaded g ∷ cs) i x =
      run_calls-IsIndexed cs _ (update-IsIndexed loaded g i x)
  run_calls-IsIndexed (refreshing loaded ∷ cs) i x =
      run_calls-IsIndexed cs _ (refresh-IsIndexed loaded i x)

  -- Where the keyed hash has no collision, the index is exact after any calls of `Replace`, `Update`
  -- and `refreshLocked` on a new index, those included whose secret did not load: the groups that a
  -- user's route resolves to are those on record with the user as a member, and the routes of the groups
  -- on record, under the secret now in use, lead to each group and back.
  pub route_calls-IsIndexed :
      (cs : List RouteCall) → IsIndexed mac realm (route_calls mac realm cs new_route_index)
  route_calls-IsIndexed cs = run_calls-IsIndexed cs new_route_index new_route_index-IsIndexed
