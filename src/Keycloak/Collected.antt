-- ===== src/Keycloak/Collected.antt =====
-- The source lists the forest of the server.
use group_bridge.Base.{
  ℕ, zero, suc, ◌≤◌, ◌<◌, ◌≡◌, refl, sym, subst, ◌∙◌, ap, false, List, [], ◌∷◌, ◌++◌, contains,
  if_false, append_assoc, append-nil, length, arith, Str, str_eq,
}
use group_bridge.Base.Outcomes.{Delivers, given_in_turn, known_in_turn}
use group_bridge.Model.{Group}
use group_bridge.Keycloak.Urls.{groups_path, children_path}
use group_bridge.Keycloak.Api.{GroupRep, UserRep, Keycloak, Settings, Call}
use group_bridge.Keycloak.Pages.{Gathered, nothing_gathered, list_groups_page, list_members}
use group_bridge.Keycloak.Groups.{
  path_of, group_of, with_group, is_unnamed, each, collect_group, list_groups,
}
use group_bridge.Keycloak.Answering.{IsGranting}
use group_bridge.Keycloak.Listed.{
  AllNew, enabled_users, Serves, list_members-enabled, list_groups_page-served,
}
use group_bridge.Keycloak.Forest.{
  Forest, bare, grown, tops, flatten, group_ids, depth, self, Hosts, push, push-append,
  AllNew-append, tops-AllNew,
}

abbrev Found : List Str → List Group → Gathered Group → Type 0
Found seen items h = (h.seen ≡ seen) × (h.items ≡ items)

module _ {W : Type 0} (settings : Settings) (api : Keycloak W) (granting : IsGranting settings api)
    (fuel : ℕ) where
  abbrev Collects : Str → Forest → Gathered Group → Call W (Gathered Group) → Type 0
  Collects parent f found m =
      Delivers (Found (push found.seen (group_ids f)) (found.items ++ flatten parent f)) m

  Found-by :
      (m : Call W (Gathered Group)) (seen seen' : List Str) (items items' : List Group)
      → seen ≡ seen'
      → items ≡ items'
      → Delivers (Found seen items) m
      → Delivers (Found seen' items') m
  Found-by m seen seen' items items' p q h =
      subst (λ s. Delivers (Found s items') m) p (subst (λ i. Delivers (Found seen i) m) q h)

  -- One group and what is below it.
  collect_group-Found :
      (deep : ℕ) (parent : Str) (g : GroupRep) (users : List UserRep) (below beside : Forest)
      (found : Gathered Group)
      → Hosts settings api granting fuel (grown g users below beside)
      → contains found.seen g.id ≡ false
      → AllNew self (g.id ∷ found.seen) (group_ids below)
      → ((found : Gathered Group)
          → AllNew self found.seen (group_ids below)
          → Collects
              (path_of g parent)
              below
              found
              (each (collect_group settings api fuel deep (path_of g parent)) (tops below) found))
      → Delivers
          (Found (push (g.id ∷ found.seen) (group_ids below)) (
            found.items
            ++ (group_of g (path_of g parent) (enabled_users users)
                ∷ flatten (path_of g parent) below)))
          (collect_group settings api fuel (suc deep) parent g found)
  unfolding collect_group
  collect_group-Found deep parent g users below beside found hosts fresh new ih =
      let path = path_of g parent in
      let target =
        Found (push (g.id ∷ found.seen) (group_ids below))
          (found.items ++ (group_of g path (enabled_users users) ∷ flatten path below)) in
      let added = with_group g path (enabled_users users) found in
      subst (Delivers target)
        (sym (if_false (is_unnamed g) _ _ hosts.0 ∙ if_false (contains found.seen g.id) _ _ fresh))
        (known_in_turn target (enabled_users users) (list_members settings api fuel g.id) _
          (list_members-enabled settings api granting fuel g.id users hosts.4 hosts.1 hosts.2)
          (known_in_turn target (tops below)
            (list_groups_page settings api fuel (children_path settings.realm g.id)) _
            (list_groups_page-served settings api granting fuel _ (tops below) hosts.5
              (tops-AllNew below (g.id ∷ found.seen) new) hosts.3)
            (Found-by (each (collect_group settings api fuel deep path) (tops below) added) _ _ _ _
              refl
              (append_assoc found.items (group_of g path (enabled_users users) ∷ [])
                (flatten path below))
              (ih added new))))

  each-Collects :
      (f : Forest) (deep : ℕ) (parent : Str) (found : Gathered Group)
      → Hosts settings api granting fuel f
      → depth f ≤ deep
      → AllNew self found.seen (group_ids f)
      → Collects parent f found (each (collect_group settings api fuel deep parent) (tops f) found)
  unfolding each
  each-Collects bare deep parent found hosts d new = λ c. (refl, sym (append-nil found.items))
  each-Collects (grown g users below beside) zero parent found hosts d new =
      absurd (ground (arith, d))
  each-Collects (grown g users below beside) (suc deep) parent found hosts d new =
      let path = path_of g parent in
      let q = AllNew-append (g.id ∷ found.seen) (group_ids below) (group_ids beside) new.1 in
      let seen = push (g.id ∷ found.seen) (group_ids below) in
      let items = found.items ++ (group_of g path (enabled_users users) ∷ flatten path below) in
      given_in_turn (Found seen items)
        (Found (push found.seen (group_ids (grown g users below beside)))
          (found.items ++ flatten parent (grown g users below beside)))
        (collect_group settings api fuel (suc deep) parent g found) _
        (collect_group-Found deep parent g users below beside found hosts new.0 q.0
          (λ h. each-Collects below deep path h hosts.6 (ground (arith, d))))
        λ h e.
          Found-by (each (collect_group settings api fuel (suc deep) parent) (tops beside) h) _ _ _
            _
            (ap (λ s. push s (group_ids beside)) e.0
              ∙ sym (push-append (g.id ∷ found.seen) (group_ids below) (group_ids beside)))
            (ap (λ i. i ++ flatten parent beside) e.1
              ∙ append_assoc found.items
                  (group_of g path (enabled_users users) ∷ flatten path below)
                  (flatten parent beside))
            (each-Collects beside (suc deep) parent h hosts.7 (ground (arith, d))
              (subst (λ s. AllNew self s (group_ids beside)) (sym e.0) q.1))

  -- Where the server grants tokens and hosts a forest of groups whose ids differ, the source lists,
  -- in their order, all its groups, each with its path and with exactly its enabled users. The list
  -- ends as long as the fuel is more than the groups and users of any list, and the depth allowed is
  -- that of the forest or more.
  pub list_groups-flatten :
      (deep : ℕ) (f : Forest)
      → Hosts settings api granting fuel f
      → Serves settings api granting api.get_groups (groups_path settings.realm) (tops f)
      → length (tops f) < fuel
      → AllNew self [] (group_ids f)
      → depth f ≤ deep
      → Delivers (λ groups. groups ≡ flatten [] f) (list_groups settings api fuel deep)
  unfolding list_groups
  list_groups-flatten deep f hosts roots l new d =
      known_in_turn (λ groups. groups ≡ flatten [] f) (tops f)
        (list_groups_page settings api fuel (groups_path settings.realm)) _
        (list_groups_page-served settings api granting fuel _ (tops f) roots (tops-AllNew f [] new)
          l)
        (given_in_turn (Found (push [] (group_ids f)) (flatten [] f))
          (λ groups. groups ≡ flatten [] f)
          (each (collect_group settings api fuel deep []) (tops f) nothing_gathered) _
          (each-Collects f deep [] nothing_gathered hosts d new) λ found h c. h.1)
