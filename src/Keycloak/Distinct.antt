-- ===== src/Keycloak/Distinct.antt =====
-- What the source lists, of any server: groups with ids of their own.
use group_bridge.Base.{
  ℕ, zero, suc, ◌≡◌, refl, sym, subst, ◌∙◌, ap, false, List, [], ◌∷◌, ◌++◌, ◌==◌, contains,
  if_cases, All, All-append, arith, Str, str_eq, is_empty, Option, none, some,
}
use group_bridge.Base.Outcomes.{Ensures, anything, in_turn}
use group_bridge.Model.{User, Group}
use group_bridge.Reconcile.Paths.{trim_right, is_slash}
use group_bridge.Keycloak.Urls.{groups_path, group_path, brief, children_path}
use group_bridge.Keycloak.Api.{GroupRep, Keycloak, Settings, Call}
use group_bridge.Keycloak.Token.{get_optional}
use group_bridge.Keycloak.Pages.{Gathered, nothing_gathered, list_groups_page, list_members}
use group_bridge.Keycloak.Groups.{
  path_of, group_of, with_group, is_unnamed, is_incomplete, each, collect_group, list_groups,
  checked, read_group,
}
use group_bridge.Keycloak.Listed.{AllNew}
use group_bridge.Keycloak.Members.{user_ids, AllNew-snoc, list_members-differ}
use group_bridge.Keycloak.Forest.{self, push, push-append}

abbrev pub ids_of : List Group → List Str
ids_of [] = []
ids_of (g ∷ gs) = g.id ∷ ids_of gs

-- A group that another part can rely on: an id, a name and a path, and members whose ids differ.
abbrev pub IsProper : Group → Type 0
IsProper g =
    (is_empty g.id ≡ false)
    × (is_empty g.name ≡ false)
    × (is_empty g.path ≡ false)
    × AllNew self [] (user_ids g.members)

ids_of-append : (gs hs : List Group) → ids_of (gs ++ hs) ≡ ids_of gs ++ ids_of hs
ids_of-append [] hs = refl
ids_of-append (g ∷ gs) hs = ap (λ xs. g.id ∷ xs) (ids_of-append gs hs)

path_of-filled : (g : GroupRep) (parent : Str) → is_empty (path_of g parent) ≡ false
unfolding path_of
path_of-filled g parent =
    if_cases (λ path. is_empty path ≡ false) (is_empty g.path) _ _
      (λ y. after_parent (trim_right is_slash parent)) (λ n. n)
  where
    after_parent : (s : Str) → is_empty (s ++ (47 ∷ g.name)) ≡ false
    after_parent [] = refl
    after_parent (c ∷ s) = refl

abbrev GroupsDiffer : Gathered Group → Type 0
GroupsDiffer found =
    (found.seen ≡ push [] (ids_of found.items))
    × AllNew self [] (ids_of found.items)
    × All IsProper found.items

with_group-GroupsDiffer :
    (g : GroupRep) (parent : Str) (members : List User) (found : Gathered Group)
    → is_unnamed g ≡ false
    → contains found.seen g.id ≡ false
    → AllNew self [] (user_ids members)
    → GroupsDiffer found
    → GroupsDiffer (with_group g (path_of g parent) members found)
with_group-GroupsDiffer g parent members found named fresh differ i =
    let new = group_of g (path_of g parent) members in
    let ids = ids_of-append found.items (new ∷ []) in
    (
      ap (λ xs. g.id ∷ xs) i.0
          ∙ sym (ap (push []) ids ∙ push-append [] (ids_of found.items) (g.id ∷ [])),
      subst (AllNew self []) (sym ids) (
          AllNew-snoc [] (ids_of found.items) g.id i.1
            (subst (λ xs. contains xs g.id ≡ false) i.0 fresh)),
      All-append IsProper found.items (new ∷ []) i.2
          ((ground (arith, named), ground (arith, named), path_of-filled g parent, differ), tt),
    )

module _ {W : Type 0} (settings : Settings) (api : Keycloak W) (fuel : ℕ) where
  each-GroupsDiffer :
      (f : GroupRep → Gathered Group → Call W (Gathered Group)) (gs : List GroupRep)
      (found : Gathered Group)
      → ((g : GroupRep) (found : Gathered Group)
          → GroupsDiffer found
          → Ensures GroupsDiffer (f g found))
      → GroupsDiffer found
      → Ensures GroupsDiffer (each f gs found)
  unfolding each
  each-GroupsDiffer f [] found h i = λ c. i
  each-GroupsDiffer f (g ∷ gs) found h i =
      in_turn GroupsDiffer GroupsDiffer (f g found) (each f gs) (h g found i)
        λ found j. each-GroupsDiffer f gs found h j

  collect_group-GroupsDiffer :
      (deep : ℕ) (parent : Str) (g : GroupRep) (found : Gathered Group)
      → GroupsDiffer found
      → Ensures GroupsDiffer (collect_group settings api fuel deep parent g found)
  unfolding collect_group
  collect_group-GroupsDiffer zero parent g found i = λ c. tt
  collect_group-GroupsDiffer (suc deep) parent g found i =
      if_cases (Ensures GroupsDiffer) (is_unnamed g) _ _ (λ y c. tt)
        λ named.
          if_cases (Ensures GroupsDiffer) (contains found.seen g.id) _ _ (λ y c. i)
            λ fresh.
              in_turn (λ members. AllNew self [] (user_ids members)) GroupsDiffer
                (list_members settings api fuel g.id) _ (list_members-differ settings api fuel g.id)
                λ members differ.
                  in_turn (λ children. Unit {0}) GroupsDiffer
                    (list_groups_page settings api fuel (children_path settings.realm g.id)) _
                    (anything
                      (list_groups_page settings api fuel (children_path settings.realm g.id)))
                    λ children u.
                      each-GroupsDiffer _ children _
                        (collect_group-GroupsDiffer deep (path_of g parent))
                        (with_group-GroupsDiffer g parent members found named fresh differ i)

  -- Whatever the server answers, a list of groups that succeeds has no id twice, and each of its
  -- groups has an id, a name, a path, and members of which no two have one id.
  pub list_groups-IsProper :
      (deep : ℕ)
      → Ensures
          (λ groups. AllNew self [] (ids_of groups) × All IsProper groups)
          (list_groups settings api fuel deep)
  unfolding list_groups
  list_groups-IsProper deep =
      in_turn (λ roots. Unit {0}) (λ groups. AllNew self [] (ids_of groups) × All IsProper groups)
        (list_groups_page settings api fuel (groups_path settings.realm)) _
        (anything (list_groups_page settings api fuel (groups_path settings.realm)))
        λ roots u.
          in_turn GroupsDiffer (λ groups. AllNew self [] (ids_of groups) × All IsProper groups)
            (each (collect_group settings api fuel deep []) roots nothing_gathered) _
            (each-GroupsDiffer _ roots nothing_gathered (collect_group-GroupsDiffer deep [])
              (refl, tt, tt))
            λ found i c. (i.1, i.2)

  -- The group that was asked for, or none.
  abbrev pub AskedFor : Str → Option Group → Type 0
  AskedFor group_id none = Unit
  AskedFor group_id (some g) = (g.id ≡ group_id) × IsProper g

  checked-AskedFor :
      (group_id : Str) (o : Option GroupRep)
      → Ensures (AskedFor group_id) (checked settings api fuel group_id o)
  checked-AskedFor group_id none = λ c. tt
  checked-AskedFor group_id (some g) =
      if_cases (Ensures (AskedFor group_id)) (is_incomplete g) _ _ (λ y c. tt)
        λ whole.
          if_cases (Ensures (AskedFor group_id)) (g.id == group_id) _ _
            (λ same.
              in_turn (λ members. AllNew self [] (user_ids members)) (AskedFor group_id)
                (list_members settings api fuel g.id) _ (list_members-differ settings api fuel g.id)
                (λ members differ c. (
                  ground (arith, same),
                  (ground (arith, whole), ground (arith, whole), ground (arith, whole), differ),
                )))
            (λ n c. tt)

  -- Whatever the server answers, the group that is read is the one that was asked for, and has an
  -- id, a name, a path, and members of which no two have one id.
  pub read_group-AskedFor :
      (group_id : Str) → Ensures (AskedFor group_id) (read_group settings api fuel group_id)
  unfolding read_group
  read_group-AskedFor group_id =
      if_cases (Ensures (AskedFor group_id)) (is_empty group_id) _ _ (λ y c. tt)
        λ n.
          in_turn (λ o. Unit {0}) (AskedFor group_id)
            (get_optional settings api api.get_group (group_path settings.realm group_id) brief) _
            (anything
              (get_optional settings api api.get_group (group_path settings.realm group_id) brief))
            (λ o u. checked-AskedFor group_id o)
