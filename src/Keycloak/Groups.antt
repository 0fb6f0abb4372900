-- ===== src/Keycloak/Groups.antt =====
-- internal/source/keycloak/client.go: the groups, all of them or one. `deep` bounds the depth of
-- the tree of groups, and `fuel` the pages of a list.
use group_bridge.Base.{
  ℕ, zero, suc, Bool, ◌||◌, Option, none, some, List, [], ◌∷◌, ◌++◌, ◌==◌, if◌then◌else◌, contains,
  Str, str_eq, is_empty,
}
use group_bridge.Base.Exec.{pure, fail, ◌>>=◌}
use group_bridge.Model.{User, Group}
use group_bridge.Reconcile.Paths.{trim_right, is_slash}
use group_bridge.Keycloak.Urls.{groups_path, group_path, children_path, brief}
use group_bridge.Keycloak.Api.{GroupRep, Keycloak, SourceError, Settings, Call}
use group_bridge.Keycloak.Token.{get_optional}
use group_bridge.Keycloak.Pages.{Gathered, nothing_gathered, list_groups_page, list_members}

-- The path of a group below another, where the server gives none.
unfoldable pub path_of : GroupRep → Str → Str
path_of g parent_path =
    if is_empty g.path then trim_right is_slash parent_path ++ (47 ∷ g.name) else g.path

abbrev pub group_of : GroupRep → Str → List User → Group
group_of g path members = record { id = g.id; name = g.name; path = path; members = members }

abbrev pub with_group : GroupRep → Str → List User → Gathered Group → Gathered Group
with_group g path members found = record {
  seen = g.id ∷ found.seen;
  items = found.items ++ (group_of g path members ∷ []);
}

abbrev pub is_unnamed : GroupRep → Bool
is_unnamed g = is_empty g.id || is_empty g.name

abbrev pub is_incomplete : GroupRep → Bool
is_incomplete g = is_empty g.id || is_empty g.name || is_empty g.path

module _ {W : Type 0} where
  unfoldable pub each :
      (GroupRep → Gathered Group → Call W (Gathered Group))
      → List GroupRep
      → Gathered Group
      → Call W (Gathered Group)
  each f [] found = pure found
  each f (g ∷ gs) found = f g found >>= each f gs

module _ {W : Type 0} (settings : Settings) (api : Keycloak W) (fuel : ℕ) where
  -- A group that is new, and what is below it.
  abbrev pub collect_new :
      (Str → GroupRep → Gathered Group → Call W (Gathered Group))
      → Str
      → GroupRep
      → Gathered Group
      → Call W (Gathered Group)
  collect_new below path g found = do
    members ← list_members settings api fuel g.id
    children ← list_groups_page settings api fuel (children_path settings.realm g.id)
    each (below path) children (with_group g path members found)

  -- `collectGroup`
  unfoldable pub collect_group : ℕ → Str → GroupRep → Gathered Group → Call W (Gathered Group)
  collect_group zero parent_path g found = fail SourceError.too_deep
  collect_group (suc deep) parent_path g found =
      let new = collect_new (collect_group deep) (path_of g parent_path) g found in
      if is_unnamed g
      then fail SourceError.unnamed_group
      else if contains found.seen g.id
      then pure found
      else new

  -- `ListGroups`
  unfoldable pub list_groups : ℕ → Call W (List Group)
  list_groups deep = do
    roots ← list_groups_page settings api fuel (groups_path settings.realm)
    found ← each (collect_group deep []) roots nothing_gathered
    pure found.items

  abbrev pub read_members : GroupRep → Call W (Option Group)
  read_members g =
      list_members settings api fuel g.id >>= λ members. pure (some (group_of g g.path members))

  abbrev pub checked : Str → Option GroupRep → Call W (Option Group)
  checked group_id none = pure none
  checked group_id (some g) =
      if is_incomplete g
      then fail SourceError.incomplete_group
      else if g.id == group_id
      then read_members g
      else fail SourceError.different_group

  -- `ReadGroup`
  unfoldable pub read_group : Str → Call W (Option Group)
  read_group group_id =
      if is_empty group_id
      then fail SourceError.empty_id
      else (get_optional settings api api.get_group (group_path settings.realm group_id) brief
          >>= checked group_id)
