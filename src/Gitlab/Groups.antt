-- ===== src/Gitlab/Groups.antt =====
-- internal/provider/gitlab/client.go: finding and creating groups.
use group_bridge.Base.{
  ℕ, Bool, true, false, not, ◌&&◌, ◌||◌, Option, none, some, List, [], ◌∷◌, ◌++◌, ◌==◌,
  if◌then◌else◌, number_eq, Str, str_eq, is_empty, has_prefix,
}
use group_bridge.Base.Exec.{pure, fail, ◌>>=◌}
use group_bridge.Reconcile.Paths.{trim, is_slash, split, join}
use group_bridge.Gitlab.Api.{GitGroup, Api, SyncError, Call, request, expect, expect_or_none}

module _ {W : Type 0} (api : Api W) where
  unfoldable pub get_group : Str → Call W (Option GitGroup)
  get_group full_path = do
    reply ← request api (λ token. api.groups_get token full_path)
    expect_or_none reply

  abbrev pub parent_id : Option GitGroup → Option ℕ
  parent_id none = none
  parent_id (some g) = some g.id

  unfoldable pub create_group : Str → Option GitGroup → Call W GitGroup
  create_group segment parent = do
    reply ← request api (λ token. api.groups_post token segment (parent_id parent))
    expect reply

  abbrev pub keep_or_create : Str → Option GitGroup → Option GitGroup → Call W (GitGroup × Bool)
  keep_or_create segment current (some found) = pure (found, false)
  keep_or_create segment current none = do
    created ← create_group segment current
    pure (created, true)

  -- The loop that creates what is missing: the segments on the way so far, those that are left, the
  -- group of the last one, and whether one was created.
  unfoldable pub create_path :
      List Str → List Str → Option GitGroup → Bool → Call W (Option GitGroup × Bool)
  create_path done [] current created_any = pure (current, created_any)
  create_path done (segment ∷ rest) current created_any = do
    found ← get_group (join (done ++ (segment ∷ [])))
    (next, created) ← keep_or_create segment current found
    create_path (done ++ (segment ∷ [])) rest (some next) (created_any || created)

  abbrev pub required : SyncError → Option GitGroup → Call W GitGroup
  required e none = fail e
  required e (some g) = pure g

  abbrev pub resolved : Option GitGroup × Bool → Call W (GitGroup × Bool)
  resolved (none, created) = fail SyncError.unresolved_group
  resolved (some g, created) = pure (g, created)

  -- The first `n` segments, and the others.
  unfoldable pub split_at : List Str → List Str → List Str × List Str
  split_at [] segments = ([], segments)
  split_at (w ∷ counted) [] = ([], [])
  split_at (w ∷ counted) (s ∷ segments) =
      let (first, last) = split_at counted segments in (s ∷ first, last)

  unfoldable pub create_below : Str → Str → Call W (GitGroup × Bool)
  create_below full_path parent_path =
      if is_empty parent_path
      then (do made ← create_path [] (split full_path) none false; resolved made)
      else do
        found ← get_group parent_path
        parent ← required SyncError.no_parent found
        let (done, rest) = split_at (split parent_path) (split full_path)
        made ← create_path done rest (some parent) false
        resolved made

  abbrev pub found_or_created : Str → Str → Bool → Option GitGroup → Call W (GitGroup × Bool)
  found_or_created full_path parent_path create (some g) = pure (g, false)
  found_or_created full_path parent_path create none =
      if create then create_below full_path parent_path else fail SyncError.no_group

  unfoldable pub ensure_group : Str → Str → Bool → Call W (GitGroup × Bool)
  ensure_group full parent create =
      let full_path = trim is_slash full in
      let parent_path = trim is_slash parent in
      if is_empty full_path
      then fail SyncError.empty_path
      else if not (is_empty parent_path)
          && not (full_path == parent_path)
          && not (has_prefix full_path (parent_path ++ (47 ∷ [])))
      then fail SyncError.outside_parent
      else do found ← get_group full_path; found_or_created full_path parent_path create found
