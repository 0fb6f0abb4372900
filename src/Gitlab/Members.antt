-- ===== src/Gitlab/Members.antt =====
-- internal/provider/gitlab/client.go: the members of a group, and the identity of the client.
use group_bridge.Base.{
  ℕ, zero, suc, ◌+◌, not, ◌||◌, Option, none, some, List, [], ◌++◌, ◌==◌, if◌then◌else◌, number_eq,
  Str, str_eq,
}
use group_bridge.Base.Exec.{ok, pure, fail, ◌>>=◌}
use group_bridge.Gitlab.Api.{
  Member, no_reply, replied, Api, SyncError, Call, is_success, outside, load, request, expect,
  expect_or_none,
}

module _ {W : Type 0} (api : Api W) where
  -- The pages from this one on. The source asks for pages until the server names no next one; `fuel`
  -- bounds how many.
  unfoldable pub pages : ℕ → ℕ → ℕ → List Member → Call W (List Member)
  pages zero group_id page before = fail SyncError.out_of_pages
  pages (suc fuel) group_id page before = do
    reply ← request api (λ token. api.members_page token group_id page)
    (batch, has_next) ← expect reply
    let rest = pages fuel group_id (page + 1) (before ++ batch)
    if has_next then rest else pure (before ++ batch)

  abbrev pub list_members : ℕ → ℕ → Call W (List Member)
  list_members fuel group_id = pages fuel group_id 1 []

  unfoldable pub add_member : ℕ → ℕ → ℕ → Call W (Unit {0})
  add_member group_id user_id level = do
    reply ← request api (λ token. api.members_post token group_id user_id level)
    expect reply

  unfoldable pub get_member : ℕ → ℕ → Call W (Option Member)
  get_member group_id user_id = do
    reply ← request api (λ token. api.members_get token group_id user_id)
    expect_or_none reply

  unfoldable pub update_member : ℕ → ℕ → ℕ → Call W (Unit {0})
  update_member group_id user_id level = do
    reply ← request api (λ token. api.members_put token group_id user_id level)
    expect reply

  -- A member that is gone already counts as removed.
  unfoldable pub remove_member : ℕ → ℕ → Call W (Unit {0})
  remove_member group_id user_id = do
    (status, _) ← request api (λ token. api.members_delete token group_id user_id)
    if status == 404 || is_success status then pure tt else fail SyncError.bad_status

  abbrev pub cached : Str → Option (ℕ × Str) → Option ℕ
  cached token_hash none = none
  cached token_hash (some (id, hash)) = if hash == token_hash then some id else none

  abbrev pub remember : ℕ → Str → Call W ℕ
  remember id token_hash c = (ok id, record c { identity = some (id, token_hash) })

  abbrev pub ask_identity : Str → Str → Option ℕ → Call W ℕ
  ask_identity token token_hash (some id) = pure id
  ask_identity token token_hash none = do
    reply ← outside (api.user_get token)
    elim reply [
      | no_reply ↦ fail SyncError.no_response
      | replied status id ↦
          if not (is_success status) || id == 0
          then fail SyncError.bad_status
          else remember id token_hash
    ]

  -- The hash of the token is a parameter.
  unfoldable pub current_identity : (Str → Str) → Call W ℕ
  current_identity hash = do
    token ← load api.load_token
    λ c. ask_identity token (hash token) (cached (hash token) c.identity) c

  abbrev pub health_check : (Str → Str) → Call W (Unit {0})
  health_check hash = do id ← current_identity hash; pure tt
