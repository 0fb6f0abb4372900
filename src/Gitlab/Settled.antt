-- ===== src/Gitlab/Settled.antt =====
-- Finding users, and adding and updating members, sends no request to delete a membership.
use group_bridge.Base.{
  ℕ, suc, zero, ◌+◌, Bool, not, ◌&&◌, ◌||◌, Option, none, some, List, [], ◌∷◌, ◌++◌, ◌==◌,
  if◌then◌else◌, if_cases, arith, contains, number_eq, Str, str_eq, bytes, ltb, length,
}
use group_bridge.Base.Exec.{pure, fail}
use group_bridge.Model.{User}
use group_bridge.Gitlab.Api.{
  Member, GitUser, UserQuery, Reply, no_reply, replied, Api, SyncError, Call, is_success, outside,
  load, received, request, expect, expect_or_none,
}
use group_bridge.Gitlab.Users.{
  Lookup, Strategy, strategy, query_for, all_matches, search, single, try_query, try_fields,
  find_user,
}
use group_bridge.Gitlab.Members.{
  pages, add_member, get_member, update_member, cached, remember, ask_identity, current_identity,
}
use group_bridge.Gitlab.Quiet.{
  IsCounting, AtMost, AtMost-then, AtMost-outside, AtMost-received, AtMost-expect,
  AtMost-expect_or_none, AtMost-load, AtMost-endpoint,
}

module _ {W : Type 0} (deleted : W → ℕ) (api : Api W) (counting : IsCounting deleted api) where
  AtMost-single :
      (l : Lookup) (us : List GitUser) (next : Call W (Option GitUser))
      → AtMost deleted 0 next
      → AtMost deleted 0 (single api l us next)
  AtMost-single l [] next n = n
  AtMost-single l (u ∷ []) next n = λ c. ground arith
  AtMost-single l (u ∷ v ∷ us) next n = λ c. ground arith

  AtMost-search : (l : Lookup) (q : UserQuery) → AtMost deleted 0 (search api l q)
  unfolding search
  AtMost-search l q =
      AtMost-then deleted 0 (load api.load_resolver_token) _
        (AtMost-load deleted api counting api.load_resolver_token counting.resolver)
        λ t.
          AtMost-then deleted 0 (outside (api.users_get t q)) _
            (AtMost-outside deleted (api.users_get t q) (counting.users_get t q))
            λ r.
              AtMost-then deleted 0 (received r) expect (AtMost-received deleted r)
                (AtMost-expect deleted)

  AtMost-try_query :
      (l : Lookup) (u : User) (s : Strategy) (q : Option UserQuery) (next : Call W (Option GitUser))
      → AtMost deleted 0 next
      → AtMost deleted 0 (try_query api l u s q next)
  AtMost-try_query l u s none next n = n
  AtMost-try_query l u s (some q) next n =
      AtMost-then deleted 0 (search api l q) _ (AtMost-search l q)
        (λ us. AtMost-single l (all_matches l u s us) next n)

  AtMost-try_fields :
      (l : Lookup) (u : User) (fields : List Str) → AtMost deleted 0 (try_fields api l u fields)
  unfolding try_fields
  AtMost-try_fields l u [] = λ c. ground arith
  AtMost-try_fields l u (f ∷ fs) =
      AtMost-try_query l u (strategy f) (query_for l u (strategy f)) (try_fields api l u fs)
        (AtMost-try_fields l u fs)

  pub AtMost-find_user :
      (l : Lookup) (u : User) (fields : List Str) → AtMost deleted 0 (find_user api l u fields)
  unfolding find_user
  AtMost-find_user l u fields =
      if_cases (AtMost deleted {A = Option GitUser} 0)
        (ltb 1 (length fields) && contains fields (bytes "oidc-username"))
        (fail SyncError.mixed_strategies) _ (λ _ c. ground arith)
        (λ _. AtMost-try_fields l u fields)

  pub AtMost-pages :
      (fuel g page : ℕ) (before : List Member) → AtMost deleted 0 (pages api fuel g page before)
  unfolding pages
  AtMost-pages zero g page before = λ c. ground arith
  AtMost-pages (suc fuel) g page before =
      let f : Str → W → Reply (List Member × Bool) × W = λ t. api.members_page t g page in
      AtMost-then deleted 0 (request api f) _
        (AtMost-endpoint deleted api counting f (λ t. counting.members_page t g page))
        λ x. AtMost-then deleted 0 (expect x) _ (AtMost-expect deleted x) λ b.
          if_cases (AtMost deleted {A = List Member} 0) b.1 _ (pure (before ++ b.0))
            (λ _. AtMost-pages fuel g (page + 1) (before ++ b.0)) (λ _ c. ground arith)

  pub AtMost-add_member : (g i l : ℕ) → AtMost deleted 0 (add_member api g i l)
  unfolding add_member
  AtMost-add_member g i l =
      let f : Str → W → Reply (Unit {0}) × W = λ t. api.members_post t g i l in
      AtMost-then deleted 0 (request api f) expect
        (AtMost-endpoint deleted api counting f (λ t. counting.members_post t g i l))
        (AtMost-expect deleted)

  pub AtMost-update_member : (g i l : ℕ) → AtMost deleted 0 (update_member api g i l)
  unfolding update_member
  AtMost-update_member g i l =
      let f : Str → W → Reply (Unit {0}) × W = λ t. api.members_put t g i l in
      AtMost-then deleted 0 (request api f) expect
        (AtMost-endpoint deleted api counting f (λ t. counting.members_put t g i l))
        (AtMost-expect deleted)

  pub AtMost-get_member : (g i : ℕ) → AtMost deleted 0 (get_member api g i)
  unfolding get_member
  AtMost-get_member g i =
      let f : Str → W → Reply Member × W = λ t. api.members_get t g i in
      AtMost-then deleted 0 (request api f) expect_or_none
        (AtMost-endpoint deleted api counting f (λ t. counting.members_get t g i))
        (AtMost-expect_or_none deleted)

  AtMost-ask_identity : (t h : Str) (o : Option ℕ) → AtMost deleted 0 (ask_identity api t h o)
  AtMost-ask_identity t h (some id) = λ c. ground arith
  AtMost-ask_identity t h none =
      AtMost-then deleted 0 (outside (api.user_get t)) _
        (AtMost-outside deleted (api.user_get t) (counting.user_get t)) by_reply
    where
      by_reply :
          (r : Reply ℕ)
          → AtMost deleted {A = ℕ} 0 (elim r [
            | no_reply ↦ fail SyncError.no_response
            | replied status id ↦
                if not (is_success status) || id == 0
                then fail SyncError.bad_status
                else remember api id h
          ])
      by_reply no_reply = λ c. ground arith
      by_reply (replied status id) =
          if_cases (AtMost deleted {A = ℕ} 0) (not (is_success status) || id == 0)
            (fail SyncError.bad_status) _ (λ _ c. ground arith) (λ _ c. ground arith)

  pub AtMost-current_identity : (hash : Str → Str) → AtMost deleted 0 (current_identity api hash)
  unfolding current_identity
  AtMost-current_identity hash =
      AtMost-then deleted 0 (load api.load_token) _
        (AtMost-load deleted api counting api.load_token counting.token)
        (λ t c. AtMost-ask_identity t (hash t) (cached api (hash t) c.identity) c)
