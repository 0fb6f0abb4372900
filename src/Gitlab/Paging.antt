-- ===== src/Gitlab/Paging.antt =====
-- The list of members ends where the server's pages do.
use group_bridge.Base.{
  ℕ, suc, zero, ◌+◌, ◌≤◌, ◌<◌, ◌≡◌, ◌≢◌, Bool, false, Option, none, some, List, [], ◌++◌, if_cases,
  arith, Str,
}
use group_bridge.Base.Exec.{Result, ok, err, continue, ◌>>=◌}
use group_bridge.Gitlab.Api.{
  Member, Reply, no_reply, replied, Api, SyncError, Client, Call, is_success, request, given,
  received, outside, load, expect,
}
use group_bridge.Gitlab.Members.{pages, list_members}

-- A page of which the server names no next one, whatever else it answers.
abbrev pub IsLast : Reply (List Member × Bool) → Type 0
IsLast no_reply = Unit
IsLast (replied status (batch, has_next)) = has_next ≡ false

-- From this page on, the server names no next page.
abbrev pub EndsAt : {W : Type 0} → Api W → ℕ → ℕ → Type 0
EndsAt {W} api group_id last =
    (token : Str) (page : ℕ) (w : W)
    → last ≤ page
    → IsLast (api.members_page token group_id page w).0

-- The answer is not that the fuel ran out, and what it carries has the property.
abbrev pub Fueled : {W A : Type 0} → (A → Type 0) → Result SyncError A × Client W → Type 0
Fueled P (ok a, c) = P a
Fueled P (err e, c) = e ≢ SyncError.out_of_pages

module _ {W A B : Type 0} where
  Fueled-in_turn :
      (P : A → Type 0) (Q : B → Type 0) (r : Result SyncError A × Client W) (f : A → Call W B)
      → Fueled P r
      → ((a : A) (c : Client W) → P a → Fueled Q (f a c))
      → Fueled Q (continue r.0 f r.1)
  Fueled-in_turn P Q (ok a, c) f p g = g a c p
  Fueled-in_turn P Q (err e, c) f p g = p

module _ {W : Type 0} (api : Api W) (group_id last : ℕ) (ends : EndsAt api group_id last) where
  -- What a request for the page tells of the next one.
  abbrev Turned : ℕ → ℕ × (List Member × Bool) → Type 0
  Turned page (status, (batch, has_next)) = last ≤ page → has_next ≡ false

  request-Fueled :
      (page : ℕ) (c : Client W)
      → Fueled (Turned page) (request api (λ token. api.members_page token group_id page) c)
  unfolding request load outside
  request-Fueled page c = by_token (api.load_token c.world).0 (api.load_token c.world).1
    where
      by_reply :
          (r : Reply (List Member × Bool)) (d : Client W)
          → (last ≤ page → IsLast r)
          → Fueled (Turned page) (received r d)
      by_reply no_reply d q = λ e. ground arith
      by_reply (replied status (batch, has_next)) d q = q

      by_token :
          (o : Option Str) (w : W)
          → Fueled (Turned page) (
              continue
                (given o (record c { world = w })).0
                (λ token. outside (λ v. api.members_page token group_id page v) >>= received)
                (given o (record c { world = w })).1)
      by_token none w = λ e. ground arith
      by_token (some t) w = by_reply (api.members_page t group_id page w).0 _ (λ l. ends t page w l)

  expect-Fueled :
      (page : ℕ) (x : ℕ × (List Member × Bool)) (c : Client W)
      → Turned page x
      → Fueled (λ b. last ≤ page → b.1 ≡ false) (expect x c)
  expect-Fueled page (status, (batch, has_next)) c t =
      if_cases (λ (m : Call W (List Member × Bool)). Fueled (λ b. last ≤ page → b.1 ≡ false) (m c))
        (is_success status) _ _ (λ _. t) (λ _ e. ground arith)

  pages-Fueled :
      (fuel page : ℕ) (before : List Member) (c : Client W)
      → 1 ≤ fuel
      → last < fuel + page
      → Fueled (λ ms. Unit) (pages api fuel group_id page before c)
  unfolding pages
  pages-Fueled zero page before c g h = absurd (ground arith)
  pages-Fueled (suc fuel) page before c g h =
      Fueled-in_turn (Turned page) (λ ms. Unit) _ _ (request-Fueled page c)
        λ x d t.
          Fueled-in_turn (λ b. last ≤ page → b.1 ≡ false) (λ ms. Unit) _ _
            (expect-Fueled page x d t)
            λ b e n.
              if_cases (λ (m : Call W (List Member)). Fueled (λ ms. Unit) (m e)) b.1 _ _
                (λ more.
                  pages-Fueled fuel (page + 1) (before ++ b.0) e (ground (arith, n, more))
                    (omega (arith, h)))
                (λ _. tt)

  -- Where the server names no next page from some page on, the list of members does not run out of
  -- pages as long as the fuel is positive and that page's number or more.
  pub list_members-Fueled :
      (fuel : ℕ) (c : Client W)
      → 1 ≤ fuel
      → last ≤ fuel
      → Fueled (λ ms. Unit) (list_members api fuel group_id c)
  list_members-Fueled fuel c g h = pages-Fueled fuel 1 [] c g (omega (arith, h))
