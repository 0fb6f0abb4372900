-- ===== src/Keycloak/Listed.antt =====
-- A list that comes in pages is read to its end, whatever the sizes of the pages.
use group_bridge.Base.{
  ℕ, subst, zero, suc, ◌+◌, ◌<◌, ◌≡◌, refl, sym, ◌∙◌, ap, Bool, true, false, List, [], ◌∷◌, ◌++◌,
  if◌then◌else◌, contains, if_false, append-nil, append_assoc, length, length-append, arith, Str,
  str_eq,
}
use group_bridge.Base.Exec.{Result, ok, err, ◌>>=◌}
use group_bridge.Base.Outcomes.{Delivers, given_in_turn}
use group_bridge.Model.{User}
use group_bridge.Keycloak.Urls.{Query, members_path, page_query}
use group_bridge.Keycloak.Api.{GroupRep, UserRep, HttpReply, Keycloak, SourceError, Settings, Call}
use group_bridge.Keycloak.Pages.{
  Gathered, nothing_gathered, then_take, take_all, take_group, user_of, take_user, lift, turn,
  pages, list_groups_page, list_members,
}
use group_bridge.Keycloak.Answering.{Answers, IsGranting, get-Delivers}

-- The beginning of what remains, which is empty only where nothing does.
abbrev pub IsPage : {R : Type 0} → List R → List R → Type 0
IsPage {R} rest page = (after : List R) × (rest ≡ page ++ after) × (page ≡ [] → rest ≡ [])

-- The ids are new, and no two are the same.
abbrev pub AllNew : {R : Type 0} → (R → Str) → List Str → List R → Type 0
AllNew id seen [] = Unit
AllNew id seen (r ∷ rs) = (contains seen (id r) ≡ false) × AllNew id (id r ∷ seen) rs

module _ {R A : Type 0} (step : R → Gathered A → Result SourceError (Gathered A)) where
  take_all-append :
      (xs ys : List R) (g : Gathered A)
      → take_all step (xs ++ ys) g ≡ then_take step (take_all step ys) (take_all step xs g)
  unfolding take_all
  take_all-append [] ys g = refl
  take_all-append (x ∷ xs) ys g = by_result (take_all-append xs ys) (step x g)
    where
      by_result :
          ((h : Gathered A)
            → take_all step (xs ++ ys) h ≡ then_take step (take_all step ys) (take_all step xs h))
          → (r : Result SourceError (Gathered A))
          → then_take step (take_all step (xs ++ ys)) r
            ≡ then_take step (take_all step ys) (then_take step (take_all step xs) r)
      by_result ih (ok h) = ih h
      by_result ih (err e) = refl

  module _ {W : Type 0} (fetch : ℕ → Call W (List R)) (records : List R)
      (paged : (before rest : List R)
        → records ≡ before ++ rest
        → Delivers (IsPage rest) (fetch (length before))) where
    abbrev Reads : Gathered A → Call W (List A) → Type 0
    Reads h m = Delivers (λ items. items ≡ h.items) m

    -- After a page that is not the last.
    turned :
        (fuel : ℕ) (before page after : List R) (h : Gathered A)
        (o : Result SourceError (Gathered A))
        → ((k : Gathered A)
            → take_all step after k ≡ ok h
            → Reads h (pages fetch step fuel (length (before ++ page)) k))
        → then_take step (take_all step after) o ≡ ok h
        → Reads h (lift o >>= pages fetch step fuel (length before + length page))
    turned fuel before page after h (err e) ih t = ground arith
    turned fuel before page after h (ok k) ih t =
        subst (λ n. Reads h (pages fetch step fuel n k)) (length-append before page) (ih k t)

    ended :
        (g h : Gathered A) (rest : List R)
        → take_all step rest g ≡ ok h
        → rest ≡ []
        → g.items ≡ h.items
    unfolding take_all
    ended g h [] t e = cc
    ended g h (x ∷ rest) t e = absurd (ground (arith, e))

    regrouped :
        (before page after rest : List R)
        → records ≡ before ++ rest
        → rest ≡ page ++ after
        → records ≡ (before ++ page) ++ after
    regrouped before page after rest r e = rw r (rw e (sym (append_assoc before page after)))

    shorter :
        (x : R) (page after rest : List R) (fuel : ℕ)
        → length rest < suc fuel
        → rest ≡ (x ∷ page) ++ after
        → length after < fuel
    shorter x page after rest fuel l e =
        let n = ap length e in omega (arith, l, n, length-append page after)

    pages-take_all :
        (fuel : ℕ) (before rest : List R) (g h : Gathered A)
        → records ≡ before ++ rest
        → length rest < fuel
        → take_all step rest g ≡ ok h
        → Reads h (pages fetch step fuel (length before) g)
    unfolding pages
    pages-take_all zero before rest g h r l t = absurd (ground (arith, l))
    pages-take_all (suc fuel) before rest g h r l t =
        given_in_turn (IsPage rest) (λ items. items ≡ h.items) (fetch (length before)) _
          (paged before rest r) (by_page (pages-take_all fuel))
      where
        by_page :
            ((before rest : List R) (g h : Gathered A)
              → records ≡ before ++ rest
              → length rest < fuel
              → take_all step rest g ≡ ok h
              → Reads h (pages fetch step fuel (length before) g))
            → (page : List R) → IsPage rest page
            → Reads h (turn fetch step (pages fetch step fuel) (length before) g page)
        by_page ih [] p = λ c. ended g h rest t (p.2 refl)
        by_page ih (x ∷ page) p =
            turned fuel before (x ∷ page) p.0 h (take_all step (x ∷ page) g)
              (λ k.
                ih (before ++ (x ∷ page)) p.0 k h (regrouped before (x ∷ page) p.0 rest r p.1)
                  (shorter x page p.0 rest fuel l p.1))
              (sym (take_all-append (x ∷ page) p.0 g)
                ∙ (ap (λ xs. take_all step xs g) (sym p.1) ∙ t))

abbrev pub enabled_users : List UserRep → List User
enabled_users [] = []
enabled_users (u ∷ us) = if u.enabled then user_of u ∷ enabled_users us else enabled_users us

abbrev Taken : {A : Type 0} → Result SourceError (Gathered A) → List A → Type 0
Taken {A} r items = (h : Gathered A) × (r ≡ ok h) × (h.items ≡ items)

kept_if :
    {A : Type 0} (t : Bool) (xs : List A) (x : A) (ys : List A)
    → (if t then xs ++ (x ∷ []) else xs) ++ ys ≡ xs ++ (if t then x ∷ ys else ys)
kept_if true xs x ys = append_assoc xs (x ∷ []) ys
kept_if false xs x ys = refl

take_all-users :
    (us : List UserRep) (g : Gathered User)
    → AllNew (λ u. u.id) g.seen us
    → Taken (take_all take_user us g) (g.items ++ enabled_users us)
unfolding take_all take_user
take_all-users [] g n = (g, refl, sym (append-nil g.items))
take_all-users (u ∷ us) g n =
    let next : Gathered User = record {
      seen = u.id ∷ g.seen;
      items = if u.enabled then g.items ++ (user_of u ∷ []) else g.items;
    } in
    let q = take_all-users us next n.1 in
    (
      q.0,
      ap (then_take take_user (take_all take_user us))
            (if_false (contains g.seen u.id) _ (ok next) n.0)
          ∙ q.1,
      q.2 ∙ kept_if u.enabled g.items (user_of u) (enabled_users us),
    )

take_all-groups :
    (rs : List GroupRep) (g : Gathered GroupRep)
    → AllNew (λ r. r.id) g.seen rs
    → Taken (take_all take_group rs g) (g.items ++ rs)
unfolding take_all take_group
take_all-groups [] g n = (g, refl, sym (append-nil g.items))
take_all-groups (r ∷ rs) g n =
    let next : Gathered GroupRep = record { seen = r.id ∷ g.seen; items = g.items ++ (r ∷ []) } in
    let q = take_all-groups rs next n.1 in
    (
      q.0,
      ap (then_take take_group (take_all take_group rs))
            (if_false (contains g.seen r.id) _ (ok next) n.0)
          ∙ q.1,
      q.2 ∙ append_assoc g.items (r ∷ []) rs,
    )

module _ {W : Type 0} (settings : Settings) (api : Keycloak W)
    (granting : IsGranting settings api) where
  -- Whatever the token, the pages at a path are those of a list.
  abbrev pub Serves :
      {R : Type 0} → (Str → Query → Str → W → HttpReply (List R) × W) → Str → List R → Type 0
  Serves {R} endpoint path records =
      (before rest : List R)
      → records ≡ before ++ rest
      → (t : Str) (w : W)
      → Answers (IsPage rest)
          (endpoint (settings.base_url ++ path) (page_query (length before)) t w).0

  pub list_members-enabled :
      (fuel : ℕ) (id : Str) (users : List UserRep)
      → Serves api.get_users (members_path settings.realm id) users
      → AllNew (λ u. u.id) [] users
      → length users < fuel
      → Delivers (λ members. members ≡ enabled_users users) (list_members settings api fuel id)
  unfolding list_members
  list_members-enabled fuel id users serves new l =
      let q = take_all-users users nothing_gathered new in
      subst (λ items. Delivers (λ members. members ≡ items) (list_members settings api fuel id)) q.2
        (pages-take_all take_user _ users
          (λ before rest r.
            get-Delivers settings api granting (IsPage rest) api.get_users _
              (page_query (length before)) (serves before rest r))
          fuel [] users nothing_gathered q.0 refl l q.1)

  pub list_groups_page-served :
      (fuel : ℕ) (path : Str) (groups : List GroupRep)
      → Serves api.get_groups path groups
      → AllNew (λ g. g.id) [] groups
      → length groups < fuel
      → Delivers (λ all. all ≡ groups) (list_groups_page settings api fuel path)
  unfolding list_groups_page
  list_groups_page-served fuel path groups serves new l =
      let q = take_all-groups groups nothing_gathered new in
      subst (λ items. Delivers (λ all. all ≡ items) (list_groups_page settings api fuel path)) q.2
        (pages-take_all take_group _ groups
          (λ before rest r.
            get-Delivers settings api granting (IsPage rest) api.get_groups path
              (page_query (length before)) (serves before rest r))
          fuel [] groups nothing_gathered q.0 refl l q.1)
