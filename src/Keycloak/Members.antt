-- ===== src/Keycloak/Members.antt =====
-- The members of a group, of any server, have ids of their own.
use group_bridge.Base.{
  ℕ, zero, suc, ◌+◌, ◌≡◌, refl, sym, subst, ◌∙◌, ap, false, List, [], ◌∷◌, ◌++◌, contains, if_cases,
  length, arith, Str, str_eq,
}
use group_bridge.Base.Exec.{Result, ok, err}
use group_bridge.Base.Outcomes.{Yields, Ensures, weakened, anything, in_turn}
use group_bridge.Model.{User}
use group_bridge.Keycloak.Api.{UserRep, Keycloak, SourceError, Settings, Client, Call}
use group_bridge.Keycloak.Pages.{
  Gathered, nothing_gathered, then_take, take_all, user_of, take_user, lift, turn, pages,
  list_members,
}
use group_bridge.Keycloak.Listed.{AllNew}
use group_bridge.Keycloak.Forest.{self, push, push-append}

abbrev pub user_ids : List User → List Str
user_ids [] = []
user_ids (u ∷ us) = u.id ∷ user_ids us

pub AllNew-snoc :
    (seen xs : List Str) (y : Str)
    → AllNew self seen xs
    → contains (push seen xs) y ≡ false
    → AllNew self seen (xs ++ (y ∷ []))
AllNew-snoc seen [] y n e = (e, tt)
AllNew-snoc seen (x ∷ xs) y n e = (n.0, AllNew-snoc (x ∷ seen) xs y n.1 e)

user_ids-append : (us vs : List User) → user_ids (us ++ vs) ≡ user_ids us ++ user_ids vs
user_ids-append [] vs = refl
user_ids-append (u ∷ us) vs = ap (λ xs. u.id ∷ xs) (user_ids-append us vs)

-- The items that were gathered with a property.
abbrev Kept : {A : Type 0} → (Gathered A → Type 0) → List A → Type 0
Kept {A} I items = (g : Gathered A) × (items ≡ g.items) × I g

-- What every step keeps holds of what the pages gather.
module _ {R A W : Type 0} (step : R → Gathered A → Result SourceError (Gathered A))
    (I : Gathered A → Type 0)
    (keeps : (r : R) (g : Gathered A) (c : Client W) → I g → Yields I (step r g, c)) where
  take_all-keeps :
      (rs : List R) (g : Gathered A) (c : Client W) → I g → Yields I (take_all step rs g, c)
  unfolding take_all
  take_all-keeps [] g c i = i
  take_all-keeps (r ∷ rs) g c i = by_result (take_all-keeps rs) (step r g) (keeps r g c i)
    where
      by_result :
          ((g : Gathered A) (c : Client W) → I g → Yields I (take_all step rs g, c))
          → (o : Result SourceError (Gathered A)) → Yields I (o, c)
          → Yields I (then_take step (take_all step rs) o, c)
      by_result ih (ok h) j = ih h c j
      by_result ih (err e) j = tt

  pages-keeps :
      (fetch : ℕ → Call W (List R)) (fuel first : ℕ) (g : Gathered A)
      → I g
      → Ensures (Kept I) (pages fetch step fuel first g)
  unfolding pages
  pages-keeps fetch zero first g i = λ c. tt
  pages-keeps fetch (suc fuel) first g i =
      in_turn (λ page. Unit {0}) (Kept I) (fetch first)
        (turn fetch step (pages fetch step fuel) first g) (anything (fetch first))
        (λ page u. by_page (pages-keeps fetch fuel) page)
    where
      by_page :
          ((first : ℕ) (g : Gathered A) → I g → Ensures (Kept I) (pages fetch step fuel first g))
          → (page : List R)
          → Ensures (Kept I) (turn fetch step (pages fetch step fuel) first g page)
      by_page ih [] = λ c. (g, refl, i)
      by_page ih (r ∷ page) =
          in_turn I (Kept I) (lift (take_all step (r ∷ page) g))
            (pages fetch step fuel (first + length (r ∷ page)))
            (λ c. take_all-keeps (r ∷ page) g c i) (ih (first + length (r ∷ page)))

abbrev UsersDiffer : Gathered User → Type 0
UsersDiffer g =
    AllNew self [] (user_ids g.items)
    × ((x : Str) → contains g.seen x ≡ false → contains (push [] (user_ids g.items)) x ≡ false)

with_user-UsersDiffer :
    (seen : List Str) (u : User) (items : List User)
    → contains seen u.id ≡ false
    → UsersDiffer (record { seen = seen; items = items })
    → UsersDiffer (record { seen = u.id ∷ seen; items = items ++ (u ∷ []) })
with_user-UsersDiffer seen u items e i = (
  subst (AllNew self []) (sym (user_ids-append items (u ∷ [])))
      (AllNew-snoc [] (user_ids items) u.id i.0 (i.1 u.id e)),
  λ x n.
      subst (λ xs. contains xs x ≡ false)
        (sym (
          ap (push []) (user_ids-append items (u ∷ []))
          ∙ push-append [] (user_ids items) (u.id ∷ [])))
        (let m = i.1 x in ground (arith, n, m)),
)

take_user-UsersDiffer :
    {W : Type 0} (u : UserRep) (g : Gathered User) (c : Client W)
    → UsersDiffer g
    → Yields UsersDiffer (take_user u g, c)
unfolding take_user
take_user-UsersDiffer {W = W} u g c i =
    if_cases (λ (r : Result SourceError (Gathered User)). Yields {S = Client W} UsersDiffer (r, c))
      (contains g.seen u.id) _ _ (λ y. tt)
      λ n.
        if_cases
          (λ (items : List User). UsersDiffer (record { seen = u.id ∷ g.seen; items = items }))
          u.enabled _ _ (λ y. with_user-UsersDiffer g.seen (user_of u) g.items n i)
          (λ y. (i.0, λ x m. i.1 x (ground (arith, m))))

module _ {W : Type 0} (settings : Settings) (api : Keycloak W) (fuel : ℕ) where
  pub list_members-differ :
      (id : Str)
      → Ensures (λ members. AllNew self [] (user_ids members)) (list_members settings api fuel id)
  unfolding list_members
  list_members-differ id c =
      weakened (Kept UsersDiffer) _ (list_members settings api fuel id c)
        (λ members k. subst (λ us. AllNew self [] (user_ids us)) (sym k.1) k.2.0)
        (pages-keeps take_user UsersDiffer take_user-UsersDiffer _ fuel 0 nothing_gathered
          (tt, λ x e. e) c)
