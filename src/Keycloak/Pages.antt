-- ===== src/Keycloak/Pages.antt =====
-- internal/source/keycloak/client.go: the lists that come in pages. `fuel` bounds the pages of a
-- list.
use group_bridge.Base.{
  ℕ, zero, suc, ◌+◌, List, [], ◌∷◌, ◌++◌, if◌then◌else◌, contains, Str, str_eq, length,
}
use group_bridge.Base.Exec.{Result, ok, err, pure, fail, ◌>>=◌}
use group_bridge.Model.{User}
use group_bridge.Keycloak.Urls.{members_path, page_query}
use group_bridge.Keycloak.Api.{GroupRep, UserRep, Keycloak, SourceError, Settings, Call}
use group_bridge.Keycloak.Token.{get}

-- The ids that were seen, with what was collected.
pub record Gathered (A : Type 0) : Type 0 where
  pub seen : List Str
  pub items : List A

abbrev pub nothing_gathered : {A : Type 0} → Gathered A
nothing_gathered = record { seen = []; items = [] }

-- One item of a page is taken, or refused.
module _ {R A : Type 0} (step : R → Gathered A → Result SourceError (Gathered A)) where
  abbrev pub then_take :
      (Gathered A → Result SourceError (Gathered A))
      → Result SourceError (Gathered A)
      → Result SourceError (Gathered A)
  then_take f (ok g) = f g
  then_take f (err e) = err e

  unfoldable pub take_all : List R → Gathered A → Result SourceError (Gathered A)
  take_all [] g = ok g
  take_all (r ∷ rs) g = then_take (take_all rs) (step r g)

unfoldable pub take_group : GroupRep → Gathered GroupRep → Result SourceError (Gathered GroupRep)
take_group r g =
    if contains g.seen r.id
    then err SourceError.duplicate_group
    else ok (record { seen = r.id ∷ g.seen; items = g.items ++ (r ∷ []) })

abbrev pub user_of : UserRep → User
user_of u = record { id = u.id; username = u.username; email = u.email }

-- Only the enabled users are members.
unfoldable pub take_user : UserRep → Gathered User → Result SourceError (Gathered User)
take_user u g =
    if contains g.seen u.id
    then err SourceError.duplicate_user
    else ok (record {
      seen = u.id ∷ g.seen;
      items = if u.enabled then g.items ++ (user_of u ∷ []) else g.items;
    })

module _ {W : Type 0} where
  abbrev pub lift : {A : Type 0} → Result SourceError A → Call W A
  lift r c = (r, c)

  -- Pages are read until an empty one.
  module _ {R A : Type 0} (fetch : ℕ → Call W (List R))
      (step : R → Gathered A → Result SourceError (Gathered A)) where
    abbrev pub turn : (ℕ → Gathered A → Call W (List A)) → ℕ → Gathered A → List R → Call W (List A)
    turn next first g [] = pure g.items
    turn next first g (r ∷ page) =
        lift (take_all step (r ∷ page) g) >>= next (first + length (r ∷ page))

    unfoldable pub pages : ℕ → ℕ → Gathered A → Call W (List A)
    pages zero first g = fail SourceError.out_of_pages
    pages (suc fuel) first g = fetch first >>= turn (pages fuel) first g

module _ {W : Type 0} (settings : Settings) (api : Keycloak W) where
  -- `listGroupsPage`
  unfoldable pub list_groups_page : ℕ → Str → Call W (List GroupRep)
  list_groups_page fuel path =
      pages (λ first. get settings api api.get_groups path (page_query first)) take_group fuel 0
        nothing_gathered

  -- `listMembers`
  unfoldable pub list_members : ℕ → Str → Call W (List User)
  list_members fuel group_id =
      pages
        (λ first.
          get settings api api.get_users (members_path settings.realm group_id) (page_query first))
        take_user fuel 0 nothing_gathered
