-- ===== src/Keycloak/Forest.antt =====
-- The groups of a server as a forest, and what a source should list of it.
use group_bridge.Base.{
  ℕ, suc, ◌<◌, ◌≡◌, refl, false, List, [], ◌∷◌, ◌++◌, if◌then◌else◌, contains, length, arith, Str,
  str_eq, ltb,
}
use group_bridge.Model.{Group}
use group_bridge.Keycloak.Urls.{members_path, children_path}
use group_bridge.Keycloak.Api.{GroupRep, UserRep, Keycloak, Settings}
use group_bridge.Keycloak.Groups.{path_of, group_of, is_unnamed}
use group_bridge.Keycloak.Answering.{IsGranting}
use group_bridge.Keycloak.Listed.{AllNew, enabled_users, Serves}

-- A group with its users, the groups below it, and the groups beside it.
pub data Forest : Type 0 where
  bare : Forest
  grown : GroupRep → List UserRep → Forest → Forest → Forest

abbrev pub tops : Forest → List GroupRep
tops bare = []
tops (grown g users below beside) = g ∷ tops beside

-- Each group stands before the groups below it.
abbrev pub flatten : Str → Forest → List Group
flatten parent_path bare = []
flatten parent_path (grown g users below beside) =
    let path = path_of g parent_path in
    group_of g path (enabled_users users) ∷ (flatten path below ++ flatten parent_path beside)

abbrev pub group_ids : Forest → List Str
group_ids bare = []
group_ids (grown g users below beside) = g.id ∷ (group_ids below ++ group_ids beside)

abbrev pub larger : ℕ → ℕ → ℕ
larger m n = if ltb m n then n else m

abbrev pub depth : Forest → ℕ
depth bare = 0
depth (grown g users below beside) = larger (suc (depth below)) (depth beside)

abbrev pub self : Str → Str
self s = s

module _ {W : Type 0} (settings : Settings) (api : Keycloak W) (granting : IsGranting settings api)
    (fuel : ℕ) where
  -- The server answers from the forest: each group has a name and an id, its users have ids of
  -- their own, and the fuel is more than the users of a group and than the groups below it.
  abbrev pub Hosts : Forest → Type 0
  Hosts bare = Unit
  Hosts (grown g users below beside) =
      (is_unnamed g ≡ false)
      × (AllNew (λ u. u.id) [] users)
      × (length users < fuel)
      × (length (tops below) < fuel)
      × (Serves settings api granting api.get_users (members_path settings.realm g.id) users)
      × (Serves settings api granting api.get_groups (children_path settings.realm g.id)
          (tops below))
      × Hosts below
      × Hosts beside

-- The ids that were seen after some more.
abbrev pub push : List Str → List Str → List Str
push seen [] = seen
push seen (x ∷ xs) = push (x ∷ seen) xs

pub push-append : (seen xs ys : List Str) → push seen (xs ++ ys) ≡ push (push seen xs) ys
push-append seen [] ys = refl
push-append seen (x ∷ xs) ys = push-append (x ∷ seen) xs ys

pub AllNew-append :
    (seen xs ys : List Str)
    → AllNew self seen (xs ++ ys)
    → AllNew self seen xs × AllNew self (push seen xs) ys
AllNew-append seen [] ys n = (tt, n)
AllNew-append seen (x ∷ xs) ys n = let q = AllNew-append (x ∷ seen) xs ys n.1 in ((n.0, q.0), q.1)

abbrev Within : List Str → List Str → Type 0
Within some_ all = (x : Str) → contains all x ≡ false → contains some_ x ≡ false

Within-push : (xs seen all : List Str) → Within seen all → Within seen (push all xs)
Within-push [] seen all h = h
Within-push (y ∷ xs) seen all h = Within-push xs seen (y ∷ all) (λ x e. h x (ground (arith, e)))

tops-AllNew-Within :
    (f : Forest) (seen all : List Str)
    → Within seen all
    → AllNew self all (group_ids f)
    → AllNew (λ g. g.id) seen (tops f)
tops-AllNew-Within bare seen all h n = tt
tops-AllNew-Within (grown g users below beside) seen all h n =
    let q = AllNew-append (g.id ∷ all) (group_ids below) (group_ids beside) n.1 in
    (
      h g.id n.0,
      tops-AllNew-Within beside (g.id ∷ seen) (push (g.id ∷ all) (group_ids below))
          (Within-push (group_ids below) (g.id ∷ seen) (g.id ∷ all) (λ x e. ground (arith, e, h x)))
          q.1,
    )

-- Where no two groups of a forest have one id, no two of a list of siblings do.
pub tops-AllNew :
    (f : Forest) (seen : List Str) → AllNew self seen (group_ids f) → AllNew (λ g. g.id) [] (tops f)
tops-AllNew f seen n = tops-AllNew-Within f [] seen (λ x e. refl) n
