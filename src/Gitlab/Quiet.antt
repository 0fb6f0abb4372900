-- ===== src/Gitlab/Quiet.antt =====
-- The calls that send no request to delete a membership.
use group_bridge.Base.{
  ℕ, ◌+◌, ◌≤◌, Bool, false, not, ◌&&◌, ◌||◌, Option, none, some, List, [], ◌∷◌, ◌++◌, ◌==◌,
  if_cases, arith, number_eq, Str, str_eq, is_empty, has_prefix,
}
use group_bridge.Base.Exec.{Result, ok, err, Exec, fail, ◌>>=◌}
use group_bridge.Base.Counting.{Adds-bind, Adds-more}
use group_bridge.State.Ledger.{Store, StateError, Faults}
use group_bridge.Reconcile.Paths.{trim, is_slash, split, join}
use group_bridge.Gitlab.Api.{
  GitGroup, UserQuery, Reply, no_reply, replied, Api, SyncError, Client, Call, is_success, outside,
  stored, on_store, given, load, received, request, expect, expect_or_none,
}
use group_bridge.Gitlab.Groups.{
  get_group, create_group, parent_id, keep_or_create, create_path, required, resolved, split_at,
  create_below, found_or_created, ensure_group,
}

module _ {W : Type 0} (deleted : W → ℕ) where
  -- An endpoint that does not delete.
  abbrev pub Harmless : {A : Type 0} → (W → A × W) → Type 0
  Harmless f = (w : W) → deleted (f w).1 ≤ deleted w

  -- The world counts the requests to delete a membership.
  pub record IsCounting (api : Api W) : Type 0 where
    pub token : Harmless api.load_token
    pub resolver : Harmless api.load_resolver_token
    pub groups_get : (t p : Str) → Harmless (api.groups_get t p)
    pub groups_post : (t s : Str) (p : Option ℕ) → Harmless (api.groups_post t s p)
    pub members_page : (t : Str) (g p : ℕ) → Harmless (api.members_page t g p)
    pub members_post : (t : Str) (g i l : ℕ) → Harmless (api.members_post t g i l)
    pub members_get : (t : Str) (g i : ℕ) → Harmless (api.members_get t g i)
    pub members_put : (t : Str) (g i l : ℕ) → Harmless (api.members_put t g i l)
    pub members_delete :
        (t : Str) (g i : ℕ) (w : W) → deleted (api.members_delete t g i w).1 ≤ deleted w + 1
    pub users_get : (t : Str) (q : UserQuery) → Harmless (api.users_get t q)
    pub user_get : (t : Str) → Harmless (api.user_get t)

  -- A call sends at most so many requests to delete.
  abbrev pub AtMost : {A : Type 0} → ℕ → Call W A → Type 0
  AtMost n m = (c : Client W) → deleted (m c).1.world ≤ deleted c.world + n

  pub AtMost-bind :
      {A B : Type 0} (j k : ℕ) (m : Call W A) (f : A → Call W B)
      → AtMost j m
      → ((a : A) → AtMost k (f a))
      → AtMost (j + k) (m >>= f)
  AtMost-bind j k m f h g = Adds-bind (λ c. deleted c.world) j k m f h g

  -- A call that deletes nothing, and then another.
  pub AtMost-then :
      {A B : Type 0} (k : ℕ) (m : Call W A) (f : A → Call W B)
      → AtMost 0 m
      → ((a : A) → AtMost k (f a))
      → AtMost k (m >>= f)
  AtMost-then k m f h g =
      Adds-more (λ c. deleted c.world) (0 + k) k (m >>= f) (omega arith)
        (Adds-bind (λ c. deleted c.world) 0 k m f h g)

  pub AtMost-outside : {A : Type 0} (f : W → A × W) → Harmless f → AtMost 0 (outside f)
  unfolding outside
  AtMost-outside f h c = ground (arith, h c.world)

  pub AtMost-on_store :
      {A : Type 0} (api : Api W) (f : Faults → Exec StateError Store A) → AtMost 0 (on_store api f)
  unfolding on_store
  AtMost-on_store {A = A} api f c = of_result (f (api.faults c.world) c.store)
    where
      of_result :
          (r : Result StateError A × Store) → deleted (stored r c).1.world ≤ deleted c.world + 0
      of_result (ok a, s) = ground arith
      of_result (err e, s) = ground arith

  AtMost-given : (o : Option Str) → AtMost 0 (given o)
  AtMost-given none = λ c. ground arith
  AtMost-given (some t) = λ c. ground arith

  pub AtMost-received : {A : Type 0} (r : Reply A) → AtMost 0 (received r)
  AtMost-received no_reply = λ c. ground arith
  AtMost-received (replied s a) = λ c. ground arith

  pub AtMost-expect : {A : Type 0} (x : ℕ × A) → AtMost 0 (expect x)
  AtMost-expect (s, a) =
      if_cases (AtMost 0) (is_success s) _ _ (λ _ c. ground arith) (λ _ c. ground arith)

  pub AtMost-expect_or_none : {A : Type 0} (x : ℕ × A) → AtMost 0 (expect_or_none x)
  AtMost-expect_or_none (s, a) =
      if_cases (AtMost 0) (s == 404) _ _ (λ _ c. ground arith)
        λ _. if_cases (AtMost 0) (is_success s) _ _ (λ _ c. ground arith) (λ _ c. ground arith)

  module _ (api : Api W) (counting : IsCounting api) where
    pub AtMost-load : (f : W → Option Str × W) → Harmless f → AtMost 0 (load f)
    unfolding load
    AtMost-load f h = AtMost-then 0 (outside f) given (AtMost-outside f h) AtMost-given

    -- A request sends what its endpoint does.
    pub AtMost-request :
        {A : Type 0} (n : ℕ) (f : Str → W → Reply A × W)
        → ((t : Str) (w : W) → deleted (f t w).1 ≤ deleted w + n)
        → AtMost n (request api f)
    unfolding request outside
    AtMost-request n f h =
        AtMost-then n (load api.load_token) _ (AtMost-load api.load_token counting.token) λ t c.
          ground (
            arith,
            h t c.world,
            AtMost-received (f t c.world).0 (record c { world = (f t c.world).1 }),
          )

    pub AtMost-endpoint :
        {A : Type 0} (f : Str → W → Reply A × W)
        → ((t : Str) → Harmless (f t))
        → AtMost 0 (request api f)
    AtMost-endpoint f h = AtMost-request 0 f (λ t w. ground (arith, h t w))

    AtMost-get_group : (p : Str) → AtMost 0 (get_group api p)
    unfolding get_group
    AtMost-get_group p =
        AtMost-then 0 (request api (λ t. api.groups_get t p)) expect_or_none
          (AtMost-endpoint (λ t. api.groups_get t p) (λ t. counting.groups_get t p))
          AtMost-expect_or_none

    AtMost-create_group : (s : Str) (g : Option GitGroup) → AtMost 0 (create_group api s g)
    unfolding create_group
    AtMost-create_group s g =
        let f : Str → W → Reply GitGroup × W = λ t. api.groups_post t s (parent_id api g) in
        AtMost-then 0 (request api f) expect
          (AtMost-endpoint f (λ t. counting.groups_post t s (parent_id api g))) AtMost-expect

    AtMost-keep_or_create : (s : Str) (g o : Option GitGroup) → AtMost 0 (keep_or_create api s g o)
    AtMost-keep_or_create s g none =
        AtMost-then 0 (create_group api s g) _ (AtMost-create_group s g) (λ a c. ground arith)
    AtMost-keep_or_create s g (some found) = λ c. ground arith

    AtMost-create_path :
        (done rest : List Str) (g : Option GitGroup) (b : Bool)
        → AtMost 0 (create_path api done rest g b)
    unfolding create_path
    AtMost-create_path done [] g b = λ c. ground arith
    AtMost-create_path done (s ∷ rest) g b =
        AtMost-then 0 (get_group api (join (done ++ (s ∷ [])))) _
          (AtMost-get_group (join (done ++ (s ∷ []))))
          λ found.
            AtMost-then 0 (keep_or_create api s g found) _ (AtMost-keep_or_create s g found)
              (λ x. AtMost-create_path (done ++ (s ∷ [])) rest (some x.0) (b || x.1))

    AtMost-required : (e : SyncError) (o : Option GitGroup) → AtMost 0 (required api e o)
    AtMost-required e none = λ c. ground arith
    AtMost-required e (some g) = λ c. ground arith

    AtMost-resolved : (x : Option GitGroup × Bool) → AtMost 0 (resolved api x)
    AtMost-resolved (none, b) = λ c. ground arith
    AtMost-resolved (some g, b) = λ c. ground arith

    AtMost-create_below : (full parent : Str) → AtMost 0 (create_below api full parent)
    unfolding create_below
    AtMost-create_below full parent =
        if_cases (AtMost 0) (is_empty parent) _ _
          (λ _.
            AtMost-then 0 (create_path api [] (split full) none false) _
              (AtMost-create_path [] (split full) none false) AtMost-resolved)
          λ _. AtMost-then 0 (get_group api parent) _ (AtMost-get_group parent) λ found.
            AtMost-then 0 (required api SyncError.no_parent found) _
              (AtMost-required SyncError.no_parent found)
              λ g.
                let x = split_at api (split parent) (split full) in
                AtMost-then 0 (create_path api x.0 x.1 (some g) false) _
                  (AtMost-create_path x.0 x.1 (some g) false) AtMost-resolved

    AtMost-found_or_created :
        (full parent : Str) (b : Bool) (o : Option GitGroup)
        → AtMost 0 (found_or_created api full parent b o)
    AtMost-found_or_created full parent b (some g) = λ c. ground arith
    AtMost-found_or_created full parent b none =
        if_cases (AtMost 0) b _ _ (λ _. AtMost-create_below full parent) (λ _ c. ground arith)

    pub AtMost-ensure_group :
        (full parent : Str) (b : Bool) → AtMost 0 (ensure_group api full parent b)
    unfolding ensure_group
    AtMost-ensure_group full parent b =
        if_cases (AtMost 0) (is_empty (trim is_slash full)) _ _ (λ _ c. ground arith)
          λ _.
            if_cases (AtMost {A = GitGroup × Bool} 0)
              (not (is_empty (trim is_slash parent))
                && not (trim is_slash full == trim is_slash parent)
                && not (has_prefix (trim is_slash full) (trim is_slash parent ++ (47 ∷ []))))
              (fail SyncError.outside_parent) _ (λ _ c. ground arith)
              λ _.
                AtMost-then 0 (get_group api (trim is_slash full)) _
                  (AtMost-get_group (trim is_slash full))
                  (AtMost-found_or_created (trim is_slash full) (trim is_slash parent) b)
