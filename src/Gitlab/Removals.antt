-- ===== src/Gitlab/Removals.antt =====
-- Whom a synchronization removes, and how many.
use group_bridge.Base.{
  ℕ, ◌<◌, ◌≡◌, ◌≢◌, Option, none, some, bytes, contains, ◌⊎◌, inl, inr, refl, ◌∙◌, subst, Bool,
  true, false, ◌&&◌, ◌||◌, List, [], ◌∷◌, if◌then◌else◌, if_cases, arith, All, All-append,
  number_eq, Str, str_eq, leb,
}
use group_bridge.Base.Map.{Map, lookup, has, insert, has-eq_lookup}
use group_bridge.Base.Exec.{Result, ok, err, pure, continue, ◌>>=◌}
use group_bridge.Model.{SyncRequest}
use group_bridge.State.Ledger.{Membership, Store, StateError, Faults, key}
use group_bridge.State.Saving.{
  Outcome, committed, refused, unsynced, outcome, saved, save_locked_lem,
}
use group_bridge.State.Operations.{
  is_some, is_managed, answer, or_undo, observe, restore, confirm_absent,
}
use group_bridge.Gitlab.Api.{Member, GitUser, Api, SyncError, Client, Call, itoa, on_store, stored}
use group_bridge.Gitlab.Terms.{
  Options, is_authoritative, is_managed_only, is_spared, lower_all, Removals, chosen,
}
use group_bridge.Gitlab.Settle.{managed}
use group_bridge.Gitlab.Prune.{confirm_removal, consider, choose_removals}

-- Observing an absence does not change who is managed.
records-confirm_absent :
    (f : Faults) (p g u : Str) (s : Store) → (confirm_absent f p g u s).1.records ≡ s.records
unfolding confirm_absent
records-confirm_absent f p g u s = rw save_locked_lem (by_outcome (outcome f))
  where
    k : Str
    k = key p g u

    t : Store
    t = record s { absences = insert k (observe p g u (lookup k s.absences)) s.absences }

    by_outcome :
        (o : Outcome)
        → (answer (leb 2 (observe p g u (lookup k s.absences)).observations) (
            or_undo
              (saved o t)
              λ v. record v { absences = restore k (lookup k s.absences) v.absences })).1.records
          ≡ s.records
    by_outcome committed = refl
    by_outcome (refused step) = refl
    by_outcome (unsynced step) = refl

module _ (o : Options) (req : SyncRequest) (group_id self : ℕ) (desired : Map ℕ GitUser) where
  -- What makes it right to remove a member, with the memberships on record. 50 is an owner's level.
  pub record IsRemovable (records : Map Str Membership) (m : Member) : Type 0 where
    pub unwanted : lookup m.id desired ≡ none
    pub not_self : m.id ≢ self
    pub below_owner : m.access_level < 50
    pub plain_role : m.member_role_id ≡ none
    pub unprotected : All (λ p. o.to_lower m.username ≢ o.to_lower p) req.protected_users
    pub by_policy :
        (req.prune ≡ bytes "authoritative")
        ⊎ ((req.prune ≡ bytes "managed-only")
            × ((r : Membership) × (lookup (key o.ownership_key (itoa group_id) (itoa m.id)) records
                  ≡ some r)))

  not_listed :
      (name : Str) (ps : List Str)
      → contains (lower_all o.to_lower ps) name ≡ false
      → All (λ p. name ≢ o.to_lower p) ps
  unfolding lower_all
  not_listed name [] h = tt
  not_listed name (p ∷ ps) h = (λ e. ground (arith, e, h), not_listed name ps (ground (arith, h)))

  -- What the loop passes over is no one of the four.
  unspared :
      (m : Member)
      → is_spared o req self m ≡ false
      → (m.id ≢ self)
        × (m.access_level < 50)
        × (m.member_role_id ≡ none)
        × All (λ p. o.to_lower m.username ≢ o.to_lower p) req.protected_users
  unfolding is_spared
  unspared m h = (
    λ e. ground (arith, e, h),
    ground (arith, h),
    by_role m.member_role_id (ground (arith, h)),
    not_listed (o.to_lower m.username) req.protected_users (ground (arith, h)),
  )
    where
      by_role : (r : Option ℕ) → elim r [ none ↦ false | some i ↦ true ] ≡ false → r ≡ none
      by_role none e = refl
      by_role (some i) e = ground (arith, e)

  unwanted_by : (id : ℕ) → has id desired ≡ false → lookup id desired ≡ none
  unwanted_by id h = by_value (lookup id desired) (has-eq_lookup id desired)
    where
      by_value :
          (v : Option GitUser) → has id desired ≡ elim v [ none ↦ false | some u ↦ true ] → v ≡ none
      by_value none e = refl
      by_value (some u) e = ground (arith, e, h)

  -- The removals that are found, and that nobody's membership on record has changed.
  abbrev pub Lawful :
      {W : Type 0} → Map Str Membership → Result SyncError Removals × Client W → Type 0
  Lawful records (ok r, c) = (c.store.records ≡ records) × All (IsRemovable records) r.removals
  Lawful records (err e, c) = Unit

  chosen-Lawful :
      (records : Map Str Membership) (m : Member) (r : Removals) (confirmed : Bool)
      → IsRemovable records m
      → All (IsRemovable records) r.removals
      → All (IsRemovable records) (chosen m confirmed r).removals
  chosen-Lawful records m r true x h =
      All-append (IsRemovable records) r.removals (m ∷ []) h (x, tt)
  chosen-Lawful records m r false x h = h

  module _ {W : Type 0} (api : Api W) where
    confirm_removal-Lawful :
        (m : Member) (r : Removals) (c : Client W) (records : Map Str Membership)
        → IsRemovable records m
        → c.store.records ≡ records
        → All (IsRemovable records) r.removals
        → Lawful records (
            (confirm_removal api o req group_id m.id >>= λ confirmed. pure (chosen m confirmed r))
              c)
    confirm_removal-Lawful m r c records x e h = by_mode req.immediate_removal
      where
        observed : Result StateError Bool × Store
        observed =
            confirm_absent (api.faults c.world) o.ownership_key (itoa group_id) (itoa m.id) c.store

        by_answer :
            (a : Result StateError Bool × Store)
            → a.1.records ≡ c.store.records
            → Lawful records
                (continue (stored a c).0 (λ confirmed. pure (chosen m confirmed r)) (stored a c).1)
        by_answer (ok b, s) q = (q ∙ e, chosen-Lawful records m r b x h)
        by_answer (err b, s) q = tt

        asked : Bool → Call W Bool
        asked b =
            if b
            then pure true
            else on_store api (λ f. confirm_absent f o.ownership_key (itoa group_id) (itoa m.id))

        by_mode :
            (b : Bool) → Lawful records ((asked b >>= λ confirmed. pure (chosen m confirmed r)) c)
        by_mode true = (e, chosen-Lawful records m r true x h)
        by_mode false =
            unfold on_store in
            by_answer observed (
              records-confirm_absent (api.faults c.world) o.ownership_key (itoa group_id)
                (itoa m.id) c.store)

    consider-Lawful :
        (m : Member) (r : Removals) (c : Client W) (records : Map Str Membership)
        → c.store.records ≡ records
        → All (IsRemovable records) r.removals
        → Lawful records (consider api o req group_id self desired m r c)
    unfolding consider is_managed
    consider-Lawful m r c records e h =
        if_cases (Lawful records) (has m.id desired) _ _ (λ _. (e, h))
          λ unwanted.
            if_cases (Lawful records) (is_spared o req self m) _ _ (λ _. (e, h))
              λ spared.
                if_cases (Lawful records)
                  (is_authoritative req || (is_managed_only req && managed api o group_id m.id c)) _
                  _
                  (λ p.
                    confirm_removal-Lawful m r c records
                      (let u = unspared m spared in
                        record {
                          unwanted = unwanted_by m.id unwanted;
                          not_self = u.0;
                          below_owner = u.1;
                          plain_role = u.2;
                          unprotected = u.3;
                          by_policy = policy p;
                        })
                      e h)
                  (λ _. (e, h))
      where
        place : Str
        place = key o.ownership_key (itoa group_id) (itoa m.id)

        on_record : (v : Option Membership) → is_some v ≡ true → (r : Membership) × (v ≡ some r)
        on_record none h = ground (arith, h)
        on_record (some r) h = (r, refl)

        either : (a b k : Bool) → (a || (b && k)) ≡ true → (a ≡ true) ⊎ ((b ≡ true) × (k ≡ true))
        either true b k p = inl refl
        either false true k p = inr (refl, p)
        either false false k p = absurd (ground arith)

        policy :
            (is_authoritative req
                || (is_managed_only req && is_some (lookup place c.store.records)))
              ≡ true
            → (req.prune ≡ bytes "authoritative")
              ⊎ ((req.prune ≡ bytes "managed-only")
                  × ((r : Membership) × (lookup place records ≡ some r)))
        policy p =
            elim (either (is_authoritative req) (is_managed_only req)
              (is_some (lookup place c.store.records)) p) [
                | inl y ↦ inl (ground (arith, y))
                | inr (y, k) ↦ inr (
                  ground (arith, y),
                  on_record (lookup place records)
                      (subst (λ x. is_some (lookup place x) ≡ true) e k),
                )
              ]

    choose_removals-Lawful :
        (ms : List Member) (r : Removals) (c : Client W) (records : Map Str Membership)
        → c.store.records ≡ records
        → All (IsRemovable records) r.removals
        → Lawful records (choose_removals api o req group_id self desired ms r c)
    unfolding choose_removals
    choose_removals-Lawful [] r c records e h = (e, h)
    choose_removals-Lawful (m ∷ ms) r c records e h =
        by_answer (consider api o req group_id self desired m r c)
          (consider-Lawful m r c records e h) (λ s d. choose_removals-Lawful ms s d records)
      where
        by_answer :
            (a : Result SyncError Removals × Client W)
            → Lawful records a
            → ((s : Removals) (d : Client W)
                → d.store.records ≡ records
                → All (IsRemovable records) s.removals
                → Lawful records (choose_removals api o req group_id self desired ms s d))
            → Lawful records (continue a.0 (choose_removals api o req group_id self desired ms) a.1)
        by_answer (ok s, d) p rest = rest s d p.0 p.1
        by_answer (err x, d) p rest = tt

    -- Whoever is found for removal is not wanted in the group, is neither the client itself nor an
    -- owner, with a level below 50, has no custom role, and its name in lower case is no protected
    -- name in lower case; and the policy is authoritative, or it covers managed memberships and this
    -- one is on record. The records are those from before the loop.
    pub choose_removals-IsRemovable :
        (ms : List Member) (c : Client W)
        → Lawful c.store.records (
            choose_removals api o req group_id self desired ms
              (record { removals = []; skipped = 0; pending = false })
              c)
    choose_removals-IsRemovable ms c = choose_removals-Lawful ms _ c c.store.records refl tt
