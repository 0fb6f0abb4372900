-- ===== src/Reconcile/Established.antt =====
-- A source keeps its established target under a rule that is not for Vault.
use group_bridge.Base.{
  ◌≡◌, ◌⊎◌, inl, inr, refl, ◌∙◌, Bool, true, false, ◌&&◌, ◌||◌, List, [], ◌∷◌, ◌==◌, if◌then◌else◌,
  arith, All, Str, str_eq,
}
use group_bridge.State.Ledger.{GroupMapping}
use group_bridge.Reconcile.Rules.{Rule, is_vault, is_at_provider}
use group_bridge.Reconcile.Plan.{Plan, retarget, retarget_all}

-- The mapping is the rule's own for the source, at the rule's provider.
abbrev pub is_for : Rule → Str → GroupMapping → Bool
is_for rule source_key m =
    m.rule == rule.name && is_at_provider rule m && m.source_group_id == source_key

abbrev pub any_for : Rule → Str → List GroupMapping → Bool
any_for rule source_key [] = false
any_for rule source_key (m ∷ ms) = is_for rule source_key m || any_for rule source_key ms

abbrev pub AgreesOn : Rule → Str → Str → GroupMapping → Type 0
AgreesOn rule source_key target m = is_for rule source_key m ≡ true → m.target_group_path ≡ target

retarget-target :
    (complete : Bool) (rule : Rule) (source_key : Str) (m : GroupMapping) (t : Str) (p : Plan)
    → is_vault rule ≡ false
    → (retarget complete rule source_key m (t, p)).0
      ≡ (if is_for rule source_key m then m.target_group_path else t)
retarget-target complete rule source_key m t p v = ground arith

stays :
    (complete : Bool) (rule : Rule) (source_key target : Str) (ms : List GroupMapping) (p : Plan)
    → is_vault rule ≡ false
    → All (AgreesOn rule source_key target) ms
    → (t : Str) → (t ≡ target) ⊎ (any_for rule source_key ms ≡ true)
    → (retarget_all complete rule source_key ms (t, p)).0 ≡ target
unfolding retarget_all
stays complete rule source_key target [] p v h t (inl e) = e
stays complete rule source_key target [] p v h t (inr e) = absurd (ground arith)
stays complete rule source_key target (m ∷ ms) p v h t a =
    let next : Str × Plan = retarget complete rule source_key m (t, p) in
    stays complete rule source_key target ms next.1 v h.1 next.0
      (by_test (is_for rule source_key m) h.0 (retarget-target complete rule source_key m t p v) a)
  where
    by_test :
        {u : Str} (b : Bool)
        → (b ≡ true → m.target_group_path ≡ target)
        → u ≡ (if b then m.target_group_path else t)
        → (t ≡ target) ⊎ ((b || any_for rule source_key ms) ≡ true)
        → (u ≡ target) ⊎ (any_for rule source_key ms ≡ true)
    by_test true g e a = inl (e ∙ g refl)
    by_test false g e (inl r) = inl (e ∙ r)
    by_test false g e (inr r) = inr r

-- For a rule that is not for Vault and a source that has a mapping of the rule at its provider, and
-- whose mappings of this kind agree on the target, a group keeps that target, also where its path
-- maps to another one now.
pub retarget_all-established :
    (complete : Bool) (rule : Rule) (source_key target now : Str) (ms : List GroupMapping)
    (p : Plan)
    → is_vault rule ≡ false
    → any_for rule source_key ms ≡ true
    → All (AgreesOn rule source_key target) ms
    → (retarget_all complete rule source_key ms (now, p)).0 ≡ target
retarget_all-established complete rule source_key target now ms p v a h =
    stays complete rule source_key target ms p v h now (inr a)
