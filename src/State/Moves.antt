-- ===== src/State/Moves.antt =====
-- Moving a mapping to its canonical key, and the keys themselves.
use group_bridge.Base.{
  ◌≡◌, ◌≢◌, ◌⊎◌, inl, inr, refl, ℕ, Str, str_eq, Bool, true, false, Option, none, some, [], ◌∷◌,
  ◌++◌, arith, if◌then◌else◌, All,
}
use group_bridge.Base.Map.{lookup, insert, erase, lookup-insert, lookup-erase}
use group_bridge.Base.Exec.{ok, err}
use group_bridge.State.Ledger.{
  GroupMapping, Store, Faults, key, group_key, save_locked, different_target,
}
use group_bridge.State.Saving.{
  Outcome, committed, refused, unsynced, saved, outcome, written, save_locked_lem,
}
use group_bridge.State.Operations.{
  or_undo, same_target, join_mappings, rekey_mapping, move_found, move_group, group,
}

-- No NUL byte stands in the text.
abbrev pub IsPlain : Str → Type 0
IsPlain = All (λ (c : ℕ). c ≢ 0)

-- A text before the first NUL is determined by the whole.
split_unique :
    (a b s t : Str) → IsPlain a → IsPlain b → a ++ (0 ∷ s) ≡ b ++ (0 ∷ t) → (a ≡ b) × (s ≡ t)
split_unique [] [] s t ha hb e = ground arith
split_unique [] (y ∷ b) s t ha hb e = ground arith
split_unique (x ∷ a) [] s t ha hb e = ground arith
split_unique (x ∷ a) (y ∷ b) s t ha hb e = ground (arith, split_unique a b s t)

-- Two memberships with one key are one: composite keys do not collide, as long as the first two
-- parts hold no NUL byte.
pub key_injective :
    (p p' g g' u u' : Str)
    → IsPlain p
    → IsPlain p'
    → IsPlain g
    → IsPlain g'
    → key p g u ≡ key p' g' u'
    → (p ≡ p') × (g ≡ g') × (u ≡ u')
unfolding key
key_injective p p' g g' u u' hp hp' hg hg' e =
    let first = split_unique p p' (g ++ (0 ∷ u)) (g' ++ (0 ∷ u')) hp hp' e in
    let second = split_unique g g' u u' hg hg' first.1 in (first.0, second.0, second.1)

-- The store `t` after a move in `s` of the mapping `m` from the old key to the new one: the old key
-- is free. Where the new key was free, it holds `m` with the new source id `j`, native id and path;
-- where it held a mapping of the same target, it holds that one with the new native id and path.
-- Every other key is as it was.
pub record IsMoved (old new : Str) (m : GroupMapping) (j n q : Str) (s t : Store) : Type 0 where
  pub freed : lookup old t.groups ≡ none
  pub found :
      ((lookup new s.groups ≡ none)
        × (lookup new t.groups
            ≡ some (record m { source_group_id = j; source_native_id = n; source_group_path = q })))
      ⊎ ((c : GroupMapping) × (lookup new s.groups ≡ some c)
          × (c.target_group_id ≡ m.target_group_id)
          × (c.target_group_path ≡ m.target_group_path)
          × (lookup new t.groups ≡ some (record c { source_native_id = n; source_group_path = q })))
  pub others : (k : Str) → k ≢ old → k ≢ new → lookup k t.groups ≡ lookup k s.groups
  pub records : t.records ≡ s.records
  pub absences : t.absences ≡ s.absences

-- A save that succeeds has written, and nothing is undone.
or_undo-ok :
    (f : Faults) (s : Store) (undo : Store → Store)
    → (or_undo (save_locked f s) undo).0 ≡ ok tt
    → (or_undo (save_locked f s) undo).1 ≡ written s
or_undo-ok f s undo = rw save_locked_lem (by_outcome (outcome f))
  where
    by_outcome :
        (o : Outcome)
        → (or_undo (saved o s) undo).0 ≡ ok tt
        → (or_undo (saved o s) undo).1 ≡ written s
    by_outcome committed h = refl
    by_outcome (refused step) h = cc
    by_outcome (unsynced step) h = cc

same_target-eq :
    (c m : GroupMapping)
    → same_target c m ≡ true
    → (c.target_group_id ≡ m.target_group_id) × (c.target_group_path ≡ m.target_group_path)
unfolding same_target
same_target-eq c m h = ground arith

module _ (f : Faults) (old new j n q : Str) (s : Store) (m : GroupMapping) (d : old ≢ new) where
  join_mappings-ok :
      (c : GroupMapping)
      → lookup new s.groups ≡ some c
      → (c.target_group_id ≡ m.target_group_id) × (c.target_group_path ≡ m.target_group_path)
      → (join_mappings f old new m c n q s).0 ≡ ok tt
      → IsMoved old new m j n q s (join_mappings f old new m c n q s).1
  unfolding join_mappings
  join_mappings-ok c there e h =
      let moved : GroupMapping = record c { source_native_id = n; source_group_path = q } in
      let erased = λ (k : Str). lookup-erase k old (insert new moved s.groups) in
      let inserted = λ (k : Str). lookup-insert k new moved s.groups in
      rw (or_undo-ok f _ _ h) (record {
        freed = ground (arith, erased old);
        found = inr (c, there, e.0, e.1, ground (arith, erased new, inserted new));
        others = λ k a b. ground (arith, erased k, inserted k);
        records = refl;
        absences = refl;
      })

  rekey_mapping-ok :
      lookup new s.groups ≡ none
      → (rekey_mapping f old new m j n q s).0 ≡ ok tt
      → IsMoved old new m j n q s (rekey_mapping f old new m j n q s).1
  unfolding rekey_mapping
  rekey_mapping-ok free h =
      let moved : GroupMapping = record m {
        source_group_id = j;
        source_native_id = n;
        source_group_path = q;
      } in
      let inserted = λ (k : Str). lookup-insert k new moved (erase old s.groups) in
      let erased = λ (k : Str). lookup-erase k old s.groups in
      rw (or_undo-ok f _ _ h) (record {
        freed = ground (arith, inserted old, erased old);
        found = inl (free, ground (arith, inserted new));
        others = λ k a b. ground (arith, erased k, inserted k);
        records = refl;
        absences = refl;
      })

  move_found-ok :
      (c : Option GroupMapping)
      → lookup new s.groups ≡ c
      → (move_found f old new (some m) c j n q s).0 ≡ ok tt
      → IsMoved old new m j n q s (move_found f old new (some m) c j n q s).1
  unfolding move_found
  move_found-ok none e h = rekey_mapping-ok e h
  move_found-ok (some c) x h = by_target (same_target c m) (same_target-eq c m) h
    where
      by_target :
          (b : Bool)
          → (b ≡ true
              → (c.target_group_id ≡ m.target_group_id)
                × (c.target_group_path ≡ m.target_group_path))
          → (if b then join_mappings f old new m c n q s else (err different_target, s)).0 ≡ ok tt
          → IsMoved old new m j n q s
              (if b then join_mappings f old new m c n q s else (err different_target, s)).1
      by_target true e h = join_mappings-ok c x (e refl) h
      by_target false e h = cc

-- A move of a mapping on record that succeeds, between two different keys, takes it to the new
-- one: with a new source id, native id and path, and otherwise unchanged, where the new key was free;
-- where it held a mapping of the same target, that one stays, with a new native id and path. No
-- other entry changes.
pub move_group-ok :
    (f : Faults) (p r i j n q : Str) (s : Store) (m : GroupMapping)
    → group_key p r i ≢ group_key p r j
    → lookup (group_key p r i) s.groups ≡ some m
    → (move_group f p r i j n q s).0 ≡ ok tt
    → IsMoved (group_key p r i) (group_key p r j) m j n q s (move_group f p r i j n q s).1
unfolding move_group
move_group-ok f p r i j n q s m d x = rw x (move_found-ok f _ _ j n q s m d _ refl)

-- Between equal keys, which its one caller never asks for, a move that succeeds loses the mapping.
pub move_group_self :
    (f : Faults) (p r i n q : Str) (s : Store) (m : GroupMapping)
    → lookup (group_key p r i) s.groups ≡ some m
    → outcome f ≡ committed
    → ((move_group f p r i i n q s).0 ≡ ok tt) × (group p r i (move_group f p r i i n q s).1 ≡ none)
unfolding move_group move_found join_mappings same_target group
move_group_self f p r i n q s m x o =
    let k = group_key p r i in
    let moved : GroupMapping = record m { source_native_id = n; source_group_path = q } in
    let erased = lookup-erase k k (insert k moved s.groups) in
    rw (x, save_locked_lem, o) (ground (arith, erased))
