-- ===== src/State/Methods.antt =====
-- What each method of the store keeps, whichever step of its save fails.
use group_bridge.Base.{
  ◌≡◌, refl, Str, str_eq, number_eq, Bool, true, false, Option, none, some, if◌then◌else◌,
}
use group_bridge.Base.Map.{lookup, insert, erase}
use group_bridge.Base.Index.{IsKeyed, insert-IsKeyed, erase-IsKeyed, lookup-IsKeyed}
use group_bridge.Base.Exec.{ok, err}
use group_bridge.State.Ledger.{
  GroupMapping, Absence, Store, different_target, Faults, key, group_key, membership_key,
  mapping_key, absence_key,
}
use group_bridge.State.Operations.{
  observe, mark_managed, unmark, put_group, drop_group, delete_group, same_target, join_mappings,
  rekey_mapping, move_found, move_group, confirm_absent, drop_absence, reset_absent,
}
use group_bridge.State.Kept.{IsKept, IsKept-or_undo, IsKept-answer, IsKept-unchanged}
use group_bridge.State.Undo.{
  lookup-restore, lookup-put_back, lookup-undo_erase, lookup-undo_join, lookup-undo_rekey,
  put_back-IsKeyed, restore-IsKeyed,
}
use group_bridge.State.Requests.{
  Request, mark, remove, confirm, reset, delete, put, move, forget, perform, IsWellKeyed,
}

observe-key : (p g u : Str) (o : Option Absence) → key p g u ≡ absence_key (observe p g u o)
observe-key p g u none = refl
observe-key p g u (some a) = refl

module _ (f : Faults) (t : Store) (C : Type 0) where
  mark_managed-IsKept : (p g u : Str) → IsKept f t C (mark_managed f p g u t)
  unfolding mark_managed
  mark_managed-IsKept p g u = IsKept-or_undo f t C _ _ (record {
    same = λ file. record {
      records = λ j. lookup-restore j _ _ t.records;
      groups = λ j. refl;
      absences = λ j. refl;
    };
    file_kept = λ file. refl;
    file_before = refl;
    keyed = λ h. record {
      records = insert-IsKeyed membership_key _ _ t.records refl h.0.records;
      groups = h.0.groups;
      absences = h.0.absences;
    };
    undone_keyed = λ h file. record {
      records =
          restore-IsKeyed membership_key (key p g u) t.records _ h.0.records
            (insert-IsKeyed membership_key _ _ t.records refl h.0.records);
      groups = h.0.groups;
      absences = h.0.absences;
    };
  })

  unmark-IsKept : (p g u : Str) → IsKept f t C (unmark f p g u t)
  unfolding unmark
  unmark-IsKept p g u = IsKept-or_undo f t C _ _ (record {
    same = λ file. record {
      records = λ j. lookup-put_back j _ t.records;
      groups = λ j. refl;
      absences = λ j. refl;
    };
    file_kept = λ file. refl;
    file_before = refl;
    keyed = λ h. record {
      records = erase-IsKeyed membership_key _ t.records h.0.records;
      groups = h.0.groups;
      absences = h.0.absences;
    };
    undone_keyed = λ h file. record {
      records =
          put_back-IsKeyed membership_key (key p g u) t.records _ h.0.records
            (erase-IsKeyed membership_key _ t.records h.0.records);
      groups = h.0.groups;
      absences = h.0.absences;
    };
  })

  confirm_absent-IsKept : (p g u : Str) → IsKept f t C (forget (confirm_absent f p g u t))
  unfolding confirm_absent
  confirm_absent-IsKept p g u = IsKept-answer f t C _ _ (
      IsKept-or_undo f t C _ _ (record {
        same = λ file. record {
          records = λ j. refl;
          groups = λ j. refl;
          absences = λ j. lookup-restore j _ _ t.absences;
        };
        file_kept = λ file. refl;
        file_before = refl;
        keyed = λ h. record {
          records = h.0.records;
          groups = h.0.groups;
          absences = insert-IsKeyed absence_key _ _ t.absences (observe-key p g u _) h.0.absences;
        };
        undone_keyed = λ h file. record {
          records = h.0.records;
          groups = h.0.groups;
          absences =
              restore-IsKeyed absence_key (key p g u) t.absences _ h.0.absences
                (insert-IsKeyed absence_key _ _ t.absences (observe-key p g u _) h.0.absences);
        };
      }))

  put_group-IsKept : (m : GroupMapping) → IsKept f t C (put_group f m t)
  unfolding put_group
  put_group-IsKept m = IsKept-or_undo f t C _ _ (record {
    same = λ file. record {
      records = λ j. refl;
      groups = λ j. lookup-restore j _ _ t.groups;
      absences = λ j. refl;
    };
    file_kept = λ file. refl;
    file_before = refl;
    keyed = λ h. record {
      records = h.0.records;
      groups = insert-IsKeyed mapping_key _ m t.groups refl h.0.groups;
      absences = h.0.absences;
    };
    undone_keyed = λ h file. record {
      records = h.0.records;
      groups =
          restore-IsKeyed mapping_key (mapping_key m) t.groups _ h.0.groups
            (insert-IsKeyed mapping_key _ m t.groups refl h.0.groups);
      absences = h.0.absences;
    };
  })

  drop_group-IsKept :
      (k : Str) (o : Option GroupMapping)
      → lookup k t.groups ≡ o
      → IsKept f t C (drop_group f k o t)
  unfolding drop_group
  drop_group-IsKept k none q = IsKept-unchanged f t C (ok tt)
  drop_group-IsKept k (some m) q = IsKept-or_undo f t C _ _ (record {
    same = λ file. record {
      records = λ j. refl;
      groups = λ j. lookup-undo_erase j k m t.groups q;
      absences = λ j. refl;
    };
    file_kept = λ file. refl;
    file_before = refl;
    keyed = λ h. record {
      records = h.0.records;
      groups = erase-IsKeyed mapping_key k t.groups h.0.groups;
      absences = h.0.absences;
    };
    undone_keyed = λ h file. record {
      records = h.0.records;
      groups =
          insert-IsKeyed mapping_key k m _ (lookup-IsKeyed mapping_key k m t.groups h.0.groups q)
            (erase-IsKeyed mapping_key k t.groups h.0.groups);
      absences = h.0.absences;
    };
  })

  drop_absence-IsKept :
      (k : Str) (o : Option Absence) → lookup k t.absences ≡ o → IsKept f t C (drop_absence f k o t)
  unfolding drop_absence
  drop_absence-IsKept k none q = IsKept-unchanged f t C (ok tt)
  drop_absence-IsKept k (some a) q = IsKept-or_undo f t C _ _ (record {
    same = λ file. record {
      records = λ j. refl;
      groups = λ j. refl;
      absences = λ j. lookup-undo_erase j k a t.absences q;
    };
    file_kept = λ file. refl;
    file_before = refl;
    keyed = λ h. record {
      records = h.0.records;
      groups = h.0.groups;
      absences = erase-IsKeyed absence_key k t.absences h.0.absences;
    };
    undone_keyed = λ h file. record {
      records = h.0.records;
      groups = h.0.groups;
      absences =
          insert-IsKeyed absence_key k a _
            (lookup-IsKeyed absence_key k a t.absences h.0.absences q)
            (erase-IsKeyed absence_key k t.absences h.0.absences);
    };
  })

  join_mappings-IsKept :
      (old new : Str) (m c : GroupMapping) (n q : Str)
      → lookup old t.groups ≡ some m
      → lookup new t.groups ≡ some c
      → IsKept f t C (join_mappings f old new m c n q t)
  unfolding join_mappings
  join_mappings-IsKept old new m c n q x y = IsKept-or_undo f t C _ _ (record {
    same = λ file. record {
      records = λ j. refl;
      groups = λ j. lookup-undo_join j old new m c _ t.groups x y;
      absences = λ j. refl;
    };
    file_kept = λ file. refl;
    file_before = refl;
    keyed = λ h. record { records = h.0.records; groups = joined h; absences = h.0.absences };
    undone_keyed = λ h file. record {
      records = h.0.records;
      groups =
          insert-IsKeyed mapping_key new c _
            (lookup-IsKeyed mapping_key new c t.groups h.0.groups y)
            (insert-IsKeyed mapping_key old m _
              (lookup-IsKeyed mapping_key old m t.groups h.0.groups x) (joined h));
      absences = h.0.absences;
    };
  })
    where
      joined :
          IsWellKeyed t × C
          → IsKeyed mapping_key (
              erase old
                (insert new (record c { source_native_id = n; source_group_path = q }) t.groups))
      joined h = erase-IsKeyed mapping_key old _ (
          insert-IsKeyed mapping_key new _ t.groups
            (lookup-IsKeyed mapping_key new c t.groups h.0.groups y) h.0.groups)

  rekey_mapping-IsKept :
      (old new : Str) (m : GroupMapping) (id n q : Str)
      → lookup old t.groups ≡ some m
      → lookup new t.groups ≡ none
      → (C → new ≡ group_key m.provider m.rule id)
      → IsKept f t C (rekey_mapping f old new m id n q t)
  unfolding rekey_mapping
  rekey_mapping-IsKept old new m id n q x y named = IsKept-or_undo f t C _ _ (record {
    same = λ file. record {
      records = λ j. refl;
      groups = λ j. lookup-undo_rekey j old new m _ t.groups x y;
      absences = λ j. refl;
    };
    file_kept = λ file. refl;
    file_before = refl;
    keyed = λ h. record { records = h.0.records; groups = moved h; absences = h.0.absences };
    undone_keyed = λ h file. record {
      records = h.0.records;
      groups =
          insert-IsKeyed mapping_key old m _
            (lookup-IsKeyed mapping_key old m t.groups h.0.groups x)
            (erase-IsKeyed mapping_key new _ (moved h));
      absences = h.0.absences;
    };
  })
    where
      moved :
          IsWellKeyed t × C
          → IsKeyed mapping_key (
              insert new
                (record m { source_group_id = id; source_native_id = n; source_group_path = q })
                (erase old t.groups))
      moved h =
          insert-IsKeyed mapping_key new _ _ (named h.1)
            (erase-IsKeyed mapping_key old t.groups h.0.groups)

  move_found-IsKept :
      (old new : Str) (o c : Option GroupMapping) (id n q : Str)
      → lookup old t.groups ≡ o
      → lookup new t.groups ≡ c
      → ((m : GroupMapping)
          → lookup old t.groups ≡ some m
          → C
          → new ≡ group_key m.provider m.rule id)
      → IsKept f t C (move_found f old new o c id n q t)
  unfolding move_found
  move_found-IsKept old new none c id n q x y named = IsKept-unchanged f t C _
  move_found-IsKept old new (some m) none id n q x y named =
      rekey_mapping-IsKept old new m id n q x y (named m x)
  move_found-IsKept old new (some m) (some c) id n q x y named = by_target (same_target c m)
    where
      by_target :
          (b : Bool)
          → IsKept f t C
              (if b then join_mappings f old new m c n q t else (err different_target, t))
      by_target true = join_mappings-IsKept old new m c n q x y
      by_target false = IsKept-unchanged f t C _

-- A move names the mapping that it finds by that mapping's own provider and rule.
abbrev pub NamesOwn : Request → Store → Type 0
NamesOwn (move p r i j n q) s =
    (m : GroupMapping)
    → lookup (group_key p r i) s.groups ≡ some m
    → (m.provider ≡ p) × (m.rule ≡ r)
NamesOwn _ s = Unit

pub perform-IsKept :
    (f : Faults) (q : Request) (t : Store) → IsKept f t (NamesOwn q t) (perform f q t)
unfolding perform delete_group move_group reset_absent
perform-IsKept f (mark p g u) t = mark_managed-IsKept f t _ p g u
perform-IsKept f (remove p g u) t = unmark-IsKept f t _ p g u
perform-IsKept f (confirm p g u) t = confirm_absent-IsKept f t _ p g u
perform-IsKept f (reset p g u) t = drop_absence-IsKept f t _ _ _ refl
perform-IsKept f (delete p r i) t = drop_group-IsKept f t _ _ _ refl
perform-IsKept f (put m) t = put_group-IsKept f t _ m
perform-IsKept f (move p r i j n q) t =
    move_found-IsKept f t _ _ _ _ _ j n q refl refl λ m x named. rw ((named m x).0, (named m x).1)
