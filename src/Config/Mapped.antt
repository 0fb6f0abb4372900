-- ===== src/Config/Mapped.antt =====
-- The validation maps a declared source to the target that the reconciler maps it to.
use group_bridge.Base.{
  ℕ, ◌≡◌, refl, sym, ◌∙◌, ap, subst, true, false, none, some, List, [], ◌∷◌, ◌++◌, ◌==◌, Bool-cases,
  inl, inr, if◌then◌else◌, if_cases, if_true, if_false, number_eq, Str, str_eq, same, bytes,
  is_empty, has_prefix, All, arith,
}
use group_bridge.Base.Exec.{Result, ok, err}
use group_bridge.Reconcile.Paths.{
  trim_left, trim_right, trim, is_slash, onto, split, join, after_prefix, relative_group_path,
  replace_unsafe, slug, slugs, before, under, target_group_path,
}
use group_bridge.Reconcile.Rules.{Rule}
use group_bridge.Webhook.Signature.{trim_prefix}
use group_bridge.Config.Types.{ConfigError}
use group_bridge.Config.Checks.{
  also, slug_segments, source_prefix, declared_relative, below, declared_target_path,
}
use group_bridge.Config.Rules.{is_descendant}

-- Whether the prefix is there or not, the two ways to take it off agree.
after_prefix-trim_prefix :
    (t s : Str) → has_prefix s t ≡ true → after_prefix t s ≡ some (trim_prefix s t)
unfolding has_prefix after_prefix trim_prefix
after_prefix-trim_prefix [] [] h = refl
after_prefix-trim_prefix [] (a ∷ s) h = refl
after_prefix-trim_prefix (b ∷ t) [] h = ground (arith, h)
after_prefix-trim_prefix (b ∷ t) (a ∷ s) h = ground (arith, h, after_prefix-trim_prefix t s)

has_prefix-longer : (s : Str) → has_prefix s (s ++ (47 ∷ [])) ≡ false
unfolding has_prefix
has_prefix-longer [] = refl
has_prefix-longer (c ∷ s) = ground (arith, has_prefix-longer s)

abbrev Filled : Str → Type 0
Filled s = is_empty s ≡ false

abbrev rest_of : List Str → List Str
rest_of [] = []
rest_of (w ∷ ws) = ws

rest_of-onto : (c : ℕ) (ws : List Str) → rest_of (onto c ws) ≡ rest_of ws
rest_of-onto c [] = refl
rest_of-onto c (w ∷ ws) = refl

rest_of-Filled : (ws : List Str) → All Filled ws → All Filled (rest_of ws)
rest_of-Filled [] f = tt
rest_of-Filled (w ∷ ws) f = f.1

split-Filled : (s : Str) → All Filled (split s) → Filled s
unfolding split
split-Filled [] f = f.0
split-Filled (c ∷ s) f = refl

-- A string does not end in a slash if no segment after its first is empty.
trim_right-same : (s : Str) → All Filled (rest_of (split s)) → trim_right is_slash s ≡ s
unfolding split trim_right
trim_right-same [] h = refl
trim_right-same (c ∷ s) h =
    if_cases (λ segs. All Filled (rest_of segs) → trim_right is_slash (c ∷ s) ≡ c ∷ s) (is_slash c)
      ([] ∷ split s) (onto c (split s))
      (λ y f.
        let e = trim_right-same s (rest_of-Filled (split s) f) in
        ground (arith, e, split-Filled s f))
      (λ n f.
        let e = trim_right-same s (subst (All Filled) (rest_of-onto c (split s)) f) in
        ground (arith, n, e))
      h

trim_left-same : (s : Str) → All Filled (split s) → trim_left is_slash s ≡ s
unfolding split trim_left
trim_left-same [] h = refl
trim_left-same (c ∷ s) h =
    if_cases (λ segs. All Filled segs → trim_left is_slash (c ∷ s) ≡ c ∷ s) (is_slash c)
      ([] ∷ split s) (onto c (split s)) (λ y f. ground (arith, f.0)) (λ n f. ground (arith, n)) h

trim-same : (s : Str) → All Filled (split s) → trim is_slash s ≡ s
trim-same s f =
    ap (trim_right is_slash) (trim_left-same s f) ∙ trim_right-same s (rest_of-Filled (split s) f)

module _ (to_lower : Str → Str) (lower_nothing : to_lower [] ≡ []) where
  slug-nothing : slug to_lower [] ≡ []
  unfolding slug trim_left trim_right replace_unsafe
  slug-nothing = rw lower_nothing refl

  slug-Filled : (s : Str) → Filled (slug to_lower s) → Filled s
  slug-Filled [] f = ground (arith, f, slug-nothing)
  slug-Filled (c ∷ s) f = refl

  also-ok :
      (w : Str) (r : Result ConfigError (List Str)) (mapped : List Str)
      → also to_lower w r ≡ ok mapped
      → (later : List Str) × (r ≡ ok later) × (mapped ≡ w ∷ later)
  also-ok w (ok later) mapped h = (later, refl, ground (arith, h))
  also-ok w (err e) mapped h = absurd (ground (arith, h))

  -- What is mapped segment by segment has no empty segment, and the reconciler maps it so too.
  slug_segments-slugs :
      (segs mapped : List Str)
      → slug_segments to_lower segs ≡ ok mapped
      → All Filled segs × (slugs to_lower segs ≡ ok mapped)
  unfolding slug_segments slugs
  slug_segments-slugs [] mapped h = (tt, ground (arith, h))
  slug_segments-slugs (s ∷ segs) mapped h =
      if_cases
        (λ (r : Result ConfigError (List Str)).
          r ≡ ok mapped → All Filled (s ∷ segs) × (slugs to_lower (s ∷ segs) ≡ ok mapped))
        (is_empty (slug to_lower s)) _ _ (λ y e. absurd (ground (arith, e)))
        (λ n e.
          let q = also-ok (slug to_lower s) (slug_segments to_lower segs) mapped e in
          let later = slug_segments-slugs segs q.0 q.1 in
          (
            (slug-Filled s n, later.0),
            if_false (is_empty (slug to_lower s)) _ _ n
                ∙ (ap (before to_lower (slug to_lower s)) later.1 ∙ ap (λ ws. ok ws) (sym q.2)),
          ))
        h

  -- The parent and the segments make the same path.
  below-under :
      (parent target : Str) (r : Result ConfigError (List Str))
      → below to_lower parent r ≡ ok target
      → (mapped : List Str) × (r ≡ ok mapped) × (under to_lower parent (ok mapped) ≡ ok target)
  unfolding join
  below-under parent target (ok mapped) h = (mapped, refl, ground (arith, h))
  below-under parent target (err e) h = absurd (ground (arith, h))

  declared-placed :
      (rule : Rule) (path target : Str)
      → declared_target_path to_lower (bytes "gitlab") rule path ≡ ok target
      → target_group_path to_lower rule.target_parent (declared_relative to_lower rule path)
        ≡ ok target
  unfolding declared_target_path target_group_path bytes str_eq same number_eq
  declared-placed rule path target h =
      let relative = declared_relative to_lower rule path in
      let q = below-under rule.target_parent target (slug_segments to_lower (split relative)) h in
      let r = slug_segments-slugs (split relative) q.0 q.1 in
      ap (λ s. under to_lower rule.target_parent (slugs to_lower (split s)))
        (trim-same relative r.0)
      ∙ (ap (under to_lower rule.target_parent) r.1 ∙ q.2)

  root_prefix : (t : Str) → trim_prefix (47 ∷ t) (bytes "/") ≡ t
  unfolding trim_prefix has_prefix bytes number_eq
  root_prefix t = refl

  -- The relative path of a source, with the prefix in its canonical form.
  abbrev Agrees : Str → Str → Type 0
  Agrees path p =
      (if p == 47 ∷ []
        then (if 47 ∷ trim is_slash path == 47 ∷ []
            then none
            else some (trim is_slash (47 ∷ trim is_slash path)))
        else if 47 ∷ trim is_slash path == p
        then none
        else after_prefix (p ++ (47 ∷ [])) (47 ∷ trim is_slash path))
      ≡ some
          (if p == 47 ∷ [] then trim_prefix path (bytes "/") else trim_prefix path (p ++ (47 ∷ [])))

  -- Where the rule's prefix is the root.
  at_root :
      (path p : Str)
      → path ≡ 47 ∷ trim is_slash path
      → (p == 47 ∷ []) ≡ true
      → (path == 47 ∷ []) ≡ false
      → Agrees path p
  at_root path p e y n =
      if_true (p == 47 ∷ []) _ _ y
      ∙ (if_false (47 ∷ trim is_slash path == 47 ∷ []) _ _ (subst (λ s. (s == 47 ∷ []) ≡ false) e n)
          ∙ ap (λ s. some s)
              (ap (trim is_slash) (sym e)
                ∙ (sym (root_prefix (trim is_slash path))
                    ∙ (ap (λ s. trim_prefix s (bytes "/")) (sym e)
                        ∙ sym (if_true (p == 47 ∷ []) _ _ y)))))

  -- Where it is not.
  at_prefix :
      (path p : Str)
      → path ≡ 47 ∷ trim is_slash path
      → (p == 47 ∷ []) ≡ false
      → has_prefix path (p ++ (47 ∷ [])) ≡ true
      → Agrees path p
  at_prefix path p e n y =
      if_false (p == 47 ∷ []) _ _ n
      ∙ (if_false (47 ∷ trim is_slash path == p) _ _ differs
          ∙ (ap (after_prefix (p ++ (47 ∷ []))) (sym e)
              ∙ (after_prefix-trim_prefix (p ++ (47 ∷ [])) path y
                  ∙ ap (λ s. some s) (sym (if_false (p == 47 ∷ []) _ _ n)))))
    where
      differs : (47 ∷ trim is_slash path == p) ≡ false
      differs = let l = has_prefix-longer p in ground (arith, e, y, l)

  -- The relative path is the reconciler's.
  declared_relative-there :
      (rule : Rule) (path : Str)
      → is_descendant to_lower rule path ≡ true
      → relative_group_path path rule.source_group_prefix
        ≡ some (declared_relative to_lower rule path)
  unfolding relative_group_path
  declared_relative-there rule path h = elim (Bool-cases (source_prefix to_lower rule == 47 ∷ [])) [
    | inl y ↦
        at_root path (source_prefix to_lower rule) (ground (arith, h)) y (ground (arith, h, y))
    | inr n ↦
        at_prefix path (source_prefix to_lower rule) (ground (arith, h)) n (ground (arith, h, n))
  ]

  -- A source that the validation finds below its rule's prefix and maps to a target has a relative
  -- path, and the reconciler maps that path to the same target.
  pub declared_target_path-target_group_path :
      (rule : Rule) (path target : Str)
      → is_descendant to_lower rule path ≡ true
      → declared_target_path to_lower (bytes "gitlab") rule path ≡ ok target
      → (relative : Str) × (relative_group_path path rule.source_group_prefix ≡ some relative)
        × (target_group_path to_lower rule.target_parent relative ≡ ok target)
  declared_target_path-target_group_path rule path target h e = (
    declared_relative to_lower rule path,
    declared_relative-there rule path h,
    declared-placed rule path target e,
  )
