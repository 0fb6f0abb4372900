-- ===== src/Reconcile/Confined.antt =====
-- The paths of targets are made of safe characters, whatever a source calls its groups.
use group_bridge.Base.{
  ℕ, suc, ◌≡◌, ◌≢◌, refl, ap, Bool, true, false, ◌&&◌, ◌||◌, Option, none, some, List, [], ◌∷◌,
  ◌++◌, ◌==◌, if◌then◌else◌, if_cases, arith, number_eq, Str, str_eq, is_empty, length,
  append_assoc, ◌↔◌, All,
}
use group_bridge.Base.Exec.{Result, ok, err}
use group_bridge.Reconcile.Paths.{
  PathError, trim_left, trim_right, trim, is_slash, split, join, after_prefix, relative_group_path,
  is_joiner, is_safe, replace_unsafe, slug, before, slugs, under, target_group_path, segments,
}

-- [a-z0-9_-]
abbrev pub Safe : ℕ → Type 0
Safe c = is_safe c ≡ true

-- [a-z0-9_/-]
abbrev pub SafeOrSlash : ℕ → Type 0
SafeOrSlash c = (is_safe c || is_slash c) ≡ true

abbrev pub IsSlug : Str → Type 0
IsSlug w = (w ≢ []) × All Safe w

trim_left-Safe : (p : ℕ → Bool) (s : Str) → All Safe s → All Safe (trim_left p s)
unfolding trim_left
trim_left-Safe p [] h = tt
trim_left-Safe p (c ∷ s) h =
    if_cases (All Safe) (p c) _ (c ∷ s) (λ _. trim_left-Safe p s h.1) (λ _. h)

trim_right-Safe : (p : ℕ → Bool) (s : Str) → All Safe s → All Safe (trim_right p s)
unfolding trim_right
trim_right-Safe p [] h = tt
trim_right-Safe p (c ∷ s) h =
    if_cases (All Safe) (is_empty (trim_right p s) && p c) [] _ (λ _. tt)
      (λ _. (h.0, trim_right-Safe p s h.1))

replace_unsafe-Safe : (in_run : Bool) (s : Str) → All Safe (replace_unsafe in_run s)
unfolding replace_unsafe
replace_unsafe-Safe in_run [] = tt
replace_unsafe-Safe in_run (c ∷ s) =
    if_cases (All Safe) (is_safe c) _ _ (λ h. (h, replace_unsafe-Safe false s))
      λ _.
        if_cases (All Safe) in_run _ _ (λ _. replace_unsafe-Safe true s)
          (λ _. (ground arith, replace_unsafe-Safe true s))

slug-Safe : (to_lower : Str → Str) (s : Str) → All Safe (slug to_lower s)
unfolding slug
slug-Safe to_lower s =
    trim_right-Safe is_joiner _
      (trim_left-Safe is_joiner _ (replace_unsafe-Safe false (to_lower s)))

-- What a list of segments becomes: a slug for each.
abbrev pub Slugged : List Str → Result PathError (List Str) → Type 0
Slugged segments (err e) = Unit
Slugged segments (ok ws) = All IsSlug ws × (length ws ≡ length segments)

slugs-Slugged :
    (to_lower : Str → Str) (segments : List Str) → Slugged segments (slugs to_lower segments)
unfolding slugs
slugs-Slugged to_lower [] = (tt, refl)
slugs-Slugged to_lower (s ∷ rest) =
    if_cases (Slugged (s ∷ rest)) (is_empty (slug to_lower s)) _ _ (λ _. tt)
      λ e. added (slugs to_lower rest) (slugs-Slugged to_lower rest) (not_empty (slug to_lower s) e)
  where
    not_empty : (w : Str) → is_empty w ≡ false → w ≢ []
    not_empty [] e = absurd (ground arith)
    not_empty (c ∷ w) e = ground arith

    added :
        (r : Result PathError (List Str))
        → Slugged rest r
        → slug to_lower s ≢ []
        → Slugged (s ∷ rest) (before to_lower (slug to_lower s) r)
    added (err e) h n = tt
    added (ok ws) h n = (((n, slug-Safe to_lower s), h.0), ap suc h.1)

-- A target path, where there is one, is the parent's and below it a slug for each segment of the
-- source's: no name of a group can climb out of the parent or add a segment.
pub target_group_path-slugs :
    (to_lower : Str → Str) (parent relative path : Str)
    → target_group_path to_lower parent relative ≡ ok path
    → (ws : List Str) × All IsSlug ws
      × (length ws ≡ length (split (trim is_slash relative)))
      × (path ≡ trim is_slash (join (trim is_slash parent ∷ join ws ∷ [])))
unfolding target_group_path
target_group_path-slugs to_lower parent relative path e =
    by_slugs (slugs to_lower (split (trim is_slash relative)))
      (slugs-Slugged to_lower (split (trim is_slash relative))) e
  where
    by_slugs :
        (r : Result PathError (List Str))
        → Slugged (split (trim is_slash relative)) r
        → under to_lower parent r ≡ ok path
        → (ws : List Str) × All IsSlug ws
          × (length ws ≡ length (split (trim is_slash relative)))
          × (path ≡ trim is_slash (join (trim is_slash parent ∷ join ws ∷ [])))
    by_slugs (err x) h e = absurd (ground arith)
    by_slugs (ok ws) h e = (ws, h.0, h.1, ground arith)

after_prefix-whole : (p s r : Str) → after_prefix p s ≡ some r → s ≡ p ++ r
unfolding after_prefix
after_prefix-whole [] s r e = ground arith
after_prefix-whole (b ∷ p) [] r e = absurd (ground arith)
after_prefix-whole (b ∷ p) (a ∷ s) r e = ground (arith, after_prefix-whole p s r)

after_prefix-own : (p r : Str) → after_prefix p (p ++ r) ≡ some r
unfolding after_prefix
after_prefix-own [] r = refl
after_prefix-own (b ∷ p) r = ground (arith, after_prefix-own p r)

longer : (p : Str) (c : ℕ) (r : Str) → p ++ (c ∷ r) ≢ p
longer [] c r e = ground arith
longer (b ∷ p) c r e = longer p c r (ground arith)

-- A group has a relative path below a prefix that is not the root exactly if its own path is the
-- prefix, a slash and that path, slashes at the ends left out.
pub relative_group_path_iff :
    (group_path prefix relative : Str)
    → trim is_slash prefix ≢ []
    → (relative_group_path group_path prefix ≡ some relative)
      ↔ (trim is_slash group_path ≡ trim is_slash prefix ++ (47 ∷ relative))
unfolding relative_group_path
relative_group_path_iff group_path prefix relative n = (
  there (trim is_slash group_path) (trim is_slash prefix) n,
  back (trim is_slash group_path) (trim is_slash prefix) n,
)
  where
    below : Str → Str → Option Str
    below g p =
        if 47 ∷ p == 47 ∷ []
        then (if 47 ∷ g == 47 ∷ [] then none else some (trim is_slash (47 ∷ g)))
        else if 47 ∷ g == 47 ∷ p
        then none
        else after_prefix ((47 ∷ p) ++ (47 ∷ [])) (47 ∷ g)

    there : (g p : Str) → p ≢ [] → below g p ≡ some relative → g ≡ p ++ (47 ∷ relative)
    there g p n e = ground (
      arith,
      after_prefix-whole ((47 ∷ p) ++ (47 ∷ [])) (47 ∷ g) relative,
      append_assoc p (47 ∷ []) relative,
    )

    back : (g p : Str) → p ≢ [] → g ≡ p ++ (47 ∷ relative) → below g p ≡ some relative
    back g p n e = ground (
      arith,
      after_prefix-own ((47 ∷ p) ++ (47 ∷ [])) relative,
      append_assoc p (47 ∷ []) relative,
      longer p 47 relative,
    )
