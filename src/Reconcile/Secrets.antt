-- ===== src/Reconcile/Secrets.antt =====
-- The paths of secrets in Vault are short and made of safe characters.
use group_bridge.Base.{
  ◌≤◌, ◌≡◌, ◌≢◌, subst, true, false, not, ◌&&◌, ◌||◌, List, [], ◌∷◌, ◌==◌, if_cases, arith,
  number_eq, Str, str_eq, bytes, is_empty, ltb, length, All, All-append,
}
use group_bridge.Base.Exec.{Result, ok, err}
use group_bridge.Reconcile.Paths.{
  PathError, bad_length, bad_segment, trim, is_slash, split, join, ascii_lower, all_word,
  is_segment, prepend, segments, part_segments, joined, fitting, vault_secret_path,
}
use group_bridge.Reconcile.Confined.{Safe, SafeOrSlash}

ascii_lower-Safe : (s : Str) → all_word s ≡ true → All Safe (ascii_lower s)
unfolding ascii_lower all_word
ascii_lower-Safe [] h = tt
ascii_lower-Safe (c ∷ s) h = (ground (arith, h), ascii_lower-Safe s (ground (arith, h)))

-- The segments, if there are any, are of safe characters.
abbrev Segmented : Result PathError (List Str) → Type 0
Segmented (err e) = Unit
Segmented (ok ws) = All (All Safe) ws

segments-Segmented : (ss : List Str) → Segmented (segments ss)
unfolding segments
segments-Segmented [] = tt
segments-Segmented (s ∷ rest) =
    if_cases Segmented (is_segment s && not (s == bytes ".") && not (s == bytes "..")) _
      (err bad_segment)
      (λ h.
        added (segments rest) (segments-Segmented rest) (ascii_lower-Safe s (ground (arith, h))))
      (λ _. tt)
  where
    added :
        (r : Result PathError (List Str))
        → Segmented r
        → All Safe (ascii_lower s)
        → Segmented (prepend (ascii_lower s) r)
    added (err e) h n = tt
    added (ok ws) h n = (n, h)

part_segments-Segmented : (raw : Str) → Segmented (part_segments raw)
part_segments-Segmented raw =
    if_cases Segmented (is_empty raw) (ok []) _ (λ _. tt) (λ _. segments-Segmented (split raw))

joined-Segmented :
    (a b : Result PathError (List Str)) → Segmented a → Segmented b → Segmented (joined a b)
joined-Segmented (ok ws) (ok vs) h k = All-append (All Safe) ws vs h k
joined-Segmented (ok ws) (err e) h k = tt
joined-Segmented (err e) b h k = tt

All-Safe : (s : Str) → All Safe s → All SafeOrSlash s
All-Safe [] h = tt
All-Safe (c ∷ s) h = (ground (arith, h.0), All-Safe s h.1)

join-Safe : (ws : List Str) → All (All Safe) ws → All SafeOrSlash (join ws)
unfolding join
join-Safe [] h = tt
join-Safe (w ∷ []) h = All-Safe w h.0
join-Safe (w ∷ v ∷ ws) h =
    All-append SafeOrSlash w (47 ∷ join (v ∷ ws)) (All-Safe w h.0)
      (ground arith, join-Safe (v ∷ ws) h.1)

-- What a path is made of, and how long it is.
abbrev Fitting : Result PathError Str → Type 0
Fitting (err e) = Unit
Fitting (ok path) = (path ≢ []) × (length path ≤ 240) × All SafeOrSlash path

fitting-Fitting : (r : Result PathError (List Str)) → Segmented r → Fitting (fitting r)
fitting-Fitting (err e) h = tt
fitting-Fitting (ok parts) h =
    if_cases Fitting (is_empty (join parts) || ltb 240 (length (join parts))) (err bad_length)
      (ok (join parts)) (λ _. tt) (λ b. bounded (join parts) b (join-Safe parts h))
  where
    bounded :
        (path : Str)
        → (is_empty path || ltb 240 (length path)) ≡ false
        → All SafeOrSlash path
        → (path ≢ []) × (length path ≤ 240) × All SafeOrSlash path
    bounded [] b s = absurd (ground arith)
    bounded (c ∷ path) b s = (ground arith, ground (arith, b), s)

-- The path of a secret, where there is one, has from 1 to 240 characters, and they are small letters,
-- digits, hyphens, underscores and slashes only.
pub vault_secret_path-SafeOrSlash :
    (parent relative path : Str)
    → vault_secret_path parent relative ≡ ok path
    → (path ≢ []) × (length path ≤ 240) × All SafeOrSlash path
unfolding vault_secret_path
vault_secret_path-SafeOrSlash parent relative path e = subst Fitting e (
    fitting-Fitting _ (
      joined-Segmented (part_segments (trim is_slash parent))
        (part_segments (trim is_slash relative)) (part_segments-Segmented (trim is_slash parent))
        (part_segments-Segmented (trim is_slash relative))))
