-- ===== src/Reconcile/Paths.antt =====
-- internal/reconcile/reconciler.go: the paths of groups and targets. The Unicode tables behind
-- strings.ToLower are a parameter, `to_lower`.
use group_bridge.Base.{
  ℕ, ◌+◌, Bool, true, false, not, ◌&&◌, ◌||◌, Option, none, some, List, [], ◌∷◌, ◌++◌, ◌==◌,
  if◌then◌else◌, number_eq, Str, str_eq, bytes, is_empty, leb, ltb, length,
}
use group_bridge.Base.Exec.{Result, ok, err}

pub data PathError : Type 0 where
  no_safe_characters bad_segment bad_length : PathError

-- strings.Trim, with the characters to trim given by a test.
unfoldable pub trim_left : (ℕ → Bool) → Str → Str
trim_left p [] = []
trim_left p (c ∷ s) = let rest = trim_left p s in if p c then rest else c ∷ s

unfoldable pub trim_right : (ℕ → Bool) → Str → Str
trim_right p [] = []
trim_right p (c ∷ s) = let rest = trim_right p s in if is_empty rest && p c then [] else c ∷ rest

abbrev pub trim : (ℕ → Bool) → Str → Str
trim p s = trim_right p (trim_left p s)

abbrev pub is_slash : ℕ → Bool
is_slash c = c == 47

abbrev pub onto : ℕ → List Str → List Str
onto c [] = (c ∷ []) ∷ []
onto c (w ∷ ws) = (c ∷ w) ∷ ws

-- strings.Split(s, "/")
unfoldable pub split : Str → List Str
split [] = [] ∷ []
split (c ∷ s) = let rest = split s in if is_slash c then [] ∷ rest else onto c rest

-- strings.Join(words, "/")
unfoldable pub join : List Str → Str
join [] = []
join (w ∷ []) = w
join (w ∷ v ∷ ws) = w ++ (47 ∷ join (v ∷ ws))

-- The suffix after a prefix, if the string has it.
unfoldable pub after_prefix : Str → Str → Option Str
after_prefix [] s = some s
after_prefix (b ∷ t) [] = none
after_prefix (b ∷ t) (a ∷ s) = let rest = after_prefix t s in if b == a then rest else none

unfoldable pub relative_group_path : Str → Str → Option Str
relative_group_path group_path prefix =
    let group_path = 47 ∷ trim is_slash group_path in
    let prefix = 47 ∷ trim is_slash prefix in
    if prefix == 47 ∷ []
    then (if group_path == 47 ∷ [] then none else some (trim is_slash group_path))
    else if group_path == prefix
    then none
    else after_prefix (prefix ++ (47 ∷ [])) group_path

abbrev pub is_lower : ℕ → Bool
is_lower c = leb 97 c && leb c 122

abbrev pub is_upper : ℕ → Bool
is_upper c = leb 65 c && leb c 90

abbrev pub is_digit : ℕ → Bool
is_digit c = leb 48 c && leb c 57

-- '-' or '_'
abbrev pub is_joiner : ℕ → Bool
is_joiner c = c == 45 || c == 95

-- [a-z0-9_-]
abbrev pub is_safe : ℕ → Bool
is_safe c = is_lower c || is_digit c || is_joiner c

-- unsafePathChars.ReplaceAllString(s, "-"): each run of other characters is one dash. `in_run` says
-- that the dash of the present run stands already.
unfoldable pub replace_unsafe : Bool → Str → Str
replace_unsafe in_run [] = []
replace_unsafe in_run (c ∷ s) =
    let next = replace_unsafe false s in
    let run = replace_unsafe true s in
    if is_safe c then c ∷ next else if in_run then run else 45 ∷ run

module _ (to_lower : Str → Str) where
  unfoldable pub slug : Str → Str
  slug segment = trim is_joiner (replace_unsafe false (to_lower segment))

  abbrev pub before : Str → Result PathError (List Str) → Result PathError (List Str)
  before w (ok ws) = ok (w ∷ ws)
  before w (err e) = err e

  unfoldable pub slugs : List Str → Result PathError (List Str)
  slugs [] = ok []
  slugs (segment ∷ rest) =
      let w = slug segment in
      let later = slugs rest in if is_empty w then err no_safe_characters else before w later

  abbrev pub under : Str → Result PathError (List Str) → Result PathError Str
  under parent (err e) = err e
  under parent (ok mapped) = ok (trim is_slash (join (trim is_slash parent ∷ join mapped ∷ [])))

  unfoldable pub target_group_path : Str → Str → Result PathError Str
  target_group_path parent relative = under parent (slugs (split (trim is_slash relative)))

-- The lower case of a string of ASCII characters.
unfoldable pub ascii_lower : Str → Str
ascii_lower [] = []
ascii_lower (c ∷ s) = (if is_upper c then c + 32 else c) ∷ ascii_lower s

-- [A-Za-z0-9_-]
unfoldable pub all_word : Str → Bool
all_word [] = true
all_word (c ∷ s) = (is_lower c || is_upper c || is_digit c || is_joiner c) && all_word s

-- vaultPathSegment; a segment of it is neither "." nor "..".
abbrev pub is_segment : Str → Bool
is_segment s = leb 1 (length s) && leb (length s) 63 && all_word s

abbrev pub prepend : Str → Result PathError (List Str) → Result PathError (List Str)
prepend w (ok ws) = ok (w ∷ ws)
prepend w (err e) = err e

unfoldable pub segments : List Str → Result PathError (List Str)
segments [] = ok []
segments (s ∷ rest) =
    let later = segments rest in
    if is_segment s && not (s == bytes ".") && not (s == bytes "..")
    then prepend (ascii_lower s) later
    else err bad_segment

-- The segments of one of the two parts, of which an empty one has none.
abbrev pub part_segments : Str → Result PathError (List Str)
part_segments raw = if is_empty raw then ok [] else segments (split raw)

abbrev pub joined :
    Result PathError (List Str) → Result PathError (List Str) → Result PathError (List Str)
joined (ok ws) (ok vs) = ok (ws ++ vs)
joined (ok ws) (err e) = err e
joined (err e) _ = err e

abbrev pub fitting : Result PathError (List Str) → Result PathError Str
fitting (err e) = err e
fitting (ok parts) =
    let path = join parts in
    if is_empty path || ltb 240 (length path) then err bad_length else ok path

unfoldable pub vault_secret_path : Str → Str → Result PathError Str
vault_secret_path parent relative =
    fitting (joined (part_segments (trim is_slash parent)) (part_segments (trim is_slash relative)))
