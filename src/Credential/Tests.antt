-- ===== src/Credential/Tests.antt =====
-- Witnesses and runs: a file that is rotated, and is missing during the swap.
use group_bridge.Base.{
  has_prefix, ℕ, ◌+◌, ◌≤◌, ◌≡◌, refl, none, [], ◌∷◌, ◌==◌, if◌then◌else◌, number_eq, str_eq, same,
  Str, bytes, length, arith, suc,
}
use group_bridge.Base.Exec.{Result, ok, err}
use group_bridge.Reconcile.Paths.{split, join}
use group_bridge.Credential.Runes.{
  decode, feed, accept, after_lead, any_control, trim_space, reversed, is_control, is_space,
  skip_spaces,
}
use group_bridge.Credential.Reference.{
  Loader, new, clean, clean_parts, uncleaned_file, two_sources, relative_file,
}
use group_bridge.Credential.Loading.{
  LoadError, Host, load, validated, open_failed, empty_value, invalid_characters,
}
use group_bridge.Credential.Stable.{long_enough, StableLoader, stable_load, new_stable}
use group_bridge.Credential.Newest.{
  newest, held, or_last, reads, read_after, served_after, served_after-newest,
  new_stable-served_after,
}
use group_bridge.Gitlab.Api.{first}
use native.Mathlib.Decide.{ℕ_discrete}

abbrev swapped_file : ℕ → Result LoadError Str
swapped_file n =
    if n == 0
    then ok (bytes "first-secret\n")
    else if n == 1
    then err open_failed
    else ok (bytes " second-secret ")

abbrev rotating : Host ℕ
rotating = record {
  lookup_env = λ name w. (none, w);
  read_file = λ path limit w. (swapped_file w, w + 1);
}

abbrev mounted : Loader
mounted = record { environment = []; file_path = bytes "/run/secret"; static_value = none }

abbrev waiting : StableLoader
waiting = record { source = mounted; min_bytes = 8; last = [] }

abbrev loaded : StableLoader
loaded = record waiting { last = bytes "first-secret" }

-- The first read gives the first value, and the next one fails.
first_load : load rotating mounted 0 ≡ (ok (bytes "first-secret"), 1)
unfolding load decode feed accept after_lead validated any_control trim_space reversed first
    skip_spaces is_control is_space bytes number_eq ℕ_discrete
first_load = refl

failed_load : load rotating mounted 1 ≡ (err open_failed, 2)
unfolding load bytes number_eq ℕ_discrete
failed_load = refl

-- A soft hyphen is no control character, an escape is one, and a lone continuation byte is invalid.
bad_runes :
    (validated (194 ∷ 173 ∷ []) ≡ ok (194 ∷ 173 ∷ []))
    × (validated (27 ∷ []) ≡ err invalid_characters)
    × (validated (194 ∷ 65 ∷ []) ≡ err invalid_characters)
    × (validated (bytes " \n") ≡ err empty_value)
unfolding decode feed accept after_lead validated any_control trim_space reversed first skip_spaces
    is_control is_space bytes number_eq ℕ_discrete
bad_runes = (refl, refl, refl, refl)

odd_paths :
    (clean (bytes "/a/./b//../c/..") ≡ bytes "/a")
    × (clean (bytes "/../") ≡ bytes "/")
    × (new [] (bytes "/a/") ≡ err uncleaned_file)
    × (new (bytes "E") (bytes "/a") ≡ err two_sources)
    × (new [] (bytes "a/b") ≡ err relative_file)
unfolding has_prefix clean clean_parts split join new bytes str_eq same number_eq ℕ_discrete
odd_paths = (refl, refl, refl, refl, refl)

served_after-newest_example :
    served_after rotating 2 (waiting, 0)
    ≡ or_last
        (newest 8 (held waiting) (reads rotating mounted (suc 2) 0))
        (long_enough 8 (read_after rotating mounted 2 0))
served_after-newest_example = served_after-newest rotating 2 waiting 0 (omega arith)

new_stable-served_after_example :
    (value : Str) × (served_after rotating 1 (loaded, 1) ≡ ok value) × (8 ≤ length value)
unfolding new_stable stable_load load decode feed accept after_lead validated any_control trim_space
    reversed first skip_spaces is_control is_space bytes number_eq ℕ_discrete
new_stable-served_after_example = new_stable-served_after rotating mounted 8 0 loaded 1 refl 1
