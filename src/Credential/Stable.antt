-- ===== src/Credential/Stable.antt =====
-- internal/credential/credential.go: the loader that retains the last valid value.
use group_bridge.Base.{ℕ, [], if◌then◌else◌, Str, is_empty, length, ltb}
use group_bridge.Base.Exec.{Result, ok, err, Exec}
use group_bridge.Credential.Reference.{Loader}
use group_bridge.Credential.Loading.{LoadError, too_short, Host, load}

-- `last` is "" before a value was read.
pub record StableLoader : Type 0 where
  pub source : Loader
  pub min_bytes : ℕ
  pub last : Str

pub data NewError : Type 0 where
  no_minimum : NewError
  not_loaded : LoadError → NewError

abbrev pub long_enough : ℕ → Result LoadError Str → Result LoadError Str
long_enough min (ok value) = if ltb (length value) min then err too_short else ok value
long_enough min (err e) = err e

-- The value that is returned with the loader that retains it.
abbrev pub retained : StableLoader → Result LoadError Str → Result LoadError Str × StableLoader
retained l (ok value) = (ok value, record l { last = value })
retained l (err e) = if is_empty l.last then (err e, l) else (ok l.last, l)

module _ {W : Type 0} where
  -- `StableLoader.Load`
  unfoldable pub stable_load : Host W → Exec LoadError (StableLoader × W) Str
  stable_load host (l, w) =
      let (read, v) = load host l.source w in
      let (served, k) = retained l (long_enough l.min_bytes read) in (served, (k, v))

  abbrev pub created : Result LoadError Str × (StableLoader × W) → Result NewError StableLoader × W
  created (ok value, (l, w)) = (ok l, w)
  created (err e, (l, w)) = (err (not_loaded e), w)

  -- `NewStable`
  unfoldable pub new_stable : Host W → Loader → ℕ → Exec NewError W StableLoader
  new_stable host source min w =
      if ltb min 1
      then (err no_minimum, w)
      else created (stable_load host (record { source = source; min_bytes = min; last = [] }, w))
