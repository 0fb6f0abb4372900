-- ===== src/Credential/Loading.antt =====
-- internal/credential/credential.go: `Load`. The environment and the files are a parameter, `Host`,
-- whose state is of any type and may change with every access.
use group_bridge.Base.{
  ℕ, ◌+◌, ◌^◌, Bool, true, List, Option, none, some, List, if◌then◌else◌, Str, is_empty, length,
  ltb,
}
use group_bridge.Base.Exec.{Result, ok, err, Exec, pure, fail, ◌>>=◌}
use group_bridge.Credential.Runes.{decode, trim_space, any_control}
use group_bridge.Credential.Reference.{Loader}

pub data LoadError : Type 0 where
  unset_variable open_failed read_failed close_failed too_large unconfigured empty_value
        invalid_characters too_short :
      LoadError

-- `read_file` opens a file, reads at most so many bytes, and closes it; an error of the second
-- comes before one of the third.
pub record Host (W : Type 0) : Type 0 where
  pub lookup_env : Str → W → Option Str × W
  pub read_file : Str → ℕ → W → Result LoadError Str × W

abbrev pub max_credential_bytes : ℕ
max_credential_bytes = 2 ^ 20

abbrev pub has_control : Option (List Str) → Bool
has_control none = true
has_control (some runes) = any_control runes

-- The value without the space around it. What is not UTF-8 is refused as a control character is.
unfoldable pub validated : Str → Result LoadError Str
validated raw =
    let value = trim_space raw in
    if is_empty value
    then err empty_value
    else if has_control (decode value)
    then err invalid_characters
    else ok value

module _ {W : Type 0} where
  abbrev pub lift : {A : Type 0} → Result LoadError A → Exec LoadError W A
  lift r w = (r, w)

  abbrev pub present : Option Str → Exec LoadError W Str
  present none = fail unset_variable
  present (some raw) = pure raw

  abbrev pub looked_up : Host W → Str → Exec LoadError W (Option Str)
  looked_up host name w = let (o, v) = host.lookup_env name w in (ok o, v)

  abbrev pub bounded : Str → Exec LoadError W Str
  bounded bytes = if ltb max_credential_bytes (length bytes) then fail too_large else pure bytes

  abbrev pub from_source : Host W → Loader → Option Str → Exec LoadError W Str
  from_source host l (some value) = pure value
  from_source host l none =
      if is_empty l.environment
      then if is_empty l.file_path
        then fail unconfigured
        else (host.read_file l.file_path (max_credential_bytes + 1) >>= bounded)
      else (looked_up host l.environment >>= present)

  -- `Load`
  unfoldable pub load : Host W → Loader → Exec LoadError W Str
  load host l = do value ← from_source host l l.static_value; lift (validated value)
