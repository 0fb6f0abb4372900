-- ===== src/Config/Checks.antt =====
-- internal/config/config.go: the checks of references, URLs and paths. The parser of URLs is a
-- parameter, and so are the Unicode tables of ToLower.
use group_bridge.Base.{
  Bool, true, false, not, ◌&&◌, ◌||◌, Option, none, some, List, [], ◌∷◌, ◌++◌, ◌==◌, ◌!=◌,
  if◌then◌else◌, number_eq, Str, str_eq, bytes, is_empty, has_prefix, length, ltb,
}
use group_bridge.Base.Exec.{Result, ok, err}
use group_bridge.Reconcile.Paths.{
  trim, is_slash, split, join, is_lower, is_digit, is_joiner, all_word, slug,
}
use group_bridge.Reconcile.Rules.{Rule}
use group_bridge.Webhook.Signature.{trim_prefix}
use group_bridge.Credential.Reference.{is_absolute, clean}
use group_bridge.Credential.Runes.{trim_space}
use group_bridge.Credential.Loading.{LoadError}
use group_bridge.Config.Types.{ConfigError}

-- One error where a test fails.
abbrev pub unless : Bool → ConfigError → List ConfigError
unless t e = if t then [] else e ∷ []

-- One error where a test holds.
abbrev pub when : Bool → ConfigError → List ConfigError
when t e = if t then e ∷ [] else []

-- `validateCredentialReference`
unfoldable pub validate_credential_reference : Str → Str → Bool → List ConfigError
validate_credential_reference environment file_path required =
    if not (is_empty environment) && not (is_empty file_path)
    then ConfigError.exclusive_credentials ∷ []
    else if required && is_empty environment && is_empty file_path
    then ConfigError.no_credential ∷ []
    else if is_empty file_path
    then []
    else if not (is_absolute file_path)
    then ConfigError.relative_credential ∷ []
    else unless (clean file_path == file_path) ConfigError.uncleaned_credential

-- What net/url parses a URL into, as far as it is read; `has_user` is false for nil.
pub record Url : Type 0 where
  pub scheme : Str
  pub host : Str
  pub has_user : Bool
  pub raw_query : Str
  pub fragment : Str

abbrev pub is_plain_url : Url → Bool
is_plain_url u =
    (u.scheme == bytes "http" || u.scheme == bytes "https")
    && not (is_empty u.host)
    && not u.has_user
    && is_empty u.raw_query
    && is_empty u.fragment

abbrev pub check_url : Option Url → Bool → List ConfigError
check_url none allow_insecure = ConfigError.bad_url ∷ []
check_url (some u) allow_insecure =
    if is_plain_url u
    then when (u.scheme != bytes "https" && not allow_insecure) ConfigError.insecure_url
    else ConfigError.bad_url ∷ []

-- `validateBaseURL`
unfoldable pub validate_base_url : (Str → Option Url) → Str → Bool → List ConfigError
validate_base_url parse_url raw allow_insecure = check_url (parse_url raw) allow_insecure

unfoldable pub ends_in_slash : Str → Bool
ends_in_slash [] = false
ends_in_slash (c ∷ []) = is_slash c
ends_in_slash (c ∷ d ∷ s) = ends_in_slash (d ∷ s)

-- [a-z0-9_-]*
unfoldable pub all_mount : Str → Bool
all_mount [] = true
all_mount (c ∷ s) = (is_lower c || is_digit c || is_joiner c) && all_mount s

unfoldable pub safe_segments : List Str → Bool
safe_segments [] = true
safe_segments (s ∷ rest) =
    not (is_empty s)
    && not (s == bytes ".")
    && not (s == bytes "..")
    && all_mount s
    && safe_segments rest

-- `safeVaultPath`
unfoldable pub safe_vault_path : Str → Bool
safe_vault_path value =
    not (is_empty value)
    && not (has_prefix value (bytes "/"))
    && not (ends_in_slash value)
    && safe_segments (split value)

module _ (to_lower : Str → Str) where
  abbrev pub also : Str → Result ConfigError (List Str) → Result ConfigError (List Str)
  also w (ok ws) = ok (w ∷ ws)
  also w (err e) = err e

  unfoldable pub slug_segments : List Str → Result ConfigError (List Str)
  slug_segments [] = ok []
  slug_segments (s ∷ rest) =
      let w = slug to_lower s in
      let later = slug_segments rest in
      if is_empty w then err ConfigError.no_safe_characters else also w later

  unfoldable pub vault_segments : List Str → Result ConfigError (List Str)
  vault_segments [] = ok []
  vault_segments (s ∷ rest) =
      let later = vault_segments rest in
      if is_empty s || ltb 63 (length s) || not (all_word s)
      then err ConfigError.unsafe_segment
      else also (to_lower s) later

  abbrev pub mapped_segments : Str → List Str → Result ConfigError (List Str)
  mapped_segments kind segments =
      if kind == bytes "vault"
      then vault_segments segments
      else if kind == bytes "gitlab"
      then slug_segments segments
      else ok []

  abbrev pub source_prefix : Rule → Str
  source_prefix rule = 47 ∷ trim is_slash rule.source_group_prefix

  -- The path of a source below the rule's prefix.
  abbrev pub declared_relative : Rule → Str → Str
  declared_relative rule path =
      if source_prefix rule == 47 ∷ []
      then trim_prefix path (bytes "/")
      else trim_prefix path (source_prefix rule ++ (47 ∷ []))

  abbrev pub parent_of : Str → Rule → Str
  parent_of kind rule =
      if kind == bytes "vault"
      then elim rule.vault [ none ↦ rule.target_parent | some v ↦ v.path_prefix ]
      else rule.target_parent

  abbrev pub below : Str → Result ConfigError (List Str) → Result ConfigError Str
  below parent (err e) = err e
  below parent (ok mapped) = ok (trim is_slash (trim is_slash parent ++ (47 ∷ join mapped)))

  -- `declaredTargetPath`
  unfoldable pub declared_target_path : Str → Rule → Str → Result ConfigError Str
  declared_target_path kind rule path =
      below (parent_of kind rule) (mapped_segments kind (split (declared_relative rule path)))

-- `Secret`, of the variable's value, if it is set. The value is returned with the space around it.
unfoldable pub secret : Option Str → Result LoadError Str
secret none = err LoadError.unset_variable
secret (some value) = if is_empty (trim_space value) then err LoadError.unset_variable else ok value
