-- ===== src/Credential/Reference.antt =====
-- internal/credential/credential.go: the reference to a credential, by the name of an environment
-- variable or by the path of a file.
use group_bridge.Base.{
  Bool, ◌||◌, Option, none, some, List, [], ◌∷◌, ◌++◌, ◌==◌, if◌then◌else◌, Str, str_eq, bytes,
  is_empty, has_prefix,
}
use group_bridge.Base.Exec.{Result, ok, err}
use group_bridge.Reconcile.Paths.{split, join}

-- filepath.IsAbs
abbrev pub is_absolute : Str → Bool
is_absolute path = has_prefix path (bytes "/")

abbrev pub init : List Str → List Str
init [] = []
init (w ∷ []) = []
init (w ∷ v ∷ ws) = w ∷ init (v ∷ ws)

-- The elements of a rooted path with one more: "" and "." add none, and ".." takes the last one off.
abbrev pub with_element : List Str → Str → List Str
with_element before w =
    if is_empty w || w == bytes "."
    then before
    else if w == bytes ".."
    then init before
    else before ++ (w ∷ [])

unfoldable pub clean_parts : List Str → List Str → List Str
clean_parts before [] = before
clean_parts before (w ∷ ws) = clean_parts (with_element before w) ws

-- filepath.Clean of an absolute path.
unfoldable pub clean : Str → Str
clean path = 47 ∷ join (clean_parts [] (split path))

pub data ReferenceError : Type 0 where
  two_sources no_source relative_file uncleaned_file : ReferenceError

-- `static_value` is a pointer, `none` for nil.
pub record Loader : Type 0 where
  pub environment : Str
  pub file_path : Str
  pub static_value : Option Str

-- What `New` and the validation of a configuration require of a file's path.
abbrev pub check_file : {A : Type 0} → Str → A → Result ReferenceError A
check_file path a =
    if is_empty path
    then ok a
    else if is_absolute path
    then (if clean path == path then ok a else err uncleaned_file)
    else err relative_file

-- `New`
unfoldable pub new : Str → Str → Result ReferenceError Loader
new environment file_path =
    if is_empty environment
    then if is_empty file_path
      then err no_source
      else check_file file_path
          (record { environment = environment; file_path = file_path; static_value = none })
    else if is_empty file_path
    then ok (record { environment = environment; file_path = file_path; static_value = none })
    else err two_sources

-- `Static`
abbrev pub static : Str → Loader
static value = record { environment = []; file_path = []; static_value = some value }
