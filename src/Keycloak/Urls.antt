-- ===== src/Keycloak/Urls.antt =====
-- internal/source/keycloak/client.go: the paths of the requests, and what they use of net/url.
use group_bridge.Base.{
  ℕ, ◌+◌, ◌/◌, ◌%◌, Bool, ◌||◌, List, [], ◌∷◌, ◌++◌, ◌==◌, if◌then◌else◌, number_eq, Str, bytes,
  ltb,
}
use group_bridge.Reconcile.Paths.{is_lower, is_upper, is_digit}
use group_bridge.Gitlab.Api.{itoa}

-- The bytes that url.PathEscape keeps: letters, digits and -_.~$&+=:@
abbrev pub is_kept : ℕ → Bool
is_kept c =
    is_lower c
    || is_upper c
    || is_digit c
    || c == 45
    || c == 95
    || c == 46
    || c == 126
    || c == 36
    || c == 38
    || c == 43
    || c == 61
    || c == 58
    || c == 64

abbrev pub upper_hex : ℕ → ℕ
upper_hex n = if ltb n 10 then 48 + n else 55 + n

-- url.PathEscape
unfoldable pub path_escape : Str → Str
path_escape [] = []
path_escape (c ∷ s) =
    let rest = path_escape s in
    if is_kept c then c ∷ rest else 37 ∷ upper_hex (c / 16) ∷ upper_hex (c % 16) ∷ rest

abbrev pub groups_path : Str → Str
groups_path realm = bytes "/admin/realms/" ++ (path_escape realm ++ bytes "/groups")

abbrev pub group_path : Str → Str → Str
group_path realm id = groups_path realm ++ (47 ∷ path_escape id)

abbrev pub children_path : Str → Str → Str
children_path realm id = group_path realm id ++ bytes "/children"

abbrev pub members_path : Str → Str → Str
members_path realm id = group_path realm id ++ bytes "/members"

abbrev pub token_url : Str → Str → Str
token_url base_url realm =
    base_url ++ (bytes "/realms/" ++ (path_escape realm ++ bytes "/protocol/openid-connect/token"))

abbrev pub Query : Type 0
Query = List (Str × Str)

abbrev pub page_size : ℕ
page_size = 100

abbrev pub brief : Query
brief = (bytes "briefRepresentation", bytes "true") ∷ []

-- The query of the page that begins at an offset.
abbrev pub page_query : ℕ → Query
page_query first =
    (bytes "briefRepresentation", bytes "true")
    ∷ (bytes "first", itoa first)
    ∷ (bytes "max", itoa page_size)
    ∷ []

abbrev pub token_form : Str → Str → Query
token_form client_id secret =
    (bytes "grant_type", bytes "client_credentials")
    ∷ (bytes "client_id", client_id)
    ∷ (bytes "client_secret", secret)
    ∷ []
