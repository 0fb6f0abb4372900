-- ===== src/Keycloak/Tests.antt =====
-- Witnesses and runs: a server with two groups, one below the other.
use group_bridge.Base.{
  same, ℕ, ◌+◌, if_cases, All, number_eq, ◌≡◌, refl, inl, inr, ◌⊎◌, sym, true, false, none, some,
  List, [], ◌∷◌, ◌++◌, ◌==◌, if◌then◌else◌, Str, str_eq, bytes, length, pos, arith,
}
use group_bridge.Base.Exec.{err}
use group_bridge.Base.Outcomes.{Yields, Gives}
use group_bridge.Credential.Loading.{load, validated, Host, open_failed}
use group_bridge.Keycloak.Urls.{path_escape, Query, page_query}
use group_bridge.Keycloak.Api.{
  Client, GroupRep, UserRep, HttpReply, replied, Keycloak, Settings, new, new_with_credential,
  unused,
}
use group_bridge.Keycloak.Token.{get_optional}
use group_bridge.Credential.Runes.{
  decode, feed, accept, after_lead, any_control, trim_space, reversed, is_control, is_space,
  skip_spaces,
}
use group_bridge.Gitlab.Api.{digits, first}
use group_bridge.Reconcile.Paths.{trim_right}
use native.Mathlib.Decide.{ℕ_discrete}
use group_bridge.Keycloak.Groups.{list_groups, read_group}
use group_bridge.Keycloak.Answering.{Holds, Answers, IsGranting}
use group_bridge.Keycloak.Listed.{IsPage, AllNew}
use group_bridge.Keycloak.Forest.{self, Forest, bare, grown, flatten, Hosts}
use group_bridge.Keycloak.Collected.{list_groups-flatten}
use group_bridge.Keycloak.Distinct.{
  ids_of, IsProper, AskedFor, list_groups-IsProper, read_group-AskedFor,
}
use group_bridge.Keycloak.Attempts.{Refuses, IsIssuing, get_optional-Delivers}

abbrev team : GroupRep
team = record { id = bytes "t"; name = bytes "team"; path = bytes "/team" }

-- The server gives no path.
abbrev ops : GroupRep
ops = record { id = bytes "o"; name = bytes "ops"; path = [] }

abbrev ada : UserRep
ada = record { id = bytes "1"; username = bytes "ada"; email = []; enabled = true }

abbrev bob : UserRep
bob = record { id = bytes "2"; username = bytes "bob"; email = []; enabled = false }

abbrev small_forest : Forest
small_forest = grown team (ada ∷ []) (grown ops (bob ∷ []) bare bare) bare

-- The value of the second parameter, the offset.
abbrev offset : Query → Str
offset (a ∷ b ∷ q) = b.1
offset _ = []

unfoldable page_of : {R : Type 0} → List R → Query → ℕ → HttpReply (List R) × ℕ
page_of records query w =
    (replied 200 (some (if offset query == bytes "0" then records else [])), w + 1)

abbrev quiet_host : Host ℕ
quiet_host = record {
  lookup_env = λ name w. (none, w);
  read_file = λ path n w. (err open_failed, w);
}

abbrev small_server : Keycloak ℕ
small_server = record {
  host = quiet_host;
  now = λ w. (1000, w);
  post_token = λ url form w.
      (replied 200 (some (record { access_token = bytes "abc"; expires_in = pos 60 })), w + 1);
  get_groups = λ url query t w.
      page_of
        (if url == bytes "https://kc/admin/realms/r/groups"
          then team ∷ []
          else if url == bytes "https://kc/admin/realms/r/groups/t/children"
          then ops ∷ []
          else [])
        query w;
  get_group = λ url query t w. (
    if url == bytes "https://kc/admin/realms/r/groups/t"
        then replied 200 (some team)
        else replied 404 none,
    w + 1,
  );
  get_users = λ url query t w.
      page_of
        (if url == bytes "https://kc/admin/realms/r/groups/t/members" then ada ∷ [] else bob ∷ [])
        query w;
}

abbrev small_settings : Settings
small_settings = new (bytes "https://kc/") (bytes "r") (bytes "bridge") (bytes "s3cret")

page_of-one :
    {R : Type 0} (r : R) (before rest : List R)
    → r ∷ [] ≡ before ++ rest
    → (w : ℕ) → Answers (IsPage rest) (page_of (r ∷ []) (page_query (length before)) w).0
unfolding page_of bytes digits str_eq same number_eq ℕ_discrete
page_of-one r [] rest e w = (refl, ([], sym e, λ n. absurd (ground (arith, n))))
page_of-one r (x ∷ []) rest e w = (refl, (rest, refl, λ n. ground (arith, e)))
page_of-one r (x ∷ y ∷ before) rest e w = absurd (ground (arith, e))

page_of-empty :
    {R : Type 0} (before rest : List R)
    → [] ≡ before ++ rest
    → (w : ℕ) (query : Query) → Answers (IsPage rest) (page_of [] query w).0
unfolding page_of
page_of-empty [] rest e w query = (
  refl,
  if_cases (IsPage rest) (offset query == bytes "0") [] [] (λ y. (rest, refl, λ n. sym e))
      (λ y. (rest, refl, λ n. sym e)),
)
page_of-empty (x ∷ before) rest e w query = absurd (ground (arith, e))

small_server-IsGranting : IsGranting small_settings small_server
unfolding load new new_with_credential decode feed accept bytes after_lead validated any_control
    trim_space reversed first is_control is_space skip_spaces number_eq ℕ_discrete
small_server-IsGranting = record { loads = λ w. tt; grants = λ form w. (refl, refl) }

small_server-Hosts : Hosts small_settings small_server small_server-IsGranting 5 small_forest
unfolding bytes number_eq ℕ_discrete path_escape new new_with_credential trim_right str_eq same
small_server-Hosts = (
  refl,
  (refl, tt),
  ground arith,
  ground arith,
  (λ before rest e t w. page_of-one ada before rest e w),
  (λ before rest e t w. page_of-one ops before rest e w),
  (
    refl,
    (refl, tt),
    ground arith,
    ground arith,
    (λ before rest e t w. page_of-one bob before rest e w),
    (λ before rest e t w. page_of-empty before rest e w (page_query (length before))),
    tt,
    tt,
  ),
  tt,
)

list_groups-flatten_example :
    Gives
      (λ groups. groups ≡ flatten [] small_forest)
      (list_groups small_settings small_server 5 2 (unused 0))
unfolding bytes number_eq ℕ_discrete path_escape new new_with_credential trim_right str_eq same
list_groups-flatten_example =
    list_groups-flatten small_settings small_server small_server-IsGranting 5 2 small_forest
      small_server-Hosts (λ before rest e t w. page_of-one team before rest e w) (ground arith)
      (refl, (refl, tt)) (ground arith) (unused 0)

list_groups-IsProper_example :
    Yields
      (λ groups. AllNew self [] (ids_of groups) × All IsProper groups)
      (list_groups small_settings small_server 5 2 (unused 0))
list_groups-IsProper_example = list_groups-IsProper small_settings small_server 5 2 (unused 0)

read_group-AskedFor_example :
    Yields
      (AskedFor small_settings small_server 5 (bytes "t"))
      (read_group small_settings small_server 5 (bytes "t") (unused 0))
read_group-AskedFor_example =
    read_group-AskedFor small_settings small_server 5 (bytes "t") (unused 0)

-- The server that takes no token but the one that it issues.
abbrev strict_server : Keycloak ℕ
strict_server = record small_server {
  get_group = λ url query t w.
      ((if t == bytes "abc" then replied 200 (some team) else replied 401 none), w);
}

-- The client keeps a token of before, which has not expired.
abbrev stale : Client ℕ
stale = record (unused 0) { access_token = bytes "old"; token_expiry = some (pos 1000000000000) }

strict_server-IsIssuing : IsIssuing small_settings strict_server (λ t w. t ≡ bytes "abc")
unfolding load new new_with_credential decode feed accept bytes after_lead validated any_control
    trim_space reversed first is_control is_space skip_spaces number_eq ℕ_discrete
strict_server-IsIssuing = record {
  loads = λ w. tt;
  issues = λ form w. (refl, refl, refl);
  lasting = λ t w h. h;
}

served :
    (t : Str) (w : ℕ)
    → t ≡ bytes "abc"
    → Answers (λ g. g ≡ team) (strict_server.get_group (bytes "https://kc/x") [] t w).0
served t w e =
    if_cases (Answers (λ g. g ≡ team)) (t == bytes "abc") _ _ (λ y. (refl, refl))
      (λ n. absurd (ground (arith, e, n)))

known :
    (t : Str) (w : ℕ)
    → Answers (λ g. g ≡ team) (strict_server.get_group (bytes "https://kc/x") [] t w).0
      ⊎ Refuses (strict_server.get_group (bytes "https://kc/x") [] t w).0
known t w =
    if_cases (λ (r : HttpReply GroupRep). Answers (λ g. g ≡ team) r ⊎ Refuses r) (t == bytes "abc")
      _ _ (λ y. inl (refl, refl)) (λ n. inr refl)

get_optional-Delivers_example :
    Gives
      (Holds (λ g. g ≡ team))
      (get_optional small_settings strict_server strict_server.get_group (bytes "/x") [] stale)
get_optional-Delivers_example =
    get_optional-Delivers small_settings strict_server (λ t w. t ≡ bytes "abc")
      strict_server-IsIssuing (λ g. g ≡ team) strict_server.get_group (bytes "/x") [] served known
      stale
