-- ===== src/Vault/Policy.antt =====
-- internal/provider/vault/client.go: the name and the text of the policy of a secret path. The
-- hash, SHA-256, and `quote`, the verb %q with its tables of what can be printed, are parameters.
use group_bridge.Base.{
  ℕ, Bool, ◌||◌, List, [], ◌∷◌, ◌++◌, ◌==◌, if◌then◌else◌, number_eq, Str, str_eq, bytes, length,
  ltb,
}
use group_bridge.Reconcile.Paths.{trim, is_joiner, split, join}
use group_bridge.Gitlab.Api.{first, hex_encode}

-- The replacer of managedName: a slash and an underscore are a hyphen.
unfoldable pub hyphens : Str → Str
hyphens [] = []
hyphens (c ∷ s) = (if c == 47 || c == 95 then 45 else c) ∷ hyphens s

abbrev pub max_slug : ℕ
max_slug = 38

abbrev pub cut : Str → Str
cut slug = if ltb max_slug (length slug) then trim is_joiner (first max_slug slug) else slug

-- `managedName`
unfoldable pub managed_name : (Str → Str) → Str → Str
managed_name hash secret_path =
    bytes "groupbridge-org-"
    ++ (cut (hyphens secret_path) ++ (45 ∷ hex_encode (first 4 (hash secret_path))))

-- `hashPolicy`
abbrev pub hash_policy : (Str → Str) → Str → Str
hash_policy hash policy = hex_encode (hash policy)

abbrev pub data_capabilities : Str → Str
data_capabilities profile =
    if profile == bytes "editor"
    then bytes "[\"create\", \"read\", \"update\", \"patch\", \"delete\"]"
    else bytes "[\"read\"]"

module _ (quote : Str → Str) where
  -- A path with its capabilities, and a blank line after it.
  abbrev pub stanza : Str → Str → Str
  stanza path capabilities =
      bytes "path "
      ++ (quote path ++ (bytes " {\n  capabilities = " ++ (capabilities ++ bytes "\n}\n\n")))

  abbrev pub last_stanza : Str → Str → Str
  last_stanza path capabilities =
      bytes "path "
      ++ (quote path ++ (bytes " {\n  capabilities = " ++ (capabilities ++ bytes "\n}\n")))

  abbrev pub under_metadata : Str → Str → Str
  under_metadata mount path = mount ++ (bytes "/metadata/" ++ path)

  -- The stanzas of the ancestors, by the segments before and those that remain.
  unfoldable pub ancestors : Str → List Str → List Str → Str
  ancestors mount before [] = []
  ancestors mount before (s ∷ []) = []
  ancestors mount before (s ∷ t ∷ rest) =
      stanza (under_metadata mount (join (before ++ (s ∷ [])))) (bytes "[\"list\"]")
      ++ ancestors mount (before ++ (s ∷ [])) (t ∷ rest)

  abbrev pub navigation : Str → Str → Bool → Str
  navigation mount secret_path discoverable =
      if discoverable
      then stanza (under_metadata mount []) (bytes "[\"list\"]")
        ++ ancestors mount [] (split secret_path)
      else []

  -- `policyFor`
  unfoldable pub policy_for : Str → Str → Str → Bool → Str
  policy_for mount secret_path profile discoverable =
      let data_path = mount ++ (bytes "/data/" ++ secret_path) in
      let metadata_path = under_metadata mount secret_path in
      let read_list = bytes "[\"read\", \"list\"]" in
      navigation mount secret_path discoverable
      ++ (stanza data_path (data_capabilities profile)
          ++ (stanza (data_path ++ bytes "/*") (data_capabilities profile)
              ++ (stanza metadata_path read_list
                  ++ last_stanza (metadata_path ++ bytes "/*") read_list)))
