-- ===== src/Webhook/Signature.antt =====
-- internal/webhook/keycloak.go: the timestamp header and the signature over the request.
use group_bridge.Base.{
  ℕ, zero, suc, ◌+◌, ◌-◌, ◌*◌, ◌^◌, Bool, false, ◌&&◌, Option, none, some, [], ◌∷◌, ◌++◌, ◌==◌,
  if◌then◌else◌, Str, str_eq, number_eq, bytes, leb, ltb, length, has_prefix, ℤ, pos, negsuc,
}

-- The digits of a number in base 10, after those that made up `n`.
decimal : ℕ → Str → Option ℕ
decimal n [] = some n
decimal n (c ∷ s) = if leb 48 c && leb c 57 then decimal (n * 10 + (c - 48)) s else none

magnitude : Str → Option ℕ
magnitude [] = none
magnitude (c ∷ s) = decimal 0 (c ∷ s)

abbrev as_positive : Option ℕ → Option ℤ
as_positive none = none
as_positive (some n) = if ltb n (2 ^ 63) then some (pos n) else none

abbrev as_negative : Option ℕ → Option ℤ
as_negative none = none
as_negative (some zero) = some (pos 0)
as_negative (some (suc n)) = if ltb n (2 ^ 63) then some (negsuc n) else none

-- strconv.ParseInt(s, 10, 64)
unfoldable pub parse_int : Str → Option ℤ
unfolding decimal magnitude
parse_int [] = none
parse_int (c ∷ s) =
    if c == 43
    then as_positive (magnitude s)
    else if c == 45
    then as_negative (magnitude s)
    else as_positive (magnitude (c ∷ s))

nibble : ℕ → Option ℕ
nibble c =
    if leb 48 c && leb c 57
    then some (c - 48)
    else if leb 97 c && leb c 102
    then some (c - 87)
    else if leb 65 c && leb c 70
    then some (c - 55)
    else none

abbrev join_nibbles : Option ℕ → Option ℕ → Option Str → Option Str
join_nibbles (some a) (some b) (some s) = some ((a * 16 + b) ∷ s)
join_nibbles _ _ _ = none

-- hex.DecodeString
unfoldable pub hex_decode : Str → Option Str
unfolding nibble
hex_decode [] = some []
hex_decode (a ∷ []) = none
hex_decode (a ∷ b ∷ s) = join_nibbles (nibble a) (nibble b) (hex_decode s)

-- strings.TrimPrefix
unfoldable pub trim_prefix : Str → Str → Str
trim_prefix s [] = s
trim_prefix [] (b ∷ t) = []
trim_prefix (a ∷ s) (b ∷ t) = if has_prefix (a ∷ s) (b ∷ t) then trim_prefix s t else a ∷ s

-- The bytes that the sender signs.
abbrev pub signed : Str → Str → Str → Str
signed timestamp delivery body = timestamp ++ (10 ∷ (delivery ++ (10 ∷ body)))

abbrev pub is_sum : Option Str → Str → Bool
is_sum none sum = false
is_sum (some got) sum = if length got == 32 then got == sum else false

-- `hmac` is HMAC-SHA-256 of a key and a message.
unfoldable pub valid_signature : (Str → Str → Str) → Str → Str → Str → Str → Str → Bool
unfolding hex_decode trim_prefix has_prefix
valid_signature hmac secret timestamp delivery body signature =
    if has_prefix signature (bytes "sha256=")
    then is_sum (hex_decode (trim_prefix signature (bytes "sha256=")))
        (hmac secret (signed timestamp delivery body))
    else false
