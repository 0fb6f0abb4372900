-- ===== src/Credential/Runes.antt =====
-- What internal/credential/credential.go uses of Go's packages strings, unicode and unicode/utf8: a
-- string as its encoded runes, white space, and control characters.
use group_bridge.Base.{
  ℕ, zero, suc, Bool, false, ◌&&◌, ◌||◌, Option, none, some, List, [], ◌∷◌, ◌++◌, ◌==◌,
  if◌then◌else◌, number_eq, Str, leb, ltb,
}
use group_bridge.Gitlab.Api.{first}

-- The bytes that may stand at a place of a sequence, from the first to the last.
abbrev pub Range : Type 0
Range = ℕ × ℕ

abbrev pub tail : Range
tail = (128, 191)

-- The ranges of the bytes after a leading one. An overlong form, a surrogate and what lies above
-- U+10FFFF have no leading byte or a smaller range.
unfoldable pub after_lead : ℕ → Option (List Range)
after_lead c =
    if ltb c 128
    then some []
    else if leb 194 c && leb c 223
    then some (tail ∷ [])
    else if c == 224
    then some ((160, 191) ∷ tail ∷ [])
    else if c == 237
    then some ((128, 159) ∷ tail ∷ [])
    else if leb 225 c && leb c 239
    then some (tail ∷ tail ∷ [])
    else if c == 240
    then some ((144, 191) ∷ tail ∷ tail ∷ [])
    else if leb 241 c && leb c 243
    then some (tail ∷ tail ∷ tail ∷ [])
    else if c == 244
    then some ((128, 143) ∷ tail ∷ tail ∷ [])
    else none

-- The runes before, the bytes of the present one, and the ranges of those that it lacks.
pub record Decoder : Type 0 where
  pub runes : List Str
  pub part : Str
  pub expected : List Range

abbrev pub extend : List Str → Str → Option (List Range) → Option Decoder
extend done part none = none
extend done part (some []) = some (record { runes = done ++ (part ∷ []); part = []; expected = [] })
extend done part (some (r ∷ rs)) = some (record { runes = done; part = part; expected = r ∷ rs })

abbrev pub rest_of : List Range → ℕ → Option (List Range)
rest_of [] c = after_lead c
rest_of ((low, high) ∷ rs) c = if leb low c && leb c high then some rs else none

unfoldable pub accept : Decoder → ℕ → Option Decoder
accept d c = extend d.runes (d.part ++ (c ∷ [])) (rest_of d.expected c)

unfoldable pub feed : Option Decoder → Str → Option Decoder
feed none s = none
feed (some d) [] = some d
feed (some d) (c ∷ s) = feed (accept d c) s

abbrev pub if_whole : List Range → List Str → Option (List Str)
if_whole [] done = some done
if_whole (r ∷ rs) done = none

abbrev pub complete : Option Decoder → Option (List Str)
complete none = none
complete (some d) = if_whole d.expected d.runes

-- The encoded runes of a string, or `none` where utf8.ValidString is false.
unfoldable pub decode : Str → Option (List Str)
decode s = complete (feed (some (record { runes = []; part = []; expected = [] })) s)

-- unicode.IsSpace of an encoded rune.
unfoldable pub is_space : Str → Bool
is_space (c ∷ []) = (leb 9 c && leb c 13) || c == 32
is_space (c ∷ d ∷ []) = c == 194 && (d == 133 || d == 160)
is_space (c ∷ d ∷ e ∷ []) =
    if c == 225
    then d == 154 && e == 128
    else if c == 226 && d == 128
    then leb e 138 || e == 168 || e == 169 || e == 175
    else if c == 226
    then d == 129 && e == 159
    else c == 227 && d == 128 && e == 128
is_space _ = false

-- unicode.IsControl of an encoded rune.
unfoldable pub is_control : Str → Bool
is_control (c ∷ []) = ltb c 32 || c == 127
is_control (c ∷ d ∷ []) = c == 194 && leb d 159
is_control _ = false

unfoldable pub any_control : List Str → Bool
any_control [] = false
any_control (r ∷ rs) = is_control r || any_control rs

-- The bytes of the white space that a string begins with, if it does.
abbrev pub space_width : (Str → Str) → Str → ℕ
space_width order s =
    if is_space (first 1 s)
    then 1
    else if is_space (order (first 2 s))
    then 2
    else if is_space (order (first 3 s))
    then 3
    else 0

unfoldable pub reversed : Str → Str → Str
reversed [] acc = acc
reversed (c ∷ s) acc = reversed s (c ∷ acc)

abbrev pub backward : Str → Str
backward s = reversed s []

abbrev pub skip_or : ℕ → (ℕ → Str) → Str → Str
skip_or zero next s = s
skip_or (suc k) next s = next k

-- The string after the white space that it begins with, and after so many bytes.
unfoldable pub skip_spaces : (Str → Str) → ℕ → Str → Str
skip_spaces order k [] = []
skip_spaces order (suc k) (c ∷ s) = skip_spaces order k s
skip_spaces order zero (c ∷ s) =
    skip_or (space_width order (c ∷ s)) (λ k. skip_spaces order k s) (c ∷ s)

abbrev pub forward : Str → Str
forward s = s

-- strings.TrimSpace, of any bytes.
unfoldable pub trim_space : Str → Str
trim_space s = backward (skip_spaces backward 0 (backward (skip_spaces forward 0 s)))
