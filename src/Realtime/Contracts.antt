-- ===== src/Realtime/Contracts.antt =====
-- The checks of backend/voice_console/realtime/contracts.py on what a browser and Hermes send.
use hermes_voice_console.Prelude.{
  ℕ, Bool, false, not, ◌&&◌, ◌||◌, [], ◌∷◌, ◌++◌, Text, text_Eq, ◌==◌, codes, length, leb, ltb,
  nat_eq, strip, starts_with, contains, all_of, Result, ok, err, ◌>>=◌, if◌then◌else◌,
}
use hermes_voice_console.Realtime.{Exn, value_error}
use hermes_voice_console.Realtime.Json.{Json, integer, text, Fields, get}

abbrev pub is_alphanumeric : ℕ → Bool
is_alphanumeric c =
    (leb b'A' c && leb c b'Z') || (leb b'a' c && leb c b'z') || (leb b'0' c && leb c b'9')

-- `[A-Za-z0-9_.:-]`
abbrev pub is_identifier_char : ℕ → Bool
is_identifier_char c =
    is_alphanumeric c || nat_eq c b'_' || nat_eq c b'.' || nat_eq c b':' || nat_eq c b'-'

-- `IDENTIFIER_RE.fullmatch(value)`
unfoldable pub matches_identifier : Text → Bool
matches_identifier [] = false
matches_identifier (c ∷ s) = is_alphanumeric c && all_of is_identifier_char s && leb (length s) 127

unfoldable pub validate_identifier : Text → Text → Result Exn Text
validate_identifier value name =
    if value == codes "." || value == codes ".." || not (matches_identifier value)
    then err (value_error (name ++ codes " contains invalid characters"))
    else ok value

-- The limit in the message is left out: printing a number is not modelled.
abbrev pub nonempty_string : Text → ℕ → Json → Result Exn Text
nonempty_string key maximum (text value) =
    if strip value == []
    then err (value_error (key ++ codes " must be a non-empty string"))
    else if ltb maximum (length value)
    then err (value_error (key ++ codes " exceeds the character limit"))
    else ok value
nonempty_string key maximum _ = err (value_error (key ++ codes " must be a non-empty string"))

unfoldable pub require_nonempty_string : Fields → Text → ℕ → Result Exn Text
require_nonempty_string body key maximum = nonempty_string key maximum (get body key)

unfoldable pub require_identifier : Fields → Text → Result Exn Text
require_identifier body key = do
  value ← require_nonempty_string body key 128
  validate_identifier value key

unfoldable pub validate_generation : Json → Result Exn ℕ
validate_generation (integer n) =
    if ltb n 1
    then err (value_error (codes "session_generation must be a positive integer"))
    else ok n
validate_generation _ = err (value_error (codes "session_generation must be a positive integer"))

unfoldable pub validate_sdp : Text → Result Exn Text
validate_sdp value =
    if not (starts_with value (codes "v=0")) || contains (0 ∷ []) value
    then err (value_error (codes "sdp_offer is not a valid SDP offer"))
    else ok value
