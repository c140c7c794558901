-- ===== src/Protocol.antt =====
-- backend/voice_console/protocol.py: the protocol error, and the checks of the texts that a browser
-- sends. Texts are lists of code points. The frames themselves, which are JSON, are not here.
pub mod TurnId
pub mod Examples
use hermes_voice_console.Prelude.{
  ℕ, String, text_Eq, reverse, not, ◌≡◌, Bool, true, false, ◌&&◌, ◌||◌, Option, none, some, List,
  [], ◌∷◌, ◌++◌, map, Text, codes, strip, is_space, all_of, contains, length, leb, ltb, ◌==◌,
  nat_eq, if◌then◌else◌, Result, ok, err, take,
}

pub data Code : Type 0 where
  bad_turn_id bad_session empty_input input_too_long : Code
  bad_state audio_outside_recording recording_timeout recording_too_large : Code
  turn_mismatch empty_recording no_speech : Code
  bad_json unsupported_version unsupported_mode unsupported_format unsupported_sample_rate : Code
  no_hello frame_too_large duplicate_hello session_required session_not_found : Code
  target_capability_missing conversation_locked bad_run_id bad_approval_decision : Code
  persistent_approval_disabled approval_unavailable unknown_type bad_target target_error : Code
  internal_error stt_unavailable : Code

pub record VoiceProtocolError : Type 0 where
  pub code : Code
  pub message : Text
  pub recoverable : Bool

-- `VoiceProtocolError(code, message)`, with the default of `recoverable`
abbrev pub protocol_error : Code → String → VoiceProtocolError
protocol_error c m = record { code = c; message = codes m; recoverable = true }

abbrev pub max_turn_id_len : ℕ
max_turn_id_len = 128

-- `[A-Za-z0-9_.:-]`
unfoldable pub is_turn_char : ℕ → Bool
is_turn_char c =
    (leb b'A' c && leb c b'Z')
    || (leb b'a' c && leb c b'z')
    || (leb b'0' c && leb c b'9')
    || nat_eq c b'_'
    || nat_eq c b'.'
    || nat_eq c b':'
    || nat_eq c b'-'

-- `[A-Za-z0-9_.:-]{1,128}`, the whole text
unfoldable pub is_turn_word : Text → Bool
is_turn_word s = all_of is_turn_char s && leb 1 (length s) && leb (length s) 128

-- `$` of the expression also matches before a line feed that ends the text.
unfoldable pub drop_newline : Text → Text
drop_newline [] = []
drop_newline (c ∷ r) = if nat_eq c 10 then reverse r else reverse (c ∷ r)

-- `TURN_ID_RE.match(s)`
unfoldable pub matches_turn_id : Text → Bool
unfolding is_turn_word drop_newline
matches_turn_id s = is_turn_word s || is_turn_word (drop_newline (reverse s))

-- `"" if value is None else str(value).strip()`, for a text
unfoldable pub stripped : Option Text → Text
stripped none = []
stripped (some t) = strip t

unfoldable pub validate_turn_id : Option Text → Bool → Result VoiceProtocolError Text
unfolding stripped
validate_turn_id turn_id required =
    let tid = stripped turn_id in
    if tid == []
    then (if required then err (protocol_error bad_turn_id "turn_id is required") else ok [])
    else if ltb max_turn_id_len (length tid)
    then err (protocol_error bad_turn_id "turn_id exceeds 128 chars")
    else if matches_turn_id tid
    then ok tid
    else err (protocol_error bad_turn_id "turn_id has invalid characters (allowed: A-Za-z0-9_.:-)")

-- `f"{field} …"`
abbrev pub field_error : Text → String → VoiceProtocolError
field_error field m = record { code = bad_session; message = field ++ codes m; recoverable = true }

unfoldable pub validate_session_key : Option Text → Text → Result VoiceProtocolError Text
unfolding stripped
validate_session_key value field =
    let text = stripped value in
    if text == []
    then err (field_error field " is required")
    else if ltb 256 (length text)
    then err (field_error field " exceeds 256 chars")
    else if contains (codes "\r") text || contains (codes "\n") text || contains (0 ∷ []) text
    then err (field_error field " contains control characters")
    else ok text

-- The number in the message is left out: printing it is not modelled.
unfoldable pub validate_input_text : Option Text → ℕ → Result VoiceProtocolError Text
unfolding stripped
validate_input_text value max_chars =
    let text = stripped value in
    if text == []
    then err (protocol_error empty_input "message text is required")
    else if ltb max_chars (length text)
    then err (protocol_error input_too_long "message exceeds the limit of characters")
    else ok text

-- `s.split()` in words without white space; `word` holds the current word, backwards.
unfoldable pub split_from : Text → Text → List Text
split_from word [] = if word == [] then [] else reverse word ∷ []
split_from word (c ∷ s) =
    let rest = split_from (if is_space c then [] else c ∷ word) s in
    if is_space c && not (word == []) then reverse word ∷ rest else rest

-- `" ".join(words)`
unfoldable pub join_words : List Text → Text
join_words [] = []
join_words (w ∷ []) = w
join_words (w ∷ v ∷ ws) = w ++ (32 ∷ join_words (v ∷ ws))

abbrev pub secret_markers : List Text
secret_markers =
    codes "sk-" ∷ codes "Bearer " ∷ codes "api_key" ∷ codes "API_KEY" ∷ codes "Authorization" ∷ []

unfoldable pub any_marker : List Text → Text → Bool
any_marker [] s = false
any_marker (m ∷ ms) s = contains m s || any_marker ms s

unfoldable pub sanitize_provider_error : Text → Text
unfolding split_from join_words any_marker
sanitize_provider_error message =
    let text = join_words (split_from [] message) in
    if any_marker secret_markers text
    then codes "provider failed; check server logs and credentials"
    else if take 400 text == []
    then codes "provider failed"
    else take 400 text
