-- ===== src/VoiceFilters.antt =====
-- backend/voice_console/voice_filters.py: how an answer is cut into pieces to be spoken, and which
-- transcripts are dropped. The Markdown that `prepare_tts_sentences` takes out first is not modelled:
-- the pieces are those of the text without it.
pub mod Letters
pub mod Chunks
pub mod Examples
use hermes_voice_console.Prelude.{
  ℕ, zero, suc, ◌+◌, ◌/◌, Bool, true, false, not, ◌&&◌, ◌||◌, Option, none, some, List, [], ◌∷◌,
  ◌++◌, reverse, Text, text_Eq, ◌==◌, codes, length, take, drop, ltb, leb, nat_eq, is_space, strip,
  starts_with, Result, ok, err, if◌then◌else◌,
}
use hermes_voice_console.Protocol.{VoiceProtocolError, protocol_error, no_speech}

-- `re.sub(r"\s+", " ", s)`; `inside` tells that the character before was white space.
unfoldable pub collapse_from : Bool → Text → Text
collapse_from inside [] = []
collapse_from inside (c ∷ s) =
    let within = collapse_from true s in
    let outside = collapse_from false s in
    if is_space c then (if inside then within else b' ' ∷ within) else c ∷ outside

unfoldable pub collapse : Text → Text
unfolding collapse_from
collapse s = collapse_from false s

abbrev is_stop : ℕ → Bool
is_stop c = nat_eq c b'.' || nat_eq c b'!' || nat_eq c b'?'

-- Where the text stands: after a stop, in the white space that follows one, or elsewhere.
pub data Place : Type 0 where
  after_stop in_gap elsewhere : Place

abbrev pub add_to_first : ℕ → List Text → List Text
add_to_first c [] = (c ∷ []) ∷ []
add_to_first c (s ∷ ss) = (c ∷ s) ∷ ss

abbrev pub place_of : ℕ → Place
place_of c = if is_stop c then after_stop else elsewhere

-- `re.split(r"(?<=[.!?])\s+", s)`
unfoldable pub sentences_from : Place → Text → List Text
sentences_from p [] = [] ∷ []
sentences_from after_stop (c ∷ s) =
    let gap = sentences_from in_gap s in
    let rest = sentences_from (place_of c) s in if is_space c then [] ∷ gap else add_to_first c rest
sentences_from in_gap (c ∷ s) =
    let gap = sentences_from in_gap s in
    let rest = sentences_from (place_of c) s in if is_space c then gap else add_to_first c rest
sentences_from elsewhere (c ∷ s) = let rest = sentences_from (place_of c) s in add_to_first c rest

unfoldable pub sentences : Text → List Text
unfolding sentences_from
sentences s = sentences_from elsewhere s

-- `s.rfind(" ", 0, n)`, or nothing for -1
unfoldable pub last_blank : ℕ → Text → Option ℕ
last_blank zero s = none
last_blank (suc n) [] = none
last_blank (suc n) (c ∷ s) = elim (last_blank n s) [
  | some i ↦ some (suc i)
  | none ↦ if nat_eq c b' ' then some 0 else none
]

abbrev split_here : ℕ → Option ℕ → ℕ
split_here limit none = limit
split_here limit (some i) = if ltb i (limit / 2) then limit else i

-- `split_at` of one round
unfoldable pub split_at : ℕ → Text → ℕ
split_at limit s = split_here limit (last_blank (limit + 1) s)

abbrev pub before : List Text → Option (List Text) → Option (List Text)
before ss none = none
before ss (some ts) = some (ss ++ ts)

abbrev pub together : Option (List Text) → Option (List Text) → Option (List Text)
together none o = none
together (some ss) o = before ss o

-- The `while` loop on one sentence, on fuel: nothing if the fuel ends. The last piece is added by the
-- `if` behind the loop.
unfoldable pub split_long : ℕ → ℕ → Text → Option (List Text)
split_long zero limit s = none
split_long (suc fuel) limit s =
    let rest = split_long fuel limit (strip (drop (split_at limit s) s)) in
    if ltb limit (length s)
    then before (strip (take (split_at limit s) s) ∷ []) rest
    else some (if s == [] then [] else s ∷ [])

-- The `for` loop over the sentences, with one round more than a sentence has characters.
unfoldable pub split_all : ℕ → List Text → Option (List Text)
split_all limit [] = some []
split_all limit (s ∷ ss) =
    together (split_long (suc (length (strip s))) limit (strip s)) (split_all limit ss)

-- `prepare_tts_sentences`, from where the text has lost its Markdown
unfoldable pub prepare_tts_sentences : ℕ → ℕ → Text → Option (List Text)
prepare_tts_sentences total_cap sentence_cap s =
    let kept = take total_cap (strip (collapse s)) in
    if kept == [] then some [] else split_all sentence_cap (sentences kept)

abbrev hallucinations : List Text
hallucinations =
    codes "thanks for watching"
    ∷ codes "thank you for watching"
    ∷ codes "please subscribe"
    ∷ codes "like and subscribe"
    ∷ codes "subtitles by the amara org community"
    ∷ []

abbrev is_plain : ℕ → Bool
is_plain c = (leb b'a' c && leb c b'z') || (leb b'0' c && leb c b'9') || nat_eq c b' '

-- `re.sub(r"[^a-z0-9 ]", "", s)`
plain : Text → Text
plain [] = []
plain (c ∷ s) = let rest = plain s in if is_plain c then c ∷ rest else rest

one_text : List Text → Text → Bool
one_text [] s = false
one_text (t ∷ ts) s = t == s || one_text ts s

-- `lower` is Python's `str.lower`
unfoldable pub filter_transcript : (Text → Text) → Text → Result VoiceProtocolError Text
unfolding plain one_text
filter_transcript lower s =
    let cleaned = strip (collapse s) in
    let normalized = strip (plain (lower cleaned)) in
    if cleaned == [] || one_text hallucinations normalized || starts_with normalized (codes "www ")
    then err (protocol_error no_speech "No reliable speech was detected; try again")
    else ok cleaned
