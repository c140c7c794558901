-- ===== src/Protocol/TurnId.antt =====
-- What `validate_turn_id` accepts.
use hermes_voice_console.Prelude.{
  ℕ, ◌≤◌, ◌≡◌, ◌≢◌, refl, Bool, true, not, Option, none, some, [], ◌∷◌, arith, Text, strip,
  is_space, all_of, all_of_mono, strip_self, strip_last, length, ok, text_eq_iff, text_eq_refl,
  text_Eq, sym, ◌∙◌, ap, reverse-reverse, reverse,
}
use hermes_voice_console.Protocol.{
  is_turn_char, is_turn_word, drop_newline, matches_turn_id, stripped, validate_turn_id,
  max_turn_id_len,
}

pub record IsTurnId (t : Text) : Type 0 where
  pub chars : all_of is_turn_char t ≡ true
  pub nonempty : 1 ≤ length t
  pub short : length t ≤ max_turn_id_len

is_turn_word-IsTurnId : (t : Text) → is_turn_word t ≡ true → IsTurnId t
unfolding is_turn_word
is_turn_word-IsTurnId t h = ground arith

turn_char-not-space : (c : ℕ) → is_turn_char c ≡ true → not (is_space c) ≡ true
unfolding is_turn_char is_space
turn_char-not-space c h = ground arith

space_newline : is_space 10 ≡ true
unfolding is_space
space_newline = refl

-- The line feed that `$` lets through is gone after `strip`.
drop_newline-strip : (s r : Text) → reverse (strip s) ≡ r → drop_newline r ≡ strip s
unfolding drop_newline
drop_newline-strip s [] e = ap reverse (sym e) ∙ reverse-reverse (strip s)
drop_newline-strip s (c ∷ r) e =
    ground (arith, strip_last s c r e, ap reverse e, reverse-reverse (strip s), space_newline)

matches_turn_id-strip : (s : Text) → matches_turn_id (strip s) ≡ is_turn_word (strip s)
unfolding matches_turn_id
matches_turn_id-strip s = ground (
  arith,
  drop_newline-strip s (reverse (strip s)) refl,
  ap is_turn_word (drop_newline-strip s (reverse (strip s)) refl),
)

-- An accepted turn id is the stripped text, and it is a turn id.
pub validate_turn_id-IsTurnId :
    (value : Option Text) (t : Text)
    → validate_turn_id value true ≡ ok t
    → IsTurnId t × (t ≡ stripped value)
unfolding validate_turn_id
validate_turn_id-IsTurnId none t h = ground (arith, text_eq_refl [])
validate_turn_id-IsTurnId (some s) t h =
    ground (arith, matches_turn_id-strip s, is_turn_word-IsTurnId (strip s))

pub IsTurnId-ne-nil : (t : Text) → IsTurnId t → t ≢ []
IsTurnId-ne-nil [] v = absurd (omega arith)
IsTurnId-ne-nil (c ∷ t) v = λ e. cc

IsTurnId-matches : (t : Text) → IsTurnId t → matches_turn_id t ≡ true
unfolding matches_turn_id is_turn_word
IsTurnId-matches t v = ground arith

-- A turn id is accepted as it is.
pub validate_turn_id_self :
    (t : Text) (required : Bool) → IsTurnId t → validate_turn_id (some t) required ≡ ok t
unfolding validate_turn_id
validate_turn_id_self t required v =
    let plain : strip t ≡ t = strip_self t (all_of_mono _ _ t turn_char-not-space v.chars) in
    rw plain (ground (arith, IsTurnId-ne-nil t v, text_eq_iff t [], IsTurnId-matches t v))
