-- ===== src/Recording/Cancelled.antt =====
-- The bounded record of cancelled turns.
use hermes_voice_console.Prelude.{
  ℕ, ◌+◌, ◌≤◌, ◌<◌, ◌≡◌, refl, true, false, ◌||◌, ◌&&◌, not, ◌∙◌, subst, ◌⊎◌, inl, inr, Option,
  some, List, [], ◌∷◌, ◌++◌, arith, Text, text_Eq, text_eq_iff, length, length-append, ◌==◌, Result,
  ok, err, if◌then◌else◌, text_eq_refl,
}
use hermes_voice_console.Protocol.{validate_turn_id, VoiceProtocolError}
use hermes_voice_console.Protocol.TurnId.{IsTurnId, IsTurnId-ne-nil, validate_turn_id_self}
use hermes_voice_console.Recording.{
  RecordingSession, max_cancelled_turns, has_key, remove_key, put_last, evict, cancel,
  mark_cancelled, is_cancelled, forget_cancel, or_empty,
}

-- No key stands twice.
abbrev pub Distinct : List (Text × ℕ) → Type 0
Distinct [] = Unit {0}
Distinct ((k, v) ∷ d) = (has_key k d ≡ false) × Distinct d

length-evict-le : (n : ℕ) (d : List (Text × ℕ)) → length (evict n d) ≤ n
unfolding evict
length-evict-le n [] = omega arith
length-evict-le n (e ∷ d) = ground (arith, length-evict-le n d)

evict_small : (n : ℕ) (d : List (Text × ℕ)) → length d ≤ n → evict n d ≡ d
unfolding evict
evict_small n [] h = refl
evict_small n (e ∷ d) h = ground arith

has_key-append :
    (k : Text) (d e : List (Text × ℕ)) → has_key k (d ++ e) ≡ (has_key k d || has_key k e)
unfolding has_key
has_key-append k [] e = refl
has_key-append k ((j, w) ∷ d) e = ground (arith, has_key-append k d e)

evict_keeps_last :
    (n : ℕ) (k : Text) (v : ℕ) (d : List (Text × ℕ))
    → 0 < n
    → has_key k (evict n (d ++ (k, v) ∷ [])) ≡ true
unfolding evict has_key
evict_keeps_last n k v [] h = ground (arith, text_eq_refl k)
evict_keeps_last n k v ((j, w) ∷ d) h =
    ground (arith, evict_keeps_last n k v d h, has_key-append k d ((k, v) ∷ []), text_eq_refl k)

evict-Distinct : (n : ℕ) (d : List (Text × ℕ)) → Distinct d → Distinct (evict n d)
unfolding evict
evict-Distinct n [] h = tt
evict-Distinct n ((j, w) ∷ d) h = ground (arith, evict-Distinct n d h.1)

has_key-remove_key :
    (k u : Text) (d : List (Text × ℕ))
    → Distinct d
    → has_key u (remove_key k d) ≡ (if k == u then false else has_key u d)
unfolding has_key remove_key
has_key-remove_key k u [] h = ground arith
has_key-remove_key k u ((j, w) ∷ d) h =
    ground (arith, has_key-remove_key k u d h.1, text_eq_iff j k, text_eq_iff j u, text_eq_iff k u)

remove_key-Distinct : (k : Text) (d : List (Text × ℕ)) → Distinct d → Distinct (remove_key k d)
unfolding remove_key
remove_key-Distinct k [] h = tt
remove_key-Distinct k ((j, w) ∷ d) h =
    ground (arith, remove_key-Distinct k d h.1, has_key-remove_key k j d h.1, text_eq_iff j k)

append_one-Distinct :
    (k : Text) (v : ℕ) (d : List (Text × ℕ))
    → Distinct d
    → has_key k d ≡ false
    → Distinct (d ++ (k, v) ∷ [])
unfolding has_key
append_one-Distinct k v [] h n = (refl, tt)
append_one-Distinct k v ((j, w) ∷ d) h n = ground (
  arith,
  append_one-Distinct k v d h.1,
  has_key-append j d ((k, v) ∷ []),
  text_eq_iff j k,
  text_eq_iff k j,
)

length-remove_key-le : (k : Text) (d : List (Text × ℕ)) → length (remove_key k d) ≤ length d
unfolding remove_key
length-remove_key-le k [] = omega arith
length-remove_key-le k ((j, w) ∷ d) = ground (arith, length-remove_key-le k d)

length-remove_key :
    (k : Text) (d : List (Text × ℕ)) → has_key k d ≡ true → length (remove_key k d) + 1 ≡ length d
unfolding remove_key has_key
length-remove_key k [] h = cc
length-remove_key k ((j, w) ∷ d) h = ground (arith, length-remove_key k d)

remove_key_absent : (k : Text) (d : List (Text × ℕ)) → has_key k d ≡ false → remove_key k d ≡ d
unfolding remove_key has_key
remove_key_absent k [] h = refl
remove_key_absent k ((j, w) ∷ d) h = ground (arith, remove_key_absent k d)

put_last-Distinct :
    (k : Text) (v : ℕ) (d : List (Text × ℕ)) → Distinct d → Distinct (put_last k v d)
unfolding put_last
put_last-Distinct k v d h =
    append_one-Distinct k v (remove_key k d) (remove_key-Distinct k d h)
      (has_key-remove_key k k d h ∙ rw (text_eq_refl k))

has_key-put_last :
    (k u : Text) (v : ℕ) (d : List (Text × ℕ))
    → Distinct d
    → has_key u (put_last k v d) ≡ (k == u || has_key u d)
unfolding put_last
has_key-put_last k u v d h =
    rw has_key-append (unfold has_key in ground (arith, has_key-remove_key k u d h))

-- One more key past the limit drops the head.
put_last-full :
    (t u o : Text) (w now : ℕ) (d : List (Text × ℕ))
    → Distinct ((o, w) ∷ d)
    → has_key t ((o, w) ∷ d) ≡ false
    → length ((o, w) ∷ d) ≡ max_cancelled_turns
    → has_key u (evict max_cancelled_turns (put_last t now ((o, w) ∷ d)))
      ≡ (t == u || (has_key u ((o, w) ∷ d) && not (o == u)))
unfolding put_last
put_last-full t u o w now d old absent size = rw (remove_key_absent t ((o, w) ∷ d) absent) (
    unfold evict has_key in
    ground (
      arith,
      length-append {0} d ((t, now) ∷ []),
      evict_small max_cancelled_turns (d ++ (t, now) ∷ []),
      has_key-append u d ((t, now) ∷ []),
      text_eq_iff o u,
      old.0,
    ))

-- What the recorder keeps of its cancelled turns: each once, and at most 256.
pub record IsBounded (s : RecordingSession) : Type 0 where
  pub distinct : Distinct s.cancelled
  pub few : length s.cancelled ≤ max_cancelled_turns

mark_cancelled-IsBounded :
    (s : RecordingSession) (now : ℕ) (r : Result VoiceProtocolError Text)
    → IsBounded s
    → IsBounded (mark_cancelled s now r).0
unfolding mark_cancelled
mark_cancelled-IsBounded s now (err e) b = b
mark_cancelled-IsBounded s now (ok t) b = ground (
  arith,
  evict-Distinct max_cancelled_turns (put_last t now s.cancelled)
      (put_last-Distinct t now s.cancelled b.distinct),
  length-evict-le max_cancelled_turns (put_last t now s.cancelled),
)

pub cancel-IsBounded :
    (s : RecordingSession) (t : Option Text) (now : ℕ) → IsBounded s → IsBounded (cancel s t now).0
unfolding cancel
cancel-IsBounded s t now b =
    mark_cancelled-IsBounded s now (validate_turn_id (some (or_empty t)) false) b

pub forget_cancel-IsBounded :
    (s : RecordingSession) (t : Text) → IsBounded s → IsBounded (forget_cancel s t)
unfolding forget_cancel
forget_cancel-IsBounded s t b = record {
  distinct = remove_key-Distinct t s.cancelled b.distinct;
  few = omega (arith, length-remove_key-le t s.cancelled);
}

module _ (s : RecordingSession) (t : Text) (now : ℕ) (v : IsTurnId t) where
  cancelled-cancel :
      (cancel s (some t) now).0.cancelled ≡ evict max_cancelled_turns (put_last t now s.cancelled)
  unfolding cancel mark_cancelled
  cancelled-cancel =
      rw (validate_turn_id_self t false v) (ground (arith, text_eq_iff t [], IsTurnId-ne-nil t v))

  -- A turn with a well-formed id that was just cancelled is cancelled, however many others are.
  pub is_cancelled-cancel_self : is_cancelled (cancel s (some t) now).0 t ≡ true
  unfolding is_cancelled
  is_cancelled-cancel_self = rw cancelled-cancel (
      unfold put_last in
      evict_keeps_last max_cancelled_turns t now (remove_key t s.cancelled) (omega arith))

  module _ (b : IsBounded s) where
    length-put_last-le :
        (length s.cancelled < max_cancelled_turns) ⊎ (has_key t s.cancelled ≡ true)
        → length (put_last t now s.cancelled) ≤ max_cancelled_turns
    unfolding put_last
    length-put_last-le (inl room) = omega (
      arith,
      b.few,
      length-append {0} (remove_key t s.cancelled) ((t, now) ∷ []),
      length-remove_key-le t s.cancelled,
    )
    length-put_last-le (inr old) = omega (
      arith,
      b.few,
      length-append {0} (remove_key t s.cancelled) ((t, now) ∷ []),
      length-remove_key t s.cancelled old,
    )

    -- In a session that keeps at most 256 cancelled turns, each once: a well-formed turn id that is
    -- cancelled while fewer than 256 are kept, or while it is among them, joins them, and no turn is
    -- forgotten.
    pub is_cancelled-cancel :
        (u : Text)
        → (length s.cancelled < max_cancelled_turns) ⊎ (is_cancelled s t ≡ true)
        → is_cancelled (cancel s (some t) now).0 u ≡ (t == u || is_cancelled s u)
    unfolding is_cancelled
    is_cancelled-cancel u room =
        rw (cancelled-cancel, evict_small max_cancelled_turns _ (length-put_last-le room))
          (has_key-put_last t u now s.cancelled b.distinct)

    -- In a session that keeps 256 cancelled turns, each once: a well-formed turn id that is not among
    -- them and is cancelled takes the place of the one that was cancelled first, and no other turn is
    -- forgotten.
    pub is_cancelled-cancel_full :
        (u o : Text) (w : ℕ) (d : List (Text × ℕ))
        → s.cancelled ≡ (o, w) ∷ d
        → length s.cancelled ≡ max_cancelled_turns
        → is_cancelled s t ≡ false
        → is_cancelled (cancel s (some t) now).0 u ≡ (t == u || (is_cancelled s u && not (o == u)))
    unfolding is_cancelled
    is_cancelled-cancel_full u o w d e full fresh =
        let old : Distinct ((o, w) ∷ d) = subst Distinct e b.distinct in
        let absent : has_key t ((o, w) ∷ d) ≡ false = subst (λ c. has_key t c ≡ false) e fresh in
        let size : length ((o, w) ∷ d) ≡ max_cancelled_turns =
          subst (λ c. length c ≡ max_cancelled_turns) e full in
        rw (cancelled-cancel, e) (put_last-full t u o w now d old absent size)
