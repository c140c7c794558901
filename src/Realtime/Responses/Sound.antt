-- ===== src/Realtime/Responses/Sound.antt =====
-- What `parse_session` accepts.
use hermes_voice_console.Prelude.{
  ℕ, ◌≤◌, ◌≡◌, refl, Bool, true, false, not, ◌||◌, Option, none, some, List, Text, text_Eq, ◌==◌,
  arith, codes, ok, err, guard, guard_ok, Yields, bind-Yields, Yields-mono, Yields_ok,
  if◌then◌else◌, Bool-cases, inl, inr, ltb, length, starts_with,
}
use hermes_voice_console.Realtime.{Exn}
use hermes_voice_console.Realtime.Json.{
  Json, null, boolean, integer, negative, decimal, text, array, object, Fields, get, one_of,
}
use hermes_voice_console.Realtime.Contracts.{matches_identifier, validate_identifier}
use hermes_voice_console.Realtime.Responses.{
  id_of, id_text, name_of, generation_of, sdp_of, answer_text, session_states, turn_modes,
  SessionView, parse_session, expected,
}

-- The value is a text that is an identifier.
abbrev pub IsId : Json → Text → Type 0
IsId v t = (v ≡ text t) × (matches_identifier t ≡ true)

pub refuse-Yields :
    {A : Type 0} (P : A → Type 0) (b : Bool) (e : Exn) (a : A)
    → (b ≡ false → P a)
    → Yields P (if b then err e else ok a)
refuse-Yields P true e a h = tt
refuse-Yields P false e a h = h refl

validate_identifier-Yields :
    (t key : Text)
    → Yields (λ (s : Text). (s ≡ t) × (matches_identifier t ≡ true)) (validate_identifier t key)
unfolding validate_identifier
validate_identifier-Yields t key =
    refuse-Yields _ (t == codes "." || t == codes ".." || not (matches_identifier t)) _ t
      (λ e. (refl, ground arith))

valid-IsId : (t u : Text) → (u ≡ t) × (matches_identifier t ≡ true) → IsId (text t) u
valid-IsId t u (e, h) = rw e (refl, h)

pub id_text-IsId : (key : Text) (v : Json) → Yields (IsId v) (id_text key v)
id_text-IsId key (text t) =
    Yields-mono _ (IsId (text t)) (validate_identifier t key) (valid-IsId t)
      (validate_identifier-Yields t key)
id_text-IsId key null = tt
id_text-IsId key (boolean b) = tt
id_text-IsId key (integer n) = tt
id_text-IsId key (negative n) = tt
id_text-IsId key (decimal w l) = tt
id_text-IsId key (array vs) = tt
id_text-IsId key (object d) = tt

abbrev pub IsNamed : List Text → Json → Text → Type 0
IsNamed names v t = (v ≡ text t) × (one_of names t ≡ true)

pub name_of-IsNamed :
    (names : List Text) (subject : Text) (v : Json)
    → Yields (IsNamed names v) (name_of names subject v)
unfolding name_of
name_of-IsNamed names subject (text t) = elim (Bool-cases (one_of names t)) [
  | inl e ↦ rw e (refl, e)
  | inr e ↦ rw e tt
]
name_of-IsNamed names subject null = tt
name_of-IsNamed names subject (boolean b) = tt
name_of-IsNamed names subject (integer n) = tt
name_of-IsNamed names subject (negative n) = tt
name_of-IsNamed names subject (decimal w l) = tt
name_of-IsNamed names subject (array vs) = tt
name_of-IsNamed names subject (object d) = tt

generation_of-Yields : (v : Json) → Yields (λ (n : ℕ). (v ≡ integer n) × (1 ≤ n)) (generation_of v)
unfolding generation_of
generation_of-Yields (integer n) = refuse-Yields _ (ltb n 1) _ n (λ e. (refl, ground arith))
generation_of-Yields (text t) = tt
generation_of-Yields null = tt
generation_of-Yields (boolean b) = tt
generation_of-Yields (negative n) = tt
generation_of-Yields (decimal w l) = tt
generation_of-Yields (array vs) = tt
generation_of-Yields (object d) = tt

-- An SDP answer: text, which begins as SDP does and has 262144 characters at most; none is wanted
-- where the flag is off.
abbrev pub IsAnswer : Bool → Json → Option Text → Type 0
IsAnswer false v o = o ≡ none
IsAnswer true v none = ⊥
IsAnswer true v (some t) = (v ≡ text t) × (starts_with t (codes "v=0") ≡ true) × (length t ≤ 262144)

answer_text-IsAnswer : (v : Json) → Yields (IsAnswer true v) (answer_text v)
answer_text-IsAnswer (text t) =
    refuse-Yields (IsAnswer true (text t))
      (not (starts_with t (codes "v=0")) || ltb 262144 (length t)) _ (some t)
      (λ e. (refl, ground arith, ground arith))
answer_text-IsAnswer null = tt
answer_text-IsAnswer (boolean b) = tt
answer_text-IsAnswer (integer n) = tt
answer_text-IsAnswer (negative n) = tt
answer_text-IsAnswer (decimal w l) = tt
answer_text-IsAnswer (array vs) = tt
answer_text-IsAnswer (object d) = tt

sdp_of-IsAnswer : (b : Bool) (v : Json) → Yields (IsAnswer b v) (sdp_of b v)
unfolding sdp_of
sdp_of-IsAnswer true v = answer_text-IsAnswer v
sdp_of-IsAnswer false v = refl

-- A view shows what the document has under its names, and each value is of its kind.
abbrev pub ShownBy : Fields → Bool → SessionView → Type 0
ShownBy d include_sdp v =
    IsId (get d (codes "realtime_session_id")) v.realtime_session_id
    × IsId (get d (codes "conversation_id")) v.conversation_id
    × ((get d (codes "session_generation") ≡ integer v.session_generation)
        × (1 ≤ v.session_generation))
    × IsNamed session_states (get d (codes "state")) v.state
    × IsNamed turn_modes (get d (codes "turn_mode")) v.turn_mode
    × IsAnswer include_sdp (get d (codes "answer_sdp")) v.answer_sdp

pub id_of-IsId : (d : Fields) (key : Text) → Yields (IsId (get d key)) (id_of d key)
unfolding id_of
id_of-IsId d key = id_text-IsId key (get d key)

pub parse_session-Yields :
    (show : Json → Text) (d : Fields) (conversation_id session_id : Option Text)
    (include_sdp : Bool)
    → Yields
        (λ (v : SessionView).
          (expected session_id v.realtime_session_id ≡ true)
          × (expected conversation_id v.conversation_id ≡ true)
          × ShownBy d include_sdp v)
        (parse_session show d conversation_id session_id include_sdp)
unfolding parse_session
parse_session-Yields show d conversation_id session_id include_sdp =
    bind-Yields _ (id_of d (codes "realtime_session_id")) _ (λ sid a.
      bind-Yields _ (id_of d (codes "conversation_id")) _ (λ cid b.
        bind-Yields _ (guard (expected session_id sid) _) _ (λ u e.
          bind-Yields _ (guard (expected conversation_id cid) _) _ (λ u' e'.
            bind-Yields _ (generation_of (get d (codes "session_generation"))) _ (λ g c.
              bind-Yields _ (name_of session_states (codes "session state") (get d (codes "state")))
                _
                (λ st f.
                  bind-Yields _ (name_of turn_modes (codes "turn mode") (get d (codes "turn_mode")))
                    _
                    (λ m h.
                      bind-Yields _ (sdp_of include_sdp (get d (codes "answer_sdp"))) _ (λ o k. (
                        guard_ok _ _ u e,
                        guard_ok _ _ u' e',
                        (
                          Yields_ok _ _ sid (id_of-IsId d (codes "realtime_session_id")) a,
                          Yields_ok _ _ cid (id_of-IsId d (codes "conversation_id")) b,
                          Yields_ok _ _ g
                              (generation_of-Yields (get d (codes "session_generation"))) c,
                          Yields_ok _ _ st
                              (name_of-IsNamed session_states (codes "session state")
                                (get d (codes "state")))
                              f,
                          Yields_ok _ _ m
                              (name_of-IsNamed turn_modes (codes "turn mode")
                                (get d (codes "turn_mode")))
                              h,
                          Yields_ok _ _ o (sdp_of-IsAnswer include_sdp (get d (codes "answer_sdp")))
                              k,
                        ),
                      )))))))))

-- A session that `parse_session` returns is the expected session of the expected conversation, where
-- one is expected. What it shows stands in the document of Hermes: identifiers that are well formed,
-- a generation of 1 at least, one of the states and one of the turn modes; and the SDP answer, of at
-- most 262144 characters, if and only if it is wanted.
pub parse_session_ok :
    (show : Json → Text) (d : Fields) (conversation_id session_id : Option Text)
    (include_sdp : Bool) (v : SessionView)
    → parse_session show d conversation_id session_id include_sdp ≡ ok v
    → (expected session_id v.realtime_session_id ≡ true)
      × (expected conversation_id v.conversation_id ≡ true)
      × ShownBy d include_sdp v
parse_session_ok show d conversation_id session_id include_sdp v h =
    Yields_ok _ _ v (parse_session-Yields show d conversation_id session_id include_sdp) h
