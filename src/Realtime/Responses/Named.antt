-- ===== src/Realtime/Responses/Named.antt =====
-- What a document of Hermes says under its names, where the checks that the parsers of
-- backend/voice_console/realtime/responses.py share let it pass.
use hermes_voice_console.Prelude.{
  ℕ, ◌≡◌, refl, ap, ◌∙◌, inl, inr, Bool, true, false, Option, none, some, Text, text_Eq,
  text_eq_iff, ◌==◌, codes, guard, guard_ok, Yields, bind-Yields, Yields-mono, Yields_ok,
  Bool-cases, ◌>>=◌,
}
use hermes_voice_console.Realtime.{Exn}
use hermes_voice_console.Realtime.Json.{
  Json, null, boolean, integer, negative, decimal, text, array, object, Fields, get, equals_text,
  equals_nat,
}
use hermes_voice_console.Realtime.Responses.{
  id_of, id_text, name_of, operations, operation_of, same_operation,
}
use hermes_voice_console.Realtime.Responses.Sound.{IsNamed, id_text-IsId, name_of-IsNamed}
use hermes_voice_console.Realtime.Responses.Results.{
  same_session, same_generation, parse_closed, parse_approval, approval_states, accepted_of,
}

-- The document has the text under the name.
abbrev pub Names : Fields → Text → Text → Type 0
Names d key t = get d key ≡ text t

pub equals_text_ok : (v : Json) (t : Text) → equals_text v t ≡ true → v ≡ text t
equals_text_ok (text u) t h = ap text ((text_eq_iff u t).0 h)
equals_text_ok null t h = cc
equals_text_ok (boolean b) t h = cc
equals_text_ok (integer n) t h = cc
equals_text_ok (negative n) t h = cc
equals_text_ok (decimal w l) t h = cc
equals_text_ok (array vs) t h = cc
equals_text_ok (object d) t h = cc

-- What holds where a check is passed.
guard-Yields :
    (P : Type 0) (b : Bool) (e : Exn) → (b ≡ true → P) → Yields (λ (u : Unit {0}). P) (guard b e)
guard-Yields P true e h = h refl
guard-Yields P false e h = tt

-- An id that is the expected one.
expected_id-Names :
    (d : Fields) (key t : Text) (e : Exn)
    → Yields (λ (u : Unit {0}). Names d key t) (id_of d key >>= λ sid. guard (sid == t) e)
unfolding id_of
expected_id-Names d key t e = bind-Yields _ (id_text key (get d key)) _ (λ sid h.
    guard-Yields (Names d key t) (sid == t) e (λ g.
      let (is_text, _) = Yields_ok _ _ sid (id_text-IsId key (get d key)) h in
      is_text ∙ ap text ((text_eq_iff sid t).0 g)))

pub same_session-Names :
    (d : Fields) (sid : Text)
    → Yields (λ (u : Unit {0}). Names d (codes "realtime_session_id") sid) (same_session d sid)
unfolding same_session
same_session-Names d sid = expected_id-Names d (codes "realtime_session_id") sid _

-- The session and its generation.
abbrev pub NamesGeneration : Fields → Text → ℕ → Type 0
NamesGeneration d sid generation =
    Names d (codes "realtime_session_id") sid
    × (equals_nat (get d (codes "session_generation")) generation ≡ true)

pub same_generation-Names :
    (d : Fields) (sid : Text) (generation : ℕ)
    → Yields (λ (u : Unit {0}). NamesGeneration d sid generation) (same_generation d sid generation)
unfolding same_generation
same_generation-Names d sid generation = bind-Yields _ (same_session d sid) _ (λ u e.
    guard-Yields (NamesGeneration d sid generation)
      (equals_nat (get d (codes "session_generation")) generation) _
      (λ g. (Yields_ok _ _ u (same_session-Names d sid) e, g)))

abbrev pub NamesClosed : Fields → Text → Text → Type 0
NamesClosed d conversation_id sid =
    Names d (codes "realtime_session_id") sid
    × Names d (codes "conversation_id") conversation_id
    × Names d (codes "state") (codes "closed")

pub parse_closed-Names :
    (d : Fields) (conversation_id sid : Text)
    → Yields
        (λ (u : Unit {0}). NamesClosed d conversation_id sid)
        (parse_closed d conversation_id sid)
unfolding parse_closed id_of
parse_closed-Names d conversation_id sid = bind-Yields _ (same_session d sid) _ (λ u e.
    bind-Yields _ (id_text (codes "conversation_id") (get d (codes "conversation_id"))) _ (λ cid h.
      bind-Yields _ (guard (cid == conversation_id) _) _ (λ u' g.
        guard-Yields (NamesClosed d conversation_id sid)
          (equals_text (get d (codes "state")) (codes "closed")) _
          (λ k. (
            Yields_ok _ _ u (same_session-Names d sid) e,
            (Yields_ok _ _ cid (id_text-IsId (codes "conversation_id") _) h).0
                ∙ ap text ((text_eq_iff cid conversation_id).0 (guard_ok _ _ u' g)),
            equals_text_ok _ (codes "closed") k,
          )))))

pub parse_approval-Names :
    (d : Fields) (approval_id : Text)
    → Yields
        (λ (state : Text).
          Names d (codes "approval_id") approval_id × Names d (codes "state") state)
        (parse_approval d approval_id)
unfolding parse_approval id_of
parse_approval-Names d approval_id =
    bind-Yields _ (id_text (codes "approval_id") (get d (codes "approval_id"))) _ (λ aid h.
      bind-Yields _ (guard (aid == approval_id) _) _ (λ u g.
        Yields-mono (IsNamed approval_states (get d (codes "state")))
          (λ (state : Text).
            Names d (codes "approval_id") approval_id × Names d (codes "state") state)
          _
          (λ (state : Text) k. (
            (Yields_ok _ _ aid (id_text-IsId (codes "approval_id") _) h).0
                ∙ ap text ((text_eq_iff aid approval_id).0 (guard_ok _ _ u g)),
            k.0,
          ))
          (name_of-IsNamed approval_states _ (get d (codes "state")))))

pub accepted_of-boolean : (v : Json) → Yields (λ (b : Bool). v ≡ boolean b) (accepted_of v)
accepted_of-boolean (boolean b) = refl
accepted_of-boolean null = tt
accepted_of-boolean (text t) = tt
accepted_of-boolean (integer n) = tt
accepted_of-boolean (negative n) = tt
accepted_of-boolean (decimal w l) = tt
accepted_of-boolean (array vs) = tt
accepted_of-boolean (object d) = tt

-- The operation of a request that is not decided, where the document names one: the expected one.
abbrev pub IsOperation : Json → Text → Option Text → Type 0
IsOperation v operation none = v ≡ null
IsOperation v operation (some o) = (v ≡ text o) × (o ≡ operation)

same_operation-IsOperation :
    (v : Json) (operation t : Text)
    → v ≡ text t
    → Yields (IsOperation v operation) (same_operation (some operation) t)
same_operation-IsOperation v operation t h = elim (Bool-cases (t == operation)) [
  | inl e ↦ rw e (h, (text_eq_iff t operation).0 e)
  | inr e ↦ rw e tt
]

name_of-IsOperation :
    (v : Json) (operation : Text)
    → Yields
        (IsOperation v operation)
        (name_of operations (codes "request operation") v >>= same_operation (some operation))
name_of-IsOperation v operation =
    bind-Yields _ (name_of operations (codes "request operation") v) _ (λ t e.
      same_operation-IsOperation v operation t
        (Yields_ok _ _ t (name_of-IsNamed operations (codes "request operation") v) e).0)

pub operation_of-IsOperation :
    (v : Json) (operation : Text)
    → Yields (IsOperation v operation) (operation_of (some operation) v)
unfolding operation_of
operation_of-IsOperation null operation = refl
operation_of-IsOperation (text t) operation = name_of-IsOperation (text t) operation
operation_of-IsOperation (boolean b) operation = name_of-IsOperation (boolean b) operation
operation_of-IsOperation (integer n) operation = name_of-IsOperation (integer n) operation
operation_of-IsOperation (negative n) operation = name_of-IsOperation (negative n) operation
operation_of-IsOperation (decimal w l) operation = name_of-IsOperation (decimal w l) operation
operation_of-IsOperation (array vs) operation = name_of-IsOperation (array vs) operation
operation_of-IsOperation (object d) operation = name_of-IsOperation (object d) operation
