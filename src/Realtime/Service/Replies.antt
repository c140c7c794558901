-- ===== src/Realtime/Service/Replies.antt =====
-- What a reply of a mutation says of the request it answers.
use hermes_voice_console.Prelude.{
  ◌≡◌, refl, ap, sym, Bool, true, false, ◌&&◌, ◌||◌, some, Text, text_Eq, text_eq_iff, ◌==◌, codes,
  Result, guard, guard_ok, Yields, Yields_ok, bind-Yields, arith, Bool-cases, inl, inr,
  if◌then◌else◌,
}
use hermes_voice_console.Realtime.{Exn}
use hermes_voice_console.Realtime.Json.{
  Json, null, boolean, integer, negative, decimal, text, array, object, Fields, get, equals_text,
  is_true, is_false, same_keys,
}
use hermes_voice_console.Realtime.Responses.{parse_request_state, parse_session}
use hermes_voice_console.Realtime.Responses.Results.{
  Reply, undecided, activated, closed, input_accepted, interrupted, rejected, committed, discarded,
  turn_mode_set, approval, parse_activate_result, parse_input_result, parse_interrupt_result,
  parse_manual_audio_commit_result, parse_manual_audio_discard_result, parse_turn_mode_result,
  parse_approval_result, parse_delete_result, parse_closed, same_session, same_generation,
  is_rejected, is_rejection, rejection_keys, parse_approval, accepted_of, rejection,
}
use hermes_voice_console.Realtime.Responses.Sound.{ShownBy, parse_session_ok}
use hermes_voice_console.Realtime.Responses.Named.{
  Names, NamesGeneration, NamesClosed, IsOperation, equals_text_ok, same_session-Names,
  same_generation-Names, parse_closed-Names, parse_approval-Names, accepted_of-boolean,
}
use hermes_voice_console.Realtime.Service.{
  Prepared, commit, discard, turn_mode, approve, operation_name,
}

-- A reply to a mutation, which stands in a document of Hermes. It has what was asked with: the request id
-- and, where it names them, the session, the conversation, the generation, the turn mode, the approval
-- and the operation; and the document names these too.
abbrev pub AnswersTo : Prepared → Fields → Reply → Type 0
AnswersTo q d (undecided w) =
    (w.client_request_id ≡ q.key.request_id)
    × IsOperation (get d (codes "operation")) (operation_name q.mutation) w.operation
AnswersTo q d (activated v request) =
    (request ≡ q.key.request_id)
    × (v.realtime_session_id ≡ q.session_id)
    × (v.conversation_id ≡ q.mapping.conversation_id)
    × (v.state ≡ codes "active")
    × ShownBy d false v
AnswersTo q d (closed sid cid request) =
    (request ≡ q.key.request_id)
    × (sid ≡ q.session_id)
    × (cid ≡ q.mapping.conversation_id)
    × NamesClosed d q.mapping.conversation_id q.session_id
AnswersTo q d (input_accepted request) =
    (request ≡ q.key.request_id)
    × (get d (codes "accepted") ≡ boolean true)
    × Names d (codes "state") (codes "accepted")
AnswersTo q d (interrupted request sid) =
    (request ≡ q.key.request_id)
    × (sid ≡ q.session_id)
    × Names d (codes "realtime_session_id") q.session_id
    × (get d (codes "interrupted") ≡ boolean true)
AnswersTo q d (rejected request operation code) =
    (request ≡ q.key.request_id)
    × (operation ≡ operation_name q.mutation)
    × Names d (codes "operation") operation
    × (get d (codes "accepted") ≡ boolean false)
AnswersTo q d (committed request sid generation) =
    (request ≡ q.key.request_id)
    × (sid ≡ q.session_id)
    × (generation ≡ q.generation)
    × NamesGeneration d q.session_id q.generation
AnswersTo q d (discarded request sid generation) =
    (request ≡ q.key.request_id)
    × (sid ≡ q.session_id)
    × (generation ≡ q.generation)
    × NamesGeneration d q.session_id q.generation
AnswersTo q d (turn_mode_set request sid generation mode) =
    (request ≡ q.key.request_id)
    × (sid ≡ q.session_id)
    × (generation ≡ q.generation)
    × (q.mutation ≡ turn_mode mode)
    × NamesGeneration d q.session_id q.generation
    × Names d (codes "turn_mode") mode
AnswersTo q d (approval request approval_id state accepted) =
    (request ≡ q.key.request_id)
    × (q.mutation ≡ approve approval_id)
    × Names d (codes "approval_id") approval_id
    × Names d (codes "state") state
    × (get d (codes "accepted") ≡ boolean accepted)

is_true_ok : (v : Json) → is_true v ≡ true → v ≡ boolean true
is_true_ok (boolean b) h = ap boolean h
is_true_ok null h = cc
is_true_ok (text t) h = cc
is_true_ok (integer n) h = cc
is_true_ok (negative n) h = cc
is_true_ok (decimal w l) h = cc
is_true_ok (array vs) h = cc
is_true_ok (object d) h = cc

is_false_ok : (v : Json) → is_false v ≡ true → v ≡ boolean false
is_false_ok (boolean true) h = cc
is_false_ok (boolean false) h = refl
is_false_ok null h = cc
is_false_ok (text t) h = cc
is_false_ok (integer n) h = cc
is_false_ok (negative n) h = cc
is_false_ok (decimal w l) h = cc
is_false_ok (array vs) h = cc
is_false_ok (object d) h = cc

-- A rejection of the operation that was asked for.
rejection-AnswersTo :
    (d : Fields) (q : Prepared) (operation code subject : Text)
    → operation ≡ operation_name q.mutation
    → Yields (AnswersTo q d) (rejection d q.key.request_id operation code subject)
unfolding is_rejection
rejection-AnswersTo d q operation code subject h =
    elim (Bool-cases (is_rejection d operation code)) [
      | inl e ↦ rw e (
        refl,
        h,
        equals_text_ok (get d (codes "operation")) operation (ground arith),
        is_false_ok (get d (codes "accepted")) (ground arith),
      )
      | inr e ↦ rw e tt
    ]

pub parse_activate_result-AnswersTo :
    (show : Json → Text) (d : Fields) (q : Prepared)
    → Yields
        (AnswersTo q d)
        (parse_activate_result show d q.mapping.conversation_id q.session_id q.key.request_id)
unfolding parse_activate_result
parse_activate_result-AnswersTo show d q =
    bind-Yields _ (parse_request_state d q.key.request_id (some (codes "activate"))) _ (λ _ _.
      bind-Yields _
        (parse_session show d (some q.mapping.conversation_id) (some q.session_id) false) _
        (λ v e. bind-Yields _ (guard (v.state == codes "active") _) _ (λ u a.
          let (sid, cid, shown) =
            parse_session_ok show d (some q.mapping.conversation_id) (some q.session_id) false v
              e in
          (
            refl,
            (text_eq_iff v.realtime_session_id q.session_id).0 sid,
            (text_eq_iff v.conversation_id q.mapping.conversation_id).0 cid,
            (text_eq_iff v.state (codes "active")).0 (guard_ok _ _ u a),
            shown,
          ))))

pub parse_delete_result-AnswersTo :
    (d : Fields) (q : Prepared)
    → Yields
        (AnswersTo q d)
        (parse_delete_result d q.mapping.conversation_id q.session_id q.key.request_id)
unfolding parse_delete_result
parse_delete_result-AnswersTo d q =
    bind-Yields _ (parse_request_state d q.key.request_id (some (codes "delete"))) _ (λ _ _.
      bind-Yields _ (parse_closed d q.mapping.conversation_id q.session_id) _ (λ u e. (
        refl,
        refl,
        refl,
        Yields_ok _ _ u (parse_closed-Names d q.mapping.conversation_id q.session_id) e,
      )))

pub parse_input_result-AnswersTo :
    (d : Fields) (q : Prepared) → Yields (AnswersTo q d) (parse_input_result d q.key.request_id)
unfolding parse_input_result
parse_input_result-AnswersTo d q =
    bind-Yields _ (parse_request_state d q.key.request_id (some (codes "input"))) _ (λ _ _.
      bind-Yields _
        (guard
          (is_true (get d (codes "accepted"))
            && equals_text (get d (codes "state")) (codes "accepted"))
          _)
        _
        (λ u g.
          let passed = guard_ok _ _ u g in
          (
            refl,
            is_true_ok (get d (codes "accepted")) (ground arith),
            equals_text_ok (get d (codes "state")) (codes "accepted") (ground arith),
          )))

pub parse_interrupt_result-AnswersTo :
    (d : Fields) (q : Prepared)
    → Yields (AnswersTo q d) (parse_interrupt_result d q.session_id q.key.request_id)
unfolding parse_interrupt_result
parse_interrupt_result-AnswersTo d q =
    bind-Yields _ (parse_request_state d q.key.request_id (some (codes "interrupt"))) _ (λ _ _.
      bind-Yields _ (same_session d q.session_id) _ (λ s e.
        bind-Yields _
          (guard
            (is_true (get d (codes "interrupted"))
              && equals_text (get d (codes "state")) (codes "accepted"))
            _)
          _
          (λ u g.
            let passed = guard_ok _ _ u g in
            (
              refl,
              refl,
              Yields_ok _ _ s (same_session-Names d q.session_id) e,
              is_true_ok (get d (codes "interrupted")) (ground arith),
            ))))

pub if-Yields :
    (P : Reply → Type 0) (b : Bool) (x y : Result Exn Reply)
    → Yields P x
    → Yields P y
    → Yields P (if b then x else y)
if-Yields P true x y h k = h
if-Yields P false x y h k = k

pub parse_manual_audio_commit_result-AnswersTo :
    (d : Fields) (q : Prepared)
    → q.mutation ≡ commit
    → Yields
        (AnswersTo q d)
        (parse_manual_audio_commit_result d q.session_id q.generation q.key.request_id)
unfolding parse_manual_audio_commit_result
parse_manual_audio_commit_result-AnswersTo d q e =
    bind-Yields _ (parse_request_state d q.key.request_id (some (codes "manual_audio_commit"))) _
      (λ _ _.
        if-Yields _ (is_rejected d) _ _
          (rejection-AnswersTo d q (codes "manual_audio_commit") (codes "audio_buffer_empty") _
            (ap operation_name (sym e)))
          (bind-Yields _ (same_generation d q.session_id q.generation) _ (λ g k.
            bind-Yields (AnswersTo q d)
              (guard
                (equals_text (get d (codes "state")) (codes "accepted")
                  && is_true (get d (codes "audio_commit_requested"))
                  && is_true (get d (codes "response_requested")))
                _)
              _
              (λ _ _. (
                refl,
                refl,
                refl,
                Yields_ok _ _ g (same_generation-Names d q.session_id q.generation) k,
              )))))

pub parse_manual_audio_discard_result-AnswersTo :
    (d : Fields) (q : Prepared)
    → q.mutation ≡ discard
    → Yields
        (AnswersTo q d)
        (parse_manual_audio_discard_result d q.session_id q.generation q.key.request_id)
unfolding parse_manual_audio_discard_result
parse_manual_audio_discard_result-AnswersTo d q e =
    bind-Yields _ (parse_request_state d q.key.request_id (some (codes "manual_audio_discard"))) _
      (λ _ _.
        if-Yields _ (is_rejected d) _ _
          (rejection-AnswersTo d q (codes "manual_audio_discard") (codes "audio_discard_rejected") _
            (ap operation_name (sym e)))
          (bind-Yields _ (same_generation d q.session_id q.generation) _ (λ g k.
            bind-Yields (AnswersTo q d)
              (guard
                (equals_text (get d (codes "state")) (codes "accepted")
                  && is_true (get d (codes "audio_discard_requested")))
                _)
              _
              (λ _ _. (
                refl,
                refl,
                refl,
                Yields_ok _ _ g (same_generation-Names d q.session_id q.generation) k,
              )))))

pub parse_turn_mode_result-AnswersTo :
    (d : Fields) (q : Prepared) (mode : Text)
    → q.mutation ≡ turn_mode mode
    → Yields
        (AnswersTo q d)
        (parse_turn_mode_result d q.session_id q.generation q.key.request_id mode)
unfolding parse_turn_mode_result
parse_turn_mode_result-AnswersTo d q mode e =
    bind-Yields _ (parse_request_state d q.key.request_id (some (codes "turn_mode_update"))) _
      (λ _ _.
        if-Yields _ (is_rejected d) _ _
          (if-Yields _ (same_keys d rejection_keys) _ _
            (rejection-AnswersTo d q (codes "turn_mode_update") (codes "turn_mode_rejected") _
              (ap operation_name (sym e)))
            tt)
          (bind-Yields _ (same_generation d q.session_id q.generation) _ (λ g k.
            bind-Yields _ (guard (equals_text (get d (codes "turn_mode")) mode) _) _ (λ u m.
              bind-Yields (AnswersTo q d)
                (guard (equals_text (get d (codes "state")) (codes "accepted")) _) _
                (λ _ _. (
                  refl,
                  refl,
                  refl,
                  e,
                  Yields_ok _ _ g (same_generation-Names d q.session_id q.generation) k,
                  equals_text_ok _ mode (guard_ok _ _ u m),
                ))))))

pub parse_approval_result-AnswersTo :
    (d : Fields) (q : Prepared) (approval_id : Text)
    → q.mutation ≡ approve approval_id
    → Yields (AnswersTo q d) (parse_approval_result d approval_id q.key.request_id)
unfolding parse_approval_result
parse_approval_result-AnswersTo d q approval_id e =
    bind-Yields _ (parse_request_state d q.key.request_id (some (codes "approval"))) _ (λ _ _.
      bind-Yields _ (parse_approval d approval_id) _ (λ state h.
        bind-Yields _ (guard (state == codes "resolved" || state == codes "denied") _) _ (λ _ _.
          bind-Yields (AnswersTo q d) (accepted_of (get d (codes "accepted"))) _ (λ b a.
            let (named, stated) = Yields_ok _ _ state (parse_approval-Names d approval_id) h in
            (
              refl,
              e,
              named,
              stated,
              Yields_ok _ _ b (accepted_of-boolean (get d (codes "accepted"))) a,
            )))))
