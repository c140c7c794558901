-- ===== src/Realtime/Service/Lookup/Requests.antt =====
-- Whose request a looked up result is of.
use hermes_voice_console.Prelude.{
  ℕ, ◌≡◌, refl, true, none, some, [], Text, text_Eq, codes, Result, Yields, bind-Yields,
  Yields-mono, ◌&&◌,
}
use hermes_voice_console.Realtime.{Exn}
use hermes_voice_console.Realtime.Json.{Json, Fields, end, get, is_true, truthy}
use hermes_voice_console.Realtime.Contracts.{validate_identifier, validate_generation}
use hermes_voice_console.Realtime.Responses.{parse_session, parse_request_state}
use hermes_voice_console.Realtime.Responses.Results.{
  Reply, reply_request, undecided, activated, closed, input_accepted, interrupted, rejected,
  committed, discarded, turn_mode_set, approval,
}
use hermes_voice_console.Realtime.Service.{
  Prepared, Mutation, activate, input, interrupt, commit, discard, delete, turn_mode, approve,
}
use hermes_voice_console.Realtime.Service.Replies.{
  AnswersTo, if-Yields, parse_activate_result-AnswersTo, parse_delete_result-AnswersTo,
  parse_input_result-AnswersTo, parse_interrupt_result-AnswersTo,
  parse_manual_audio_commit_result-AnswersTo, parse_manual_audio_discard_result-AnswersTo,
  parse_turn_mode_result-AnswersTo, parse_approval_result-AnswersTo,
}
use hermes_voice_console.Realtime.Service.Lookup.{
  str_of, session_id_of, has_state, rejects, has, result_for, parse_completed,
}

AnswersTo-request :
    (q : Prepared) (d : Fields) (r : Reply) → AnswersTo q d r → reply_request r ≡ q.key.request_id
AnswersTo-request q d (undecided w) h = h.0
AnswersTo-request q d (activated v request) h = h.0
AnswersTo-request q d (closed sid cid request) h = h.0
AnswersTo-request q d (input_accepted request) h = h.0
AnswersTo-request q d (interrupted request sid) h = h.0
AnswersTo-request q d (rejected request operation code) h = h.0
AnswersTo-request q d (committed request sid generation) h = h.0
AnswersTo-request q d (discarded request sid generation) h = h.0
AnswersTo-request q d (turn_mode_set request sid generation mode) h = h.0
AnswersTo-request q d (approval request approval_id state accepted) h = h.0

module _ (show : Json → Text) (d : Fields) (conversation_id request : Text) where
  -- The mutation that a result would be of.
  abbrev asked : Mutation → Text → ℕ → Prepared
  asked mutation session_id generation = record {
    mutation = mutation;
    mapping = record {
      realtime_session_id = session_id;
      conversation_id = conversation_id;
      target_name = [];
      owner_key = [];
      create_request_id = [];
      session_generation = generation;
      state = [];
      last_event_id = none;
      created_at = 0;
      updated_at = 0;
    };
    session_id = session_id;
    key = record { owner_key = []; target_name = []; scope_id = []; request_id = request };
    generation = generation;
    payload = end;
  }

  -- The reply bears the request id.
  abbrev pub IsOfRequest : Reply → Type 0
  IsOfRequest r = reply_request r ≡ request

  of_asked :
      (m : Mutation) (sid : Text) (generation : ℕ) (x : Result Exn Reply)
      → Yields (AnswersTo (asked m sid generation) d) x
      → Yields IsOfRequest x
  of_asked m sid generation x h =
      Yields-mono _ IsOfRequest x (AnswersTo-request (asked m sid generation) d) h

  result_for-IsOfRequest : Yields IsOfRequest (result_for show d conversation_id request)
  result_for-IsOfRequest =
      let sid_of = session_id_of show (get d (codes "realtime_session_id")) in
      let generation_of = validate_generation (get d (codes "session_generation")) in
      let mode = str_of show (get d (codes "turn_mode")) in
      if-Yields IsOfRequest (has d (codes "answer_sdp")) _ _
        (bind-Yields IsOfRequest (parse_session show d (some conversation_id) none true) _
          (λ _ _. refl))
        (if-Yields IsOfRequest
          (has_state d (codes "closed") && truthy (get d (codes "realtime_session_id"))) _ _
          (bind-Yields IsOfRequest sid_of _ (λ sid _.
            of_asked delete sid 0 _ (parse_delete_result-AnswersTo d (asked delete sid 0))))
          (if-Yields IsOfRequest (has d (codes "approval_id")) _ _
            (bind-Yields IsOfRequest
              (validate_identifier (str_of show (get d (codes "approval_id")))
                (codes "approval_id"))
              _
              (λ aid _.
                of_asked (approve aid) [] 0 _
                  (parse_approval_result-AnswersTo d (asked (approve aid) [] 0) aid refl)))
            (if-Yields IsOfRequest (is_true (get d (codes "audio_commit_requested"))) _ _
              (bind-Yields IsOfRequest sid_of _ (λ sid _.
                bind-Yields IsOfRequest generation_of _ (λ g _.
                  of_asked commit sid g _
                    (parse_manual_audio_commit_result-AnswersTo d (asked commit sid g) refl))))
              (if-Yields IsOfRequest (rejects d (codes "manual_audio_commit")) _ _
                (of_asked commit (codes "rejected") 1 _ (
                  parse_manual_audio_commit_result-AnswersTo d (asked commit (codes "rejected") 1)
                    refl))
                (if-Yields IsOfRequest (is_true (get d (codes "audio_discard_requested"))) _ _
                  (bind-Yields IsOfRequest sid_of _ (λ sid _.
                    bind-Yields IsOfRequest generation_of _ (λ g _.
                      of_asked discard sid g _ (
                        parse_manual_audio_discard_result-AnswersTo d (asked discard sid g) refl))))
                  (if-Yields IsOfRequest (rejects d (codes "manual_audio_discard")) _ _
                    (of_asked discard (codes "rejected") 1 _ (
                      parse_manual_audio_discard_result-AnswersTo d
                        (asked discard (codes "rejected") 1) refl))
                    (if-Yields IsOfRequest
                      (has_state d (codes "accepted") && has d (codes "turn_mode")) _ _
                      (bind-Yields IsOfRequest sid_of _ (λ sid _.
                        bind-Yields IsOfRequest generation_of _ (λ g _.
                          of_asked (turn_mode mode) sid g _ (
                            parse_turn_mode_result-AnswersTo d (asked (turn_mode mode) sid g) mode
                              refl))))
                      (if-Yields IsOfRequest (rejects d (codes "turn_mode_update")) _ _
                        (of_asked (turn_mode (codes "rejected")) (codes "rejected") 1 _ (
                          parse_turn_mode_result-AnswersTo d
                            (asked (turn_mode (codes "rejected")) (codes "rejected") 1)
                            (codes "rejected") refl))
                        (if-Yields IsOfRequest (is_true (get d (codes "interrupted"))) _ _
                          (bind-Yields IsOfRequest sid_of _ (λ sid _.
                            of_asked interrupt sid 0 _
                              (parse_interrupt_result-AnswersTo d (asked interrupt sid 0))))
                          (if-Yields IsOfRequest (is_true (get d (codes "accepted"))) _ _
                            (of_asked input [] 0 _
                              (parse_input_result-AnswersTo d (asked input [] 0)))
                            (if-Yields IsOfRequest
                              (truthy (get d (codes "realtime_session_id"))
                                && truthy (get d (codes "session_generation")))
                              _ _
                              (bind-Yields IsOfRequest sid_of _ (λ sid _.
                                of_asked activate sid 0 _
                                  (parse_activate_result-AnswersTo show d (asked activate sid 0))))
                              tt)))))))))))

  pub parse_completed-IsOfRequest :
      Yields IsOfRequest (parse_completed show d conversation_id request)
  unfolding parse_completed
  parse_completed-IsOfRequest =
      bind-Yields IsOfRequest (parse_request_state d request none) _ (λ _ _. result_for-IsOfRequest)
