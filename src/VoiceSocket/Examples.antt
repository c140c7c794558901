-- ===== src/VoiceSocket/Examples.antt =====
-- A small console of backend/voice_console/voice_socket.py, its socket and frames at concrete inputs.
use hermes_voice_console.Prelude.{
  zero, suc, latest, select, strip, is_space, ◌≡◌, refl, ◌&&◌, inr, true, false, Option, none, some,
  [], ◌∷◌, Text, codes, ok, err, text_eq,
}
use hermes_voice_console.Protocol.{
  protocol_error, conversation_locked, validate_turn_id, matches_turn_id, is_turn_char,
}
use hermes_voice_console.Recording.{recording, VoiceConfig, new_session, discard_recording}
use hermes_voice_console.RunStore.{SessionRecord, RunRecord, running}
use hermes_voice_console.RunStore.Runs.{active_run_for_conversation}
use hermes_voice_console.Realtime.Json.{
  Json, boolean, text, array, object, is_true, Items, nil, cons, Fields, end, field, get, has_key,
}
use hermes_voice_console.VoiceSocket.{send, error, Socket, World}
use hermes_voice_console.VoiceSocket.Step.{◌>>=◌, from, raise_if, get_socket, modify, emit, pure}
use hermes_voice_console.VoiceSocket.Hello.{
  hello, validate_hello, greeted, send_frames, resume, text_or_empty,
}
use hermes_voice_console.VoiceSocket.Messages.{
  cancel_message, owned_message, recording as of_recorder, turn_id_of,
}
use hermes_voice_console.VoiceSocket.Loop.{text as text_in, handle, run, text_frame, message}
use hermes_voice_console.VoiceSocket.Submit.{api, begin_run}
use hermes_voice_console.VoiceSocket.Permitted.{IsStep, IsGrantedIn, handle-IsStep, run_granted}
use hermes_voice_console.VoiceSocket.Locked.{BeginsTurn, handle_locked}
use hermes_voice_console.VoiceSocket.Offers.{Stay, safe_approval_event-Stay}
use hermes_voice_console.VoiceSocket.Approvals.{safe_approval_event}

abbrev owned : SessionRecord
owned = record {
  conversation_id = codes "c1";
  target_name = codes "home";
  hermes_session_id = codes "h1";
  memory_session_key = codes "m1";
  owner_key = codes "k";
  title = codes "t";
  created_at = 1;
  updated_at = 1;
}

abbrev under_way : RunRecord
under_way = record {
  local_turn_id = codes "l1";
  run_id = some (codes "r1");
  target_name = codes "home";
  conversation_id = codes "c1";
  hermes_session_id = codes "h1";
  memory_session_key = codes "m1";
  owner_key = codes "k";
  turn_id = codes "t1";
  status = running;
  last_sequence = 0;
  failure_category = none;
  created_at = 1;
  updated_at = 1;
  terminal_at = none;
}

-- A frame is one character, which stands for its message.
abbrev hello_message : Fields
hello_message = field (codes "type") (text (codes "hello")) (
    field (codes "target") (text (codes "home"))
      (field (codes "conversation_id") (text (codes "c1")) end))

abbrev submit_message_text : Fields
submit_message_text =
    field (codes "type") (text (codes "text.submit"))
      (field (codes "turn_id") (text (codes "t2")) (field (codes "text") (text (codes "hi")) end))

abbrev cancel_other : Fields
cancel_other =
    field (codes "type") (text (codes "recording.cancel"))
      (field (codes "turn_id") (text (codes "t9")) end)

abbrev decoded : Text → Option Json
decoded (zero ∷ _) = some (object hello_message)
decoded (suc zero ∷ _) = some (object submit_message_text)
decoded (suc (suc n) ∷ _) = some (object cancel_other)
decoded [] = none

abbrev world : World
world = record {
  max_ws_text_chars = 10;
  max_input_text_chars = 10;
  speak_replies_default = true;
  allow_persistent_approvals = false;
  now = 5;
  store = record { sessions = owned ∷ []; runs = under_way ∷ [] };
  decode = decoded;
  show = λ v. codes "?";
  lower = λ t. t;
  refresh = λ v. none;
  targets = λ t. ok t;
  owner_key = λ t. codes "k";
  sessions = λ c t. some owned;
  supports = λ t. ok true;
  follow = λ r o v. ok tt;
  approval = λ r d o. ok tt;
  stopping = λ r o. ok tt;
  acknowledging_unknown = λ i o. ok tt;
  acknowledging_unrecoverable = λ i o. ok tt;
  spoken = λ pcm. ok (codes "p", codes "hi");
}

abbrev limits : VoiceConfig
limits = record { max_recording_bytes = 10; max_recording_wall_seconds = 60 }

abbrev fresh : Socket
fresh = record {
  recording_session = new_session limits;
  hello_received = false;
  target = none;
  session = none;
  subscribed_run_id = none;
  timer = none;
  speak_replies = true;
  open_socket = true;
}

abbrev standing : Socket
standing = record fresh {
  hello_received = true;
  target = some (codes "home");
  session = some owned;
}

greeting_runs : (run ((world, text_in (0 ∷ [])) ∷ []) fresh).0.hello_received ≡ true
unfolding run handle text_frame message hello validate_hello greeted send_frames resume
    text_or_empty ◌>>=◌ from raise_if get_socket modify emit pure text_eq get has_key
    active_run_for_conversation latest select
greeting_runs = refl

handle-IsStep_example : IsStep world fresh (handle world (text_in (0 ∷ [])) fresh)
handle-IsStep_example = handle-IsStep world (text_in (0 ∷ [])) fresh

run_granted_example :
    (t : Text) × ((r : SessionRecord) × ((run ((world, text_in (0 ∷ [])) ∷ []) fresh).0.target
        ≡ some t)
      × ((run ((world, text_in (0 ∷ [])) ∷ []) fresh).0.session ≡ some r)
      × IsGrantedIn ((world, text_in (0 ∷ [])) ∷ []) t r)
run_granted_example = run_granted ((world, text_in (0 ∷ [])) ∷ []) fresh refl greeting_runs

begins_turn : BeginsTurn (get submit_message_text (codes "type"))
unfolding get text_eq
begins_turn = inr refl

under_way_active :
    active_run_for_conversation world.store owned.conversation_id (world.owner_key (codes "home"))
    ≡ some under_way
unfolding active_run_for_conversation text_eq latest select
under_way_active = refl

handle_locked_example :
    handle world (text_in (1 ∷ [])) standing
    ≡ (standing, send (error (protocol_error conversation_locked "conversation is locked")) ∷ [])
handle_locked_example =
    handle_locked world standing (1 ∷ []) submit_message_text (codes "home") owned under_way
      (refl, refl, refl) refl refl begins_turn under_way_active

-- A recording that is under way, and its timer.
abbrev recording_now : Socket
recording_now = record standing {
  recording_session = record (new_session limits) {
    state = recording;
    turn_id = some (codes "t1");
  };
  timer = some (codes "t1");
}

-- A message that cancels another turn leaves the recording under way, without its timer.
timer_lost :
    (handle world (text_in (2 ∷ [])) recording_now).0 ≡ record recording_now { timer = none }
unfolding handle text_frame message owned_message cancel_message turn_id_of of_recorder ◌>>=◌ from
    raise_if get_socket modify emit pure text_eq get discard_recording validate_turn_id strip
    is_space matches_turn_id is_turn_char
timer_lost = refl

-- A failure of Hermes is reported as a locked conversation, with its text as it is.
start_failure :
    (begin_run (codes "t1") (err (api (codes "sk-1"))) fresh).1
    ≡ error (record { code = conversation_locked; message = codes "sk-1"; recoverable = true }) ∷ []
unfolding begin_run
start_failure = refl

abbrev asked : Fields
asked =
    field (codes "choices") (array (cons (text (codes "once")) (cons (text (codes "always")) nil)))
      (field (codes "allow_permanent") (boolean true) end)

abbrev request : Fields
request =
    field (codes "type") (text (codes "agent.approval.request"))
      (field (codes "approval") (object asked) end)

request_type : get request (codes "type") ≡ text (codes "agent.approval.request")
unfolding get text_eq
request_type = refl

request_approval : get request (codes "approval") ≡ object asked
unfolding get text_eq
request_approval = refl

asked_choices :
    get asked (codes "choices")
    ≡ array (cons (text (codes "once")) (cons (text (codes "always")) nil))
unfolding get text_eq
asked_choices = refl

safe_approval_event-Stay_example :
    (shown : Fields) × ((us : Items) × (get (safe_approval_event request false) (codes "approval")
        ≡ object shown)
      × (get shown (codes "allow_permanent")
          ≡ boolean (is_true (get asked (codes "allow_permanent")) && false))
      × (get shown (codes "choices") ≡ array us)
      × Stay
          (is_true (get asked (codes "allow_permanent")) && false)
          (cons (text (codes "once")) (cons (text (codes "always")) nil))
          us)
safe_approval_event-Stay_example =
    safe_approval_event-Stay request asked
      (cons (text (codes "once")) (cons (text (codes "always")) nil)) false request_type
      request_approval asked_choices
