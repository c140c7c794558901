-- ===== src/Lib.antt =====
-- Hermes Voice Console: a model of the Python backend, backend/voice_console.
--
-- The backend stands between browsers and a Hermes target. A browser records a turn or sends text;
-- the backend submits it to Hermes as a run, follows the run's events, keeps what is needed for
-- recovery in SQLite, and fans the events out to the sockets that watch. A second path proxies
-- Realtime voice sessions, with idempotent mutations.
--
-- Parts and files (paths from the repository's root):
--   Prelude, Prelude/*   shared names; texts as lists of code points; results; tables of rows.
--   Protocol, Protocol/TurnId   backend/voice_console/protocol.py: the checks validate_turn_id,
--     validate_session_key, validate_input_text, sanitize_provider_error. validate_hello and
--     parse_json_frame are in VoiceSocket.
--   Recording, Recording/*   backend/voice_console/voice_session.py: RecordingSession, its state
--     machine and its bounded record of cancelled turns. A method returns the session and its result.
--   RunStore, RunStore/*   backend/voice_console/run_store.py: ConsoleStore. The two tables are lists
--     of rows in the order of insertion; the constraints of the schema are checked where SQLite does.
--   SessionManager   backend/voice_console/session_manager.py: history.
--   Coordinator, Coordinator/*   backend/voice_console/run_coordinator.py: RunCoordinator. ActiveRun
--     objects and queues stand in heaps. Emit is _emit and _terminal, Subscribe is _subscribe_active,
--     subscribe and unsubscribe, Start is start, Reconcile is _reconcile and _consume, Control is
--     approve, stop, the acknowledgements and recover.
--   VoiceFilters, VoiceFilters/*   backend/voice_console/voice_filters.py: filter_transcript, and
--     prepare_tts_sentences from where the text has lost its Markdown.
--   VoiceSocket, VoiceSocket/*   backend/voice_console/voice_socket.py: handle_voice_socket as steps on
--     its local variables, one for each frame that comes in. Step is the monad of a handler that may
--     raise, Hello the first message, Messages the others, Loop the loop, Approvals
--     _safe_approval_event, Submit begin_run, recording_timeout and stream_subscription. The recorder
--     is Recording, the lock of a conversation is read from RunStore.
--   Realtime, Realtime/*   backend/voice_console/realtime: Json is the data that Hermes answers with;
--     Contracts the checks of contracts.py but check_realtime_compatibility; Sanitize the filter _safe
--     and Responses the parsers of responses.py: sessions and request states, in Results the results
--     of mutations, in Events, Jobs, Commands and Snapshot what the reading handlers answer; Store the
--     tables of store.py, with Store/Ledger the abstract view of them, a dictionary of requests;
--     Service/Actions session_action, manual_control, resolve_approval and delete_session of
--     service.py, each as `begin` (in Service) up to its wait and `finish` (in Service/Finish) from it
--     on; Service/Creation create_session; Service/Lookup request_result; Service/Events the handlers'
--     atomic parts as they interleave. The handlers that only read and the worker commands of service.py are
--     not modelled.
-- The other modules under a part hold its proofs and its examples.
--
-- State is passed explicitly: an operation takes the state and returns it beside its result, also
-- where it raises. What Hermes answers and the readings of the clock are arguments. A coroutine that
-- waits is cut at its waits; the coordinator's `start` and `consume` and the whole Realtime handlers are
-- composed as if nothing else ran meanwhile, while Realtime/Service/Events has their parts in any order.
--
-- Bounds: _reconcile makes at most 120 attempts, start reads the history three times at most, a
-- reader's queue holds 64 items, the recorder remembers 256 cancelled turns; these are the program's.
-- The loop that cuts a sentence for speech runs on fuel, with one round more than the sentence has
-- characters, since each round leaves fewer. No function runs on other fuel.
--
-- Parameters: Python's `str` of a JSON value, the HMAC of an owner key, the hash of a payload and the
-- configured targets are fields of Proxy in Realtime/Service, on which no theorem has a hypothesis but
-- that two given hashes differ. In VoiceSocket they are fields of World: json.loads, str and str.lower
-- of Python, and what the calls return that the loop waits for; in Sanitize and VoiceFilters str.lower
-- is an argument. No theorem has a hypothesis on them.
--
-- A `last_sequence` is a natural number; the negative ones, which the socket lets through, are left out.
--
-- Not modelled: HTTP and WebSocket transport, JSON texts, HMACs and JWTs, speech services, the file
-- system, configuration, logging, the command line, the test doubles and the TypeScript frontend.
pub mod Prelude
pub mod Protocol
pub mod Recording
pub mod RunStore
pub mod Coordinator
pub mod SessionManager
pub mod VoiceFilters
pub mod VoiceSocket
pub mod Realtime
