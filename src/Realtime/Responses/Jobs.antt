-- ===== src/Realtime/Responses/Jobs.antt =====
-- `parse_job` and `parse_job_list` of backend/voice_console/realtime/responses.py: the jobs of the
-- workers. A job is the object that is passed on.
pub mod Sound
use hermes_voice_console.Prelude.{
  ℕ, String, Bool, true, false, not, ◌&&◌, ◌||◌, Option, none, some, List, [], ◌∷◌, Text, text_Eq,
  ◌==◌, codes, nat_eq, Result, ok, err, ◌>>=◌, ◌>>◌, guard, if◌then◌else◌,
}
use hermes_voice_console.Realtime.{Exn, type_error, attribute_error, invalid, mismatch}
use hermes_voice_console.Realtime.Json.{
  Json, null, boolean, integer, negative, decimal, text, array, object, Items, nil, cons, Fields,
  end, field, get, put, one_of, items_length, equals_text, is_null, truthy,
}
use hermes_voice_console.Realtime.Sanitize.{safe}
use hermes_voice_console.Realtime.Responses.{id_of, expected}
use hermes_voice_console.Realtime.Responses.Events.{list_of, check_id}

abbrev pub job_keys : List Text
job_keys =
    (codes "worker_job_id"
      ∷ codes "conversation_key"
      ∷ codes "status"
      ∷ codes "revision"
      ∷ codes "task"
      ∷ codes "lead_model"
      ∷ codes "fanout_count"
      ∷ codes "fanout_rationale"
      ∷ codes "created_at"
      ∷ codes "updated_at"
      ∷ codes "completed_at"
      ∷ codes "completion"
      ∷ codes "delivery_state"
      ∷ codes "delivery_id"
      ∷ codes "queue_position"
      ∷ codes "attempts"
      ∷ codes "artifacts"
      ∷ codes "events"
      ∷ codes "approvals"
      ∷ codes "commands"
      ∷ codes "command_history"
      ∷ [])

-- `{key: _safe(value) for key, value in document.items() if key in allowed}`
unfoldable pub safe_selection : (Text → Text) → List Text → Fields → Fields
safe_selection lower allowed end = end
safe_selection lower allowed (field k v d) =
    let rest = safe_selection lower allowed d in
    if one_of allowed k then field k (safe lower 0 v) rest else rest

-- `isinstance(v, int)`, which `True` is too
abbrev pub is_int : Json → Bool
is_int (integer n) = true
is_int (negative n) = true
is_int (boolean b) = true
is_int _ = false

-- `for item in v`, where `v` is a text or an object
characters : Text → Items
characters [] = nil
characters (c ∷ s) = cons (text (c ∷ [])) (characters s)

keys : Fields → Items
keys end = nil
keys (field k v d) = cons (text k) (keys d)

iterated : Json → Result Exn Items
unfolding characters keys
iterated (array vs) = ok vs
iterated (text t) = ok (characters t)
iterated (object d) = ok (keys d)
iterated _ = err type_error

-- `for item in v or []`
unfoldable pub elements : Json → Result Exn Items
unfolding iterated
elements v = if truthy v then iterated v else ok nil

-- The natural number that a value equals.
abbrev pub natural_of : Json → Option ℕ
natural_of (integer n) = some n
natural_of (boolean true) = some 1
natural_of (boolean false) = some 0
natural_of (decimal w l) = w
natural_of _ = none

abbrev same_natural : Option ℕ → Option ℕ → Bool
same_natural (some m) (some n) = nat_eq m n
same_natural _ _ = false

-- `v == w` for values that have a hash. A negative float is no negative integer here; neither is an
-- id, as its text begins with a sign.
unfoldable pub same_value : Json → Json → Bool
same_value (text t) (text u) = t == u
same_value null null = true
same_value (negative m) (negative n) = nat_eq m n
same_value (decimal none l) (decimal none m) = l == m
same_value v w = same_natural (natural_of v) (natural_of w)

abbrev pub has_hash : Json → Bool
has_hash (array vs) = false
has_hash (object d) = false
has_hash _ = true

unfoldable pub has_value : List Json → Json → Bool
has_value [] v = false
has_value (w ∷ ws) v = same_value w v || has_value ws v

abbrev pub attempt_id : Fields → Json
attempt_id d = get d (codes "worker_attempt_id")

-- The first loop over the attempts: each is an object, and its id is well formed.
unfoldable pub check_attempts : (Json → Text) → Items → Result Exn (Unit {0})
check_attempts show nil = ok tt
check_attempts show (cons (object d) vs) = do
  check_id show (codes "worker_attempt_id") (attempt_id d)
  check_attempts show vs
check_attempts show (cons v vs) = err (invalid (codes "worker attempt"))

abbrev add_id : Json → List Json → Result Exn (List Json)
add_id v ids = if truthy v then (if has_hash v then ok (v ∷ ids) else err type_error) else ok ids

-- `attempt_ids`
unfoldable pub attempt_ids : Items → Result Exn (List Json)
attempt_ids nil = ok []
attempt_ids (cons (object d) vs) = do ids ← attempt_ids vs; add_id (attempt_id d) ids
attempt_ids (cons v vs) = attempt_ids vs

-- `item_attempt is not None and item_attempt not in attempt_ids`
unfoldable pub check_owner : List Json → String → Json → Result Exn (Unit {0})
check_owner ids subject v =
    if is_null v
    then ok tt
    else if not (has_hash v)
    then err type_error
    else guard (has_value ids v) (mismatch subject)

unfoldable pub check_items : List Json → String → String → Items → Result Exn (Unit {0})
check_items ids name subject nil = ok tt
check_items ids name subject (cons (object d) vs) = do
  check_owner ids subject (attempt_id d)
  check_items ids name subject vs
check_items ids name subject (cons v vs) = err (invalid (codes name))

-- `for item in result.get(collection) or []`
unfoldable pub check_collection : List Json → String → String → Json → Result Exn (Unit {0})
check_collection ids name subject v = do vs ← elements v; check_items ids name subject vs

-- The result before the checks.
unfoldable pub job_result : (Text → Text) → Fields → Text → Text → Fields
job_result lower d jid conversation_id =
    put (put (safe_selection lower job_keys d) (codes "worker_job_id") (text jid))
      (codes "conversation_key") (text conversation_id)

unfoldable pub check_job : (Json → Text) → Fields → Result Exn (Unit {0})
check_job show result = do
  guard (is_int (get result (codes "revision"))) (invalid (codes "worker revision"))
  attempts ← elements (get result (codes "attempts"))
  check_attempts show attempts
  ids ← attempt_ids attempts
  check_collection ids "worker events" "worker events attempt" (get result (codes "events"))
  check_collection ids "worker artifacts" "worker artifacts attempt"
      (get result (codes "artifacts"))
  check_collection ids "worker approvals" "worker approvals attempt"
      (get result (codes "approvals"))

unfoldable pub parse_job :
    (Text → Text) → (Json → Text) → Fields → Text → Option Text → Result Exn Fields
parse_job lower show d conversation_id worker_job_id = do
  jid ← id_of d (codes "worker_job_id")
  guard (expected worker_job_id jid) (mismatch "worker job")
  guard (equals_text (get d (codes "conversation_key")) conversation_id)
      (mismatch "worker conversation")
  check_job show (job_result lower d jid conversation_id)
  ok (job_result lower d jid conversation_id)

-- `[parse_job(job, conversation_id=conversation_id) for job in vs]`, where a job that is no
-- object has no `get`
unfoldable pub parse_jobs : (Text → Text) → (Json → Text) → Text → Items → Result Exn (List Fields)
parse_jobs lower show conversation_id nil = ok []
parse_jobs lower show conversation_id (cons (object d) vs) = do
  job ← parse_job lower show d conversation_id none
  jobs ← parse_jobs lower show conversation_id vs
  ok (job ∷ jobs)
parse_jobs lower show conversation_id (cons v vs) = err attribute_error

unfoldable pub parse_job_list :
    (Text → Text) → (Json → Text) → Fields → Text → Result Exn (List Fields)
parse_job_list lower show d conversation_id = do
  guard (equals_text (get d (codes "object")) (codes "list")) (invalid (codes "worker job list"))
  vs ← list_of 200 (codes "worker job list") (get d (codes "data"))
  parse_jobs lower show conversation_id vs
