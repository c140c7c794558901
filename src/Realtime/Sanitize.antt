-- ===== src/Realtime/Sanitize.antt =====
-- `_safe` of backend/voice_console/realtime/responses.py: what of an answer of Hermes reaches the
-- browser. `lower` is Python's `str.lower`.
pub mod Clean
use hermes_voice_console.Prelude.{
  ℕ, suc, Bool, false, ◌||◌, List, [], ◌∷◌, ◌++◌, Text, codes, ltb, take, contains, if◌then◌else◌,
}
use hermes_voice_console.Realtime.Json.{
  Json, null, boolean, integer, negative, decimal, text, array, object, Items, nil, cons, Fields,
  end, field, one_of, take_items,
}

-- `SAFE_PAYLOAD_KEYS`
abbrev pub safe_payload_keys : List Text
safe_payload_keys =
    (codes "type"
      ∷ codes "event_type"
      ∷ codes "event_id"
      ∷ codes "conversation_id"
      ∷ codes "realtime_session_id"
      ∷ codes "worker_job_id"
      ∷ codes "worker_attempt_id"
      ∷ codes "attempt_id"
      ∷ codes "approval_id"
      ∷ codes "artifact_id"
      ∷ codes "tool_call_id"
      ∷ codes "tool_name"
      ∷ codes "name"
      ∷ codes "role"
      ∷ codes "text"
      ∷ codes "delta"
      ∷ codes "status"
      ∷ codes "state"
      ∷ codes "message"
      ∷ codes "choice"
      ∷ codes "choices"
      ∷ codes "accepted"
      ∷ codes "resolved"
      ∷ codes "operation"
      ∷ codes "revision"
      ∷ codes "resulting_revision"
      ∷ codes "attempt_number"
      ∷ codes "model"
      ∷ codes "progress"
      ∷ codes "summary"
      ∷ codes "verification"
      ∷ codes "result"
      ∷ codes "output"
      ∷ codes "error"
      ∷ codes "code"
      ∷ codes "reason"
      ∷ codes "created_at"
      ∷ codes "updated_at"
      ∷ codes "completed_at"
      ∷ codes "expires_at"
      ∷ codes "duration"
      ∷ codes "usage"
      ∷ codes "metadata"
      ∷ codes "payload"
      ∷ codes "content"
      ∷ codes "task"
      ∷ codes "goal"
      ∷ codes "context"
      ∷ codes "path"
      ∷ codes "uri"
      ∷ codes "filename"
      ∷ codes "mime_type"
      ∷ codes "size"
      ∷ codes "queue_position"
      ∷ codes "delivery_state"
      ∷ codes "delivery_id"
      ∷ codes "fanout_count"
      ∷ codes "fanout_rationale"
      ∷ codes "acknowledgement"
      ∷ codes "requires_interrupt"
      ∷ codes "supersedes_attempt_id"
      ∷ codes "delegation_id"
      ∷ codes "command_id"
      ∷ [])

-- The markers of a credential.
abbrev pub markers : List Text
markers =
    codes "sk-"
    ∷ codes "bearer "
    ∷ codes "api_key"
    ∷ codes "authorization"
    ∷ codes "secret"
    ∷ codes "token="
    ∷ []

-- `any(marker in lowered for marker in markers)`
unfoldable pub has_marker : List Text → Text → Bool
has_marker [] t = false
has_marker (m ∷ ms) t = contains m t || has_marker ms t

abbrev pub redacted : Text
redacted = codes "[redacted]"

-- A text: redacted as a whole, or cut.
unfoldable pub safe_text : (Text → Text) → Text → Text
safe_text lower t = if has_marker markers (lower t) then redacted else take 32000 t

-- `depth` is the argument of `_safe`. A list is cut after its items are made safe, which is the same
-- as before.
unfoldable mutual
  pub safe : (Text → Text) → ℕ → Json → Json
  safe lower depth null = null
  safe lower depth (boolean b) = if ltb 6 depth then null else boolean b
  safe lower depth (integer n) = if ltb 6 depth then null else integer n
  safe lower depth (negative n) = if ltb 6 depth then null else negative n
  safe lower depth (decimal w l) = if ltb 6 depth then null else decimal w l
  safe lower depth (text t) = if ltb 6 depth then null else text (safe_text lower t)
  safe lower depth (array vs) =
      let items = safe_items lower (suc depth) vs in
      if ltb 6 depth then null else array (take_items 200 items)
  safe lower depth (object d) =
      let fields = safe_fields lower (suc depth) d in if ltb 6 depth then null else object fields

  pub safe_items : (Text → Text) → ℕ → Items → Items
  safe_items lower depth nil = nil
  safe_items lower depth (cons v vs) = cons (safe lower depth v) (safe_items lower depth vs)

  pub safe_fields : (Text → Text) → ℕ → Fields → Fields
  safe_fields lower depth end = end
  safe_fields lower depth (field k v d) =
      let rest = safe_fields lower depth d in
      let item = safe lower depth v in
      if one_of safe_payload_keys k then field k item rest else rest
