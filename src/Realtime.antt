-- ===== src/Realtime.antt =====
-- backend/voice_console/realtime: the proxy in front of the Realtime API of Hermes. What the modules
-- share: the exceptions of backend/voice_console/realtime/hermes_client.py and the states of a request.
pub mod Json
pub mod Contracts
pub mod Sanitize
pub mod Responses
pub mod Store
pub mod Service
pub mod Examples
use hermes_voice_console.Prelude.{ℕ, String, Text, codes, ◌++◌, Result, err}

-- `RealtimeProxyError`, without its random correlation id
pub record ProxyError : Type 0 where
  pub code : Text
  pub message : Text
  pub status : ℕ

-- What is raised. `ambiguous_mutation` is `AmbiguousRealtimeMutation`, `type_error` the membership
-- test of a value that has no hash, `attribute_error` the method of a value that has none, `config_error`
-- a target that is not configured.
pub data Exn : Type 0 where
  proxy : ProxyError → Exn
  ambiguous_mutation : Text → Exn
  value_error : Text → Exn
  type_error attribute_error config_error : Exn

abbrev pub proxy_error : String → Text → ℕ → Exn
proxy_error code message status =
    proxy (record { code = codes code; message = message; status = status })

-- `_invalid(subject)`
abbrev pub invalid : Text → Exn
invalid subject =
    proxy_error "invalid_target_response" (codes "Hermes returned an invalid " ++ subject) 502

-- `_mismatch(subject)`
abbrev pub mismatch : String → Exn
mismatch subject =
    proxy_error "target_identity_mismatch" (codes "Hermes returned a mismatched " ++ codes subject)
      502

-- The column `state` of `realtime_requests`.
pub data RequestState : Type 0 where
  pending in_progress outcome_unknown complete : RequestState
