-- ===== src/VoiceSocket/Approvals.antt =====
-- `_safe_approval_event` of backend/voice_console/voice_socket.py: which choices of an approval the
-- browser is shown.
use hermes_voice_console.Prelude.{Bool, not, ◌&&◌, ◌||◌, codes, if◌then◌else◌}
use hermes_voice_console.Realtime.Json.{
  Json, boolean, array, object, Items, nil, cons, Fields, get, put, equals_text, is_true,
}

abbrev is_always : Json → Bool
is_always v = equals_text v (codes "always")

-- `[choice for choice in choices if choice != "always" or allow_permanent]`
unfoldable pub permitted_choices : Bool → Items → Items
permitted_choices allow nil = nil
permitted_choices allow (cons v vs) =
    let rest = permitted_choices allow vs in
    if not (is_always v) || allow then cons v rest else rest

abbrev permitted : Bool → Json → Json
permitted allow (array vs) = array (permitted_choices allow vs)
permitted allow v = v

-- `allow_permanent`
unfoldable pub allows : Fields → Bool → Bool
allows approval persistent_enabled =
    is_true (get approval (codes "allow_permanent")) && persistent_enabled

unfoldable pub safe_approval : Fields → Bool → Fields
safe_approval approval persistent_enabled =
    put
      (put approval (codes "choices")
        (permitted (allows approval persistent_enabled) (get approval (codes "choices"))))
      (codes "allow_permanent") (boolean (allows approval persistent_enabled))

abbrev safe_request : Fields → Json → Bool → Fields
safe_request event (object approval) persistent_enabled =
    put event (codes "approval") (object (safe_approval approval persistent_enabled))
safe_request event _ persistent_enabled = event

unfoldable pub safe_approval_event : Fields → Bool → Fields
safe_approval_event event persistent_enabled =
    if equals_text (get event (codes "type")) (codes "agent.approval.request")
    then safe_request event (get event (codes "approval")) persistent_enabled
    else event
