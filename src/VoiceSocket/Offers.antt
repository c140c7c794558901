-- ===== src/VoiceSocket/Offers.antt =====
-- The choices of an approval that the socket of backend/voice_console/voice_socket.py shows.
use hermes_voice_console.Prelude.{
  ◌≡◌, refl, ap, ◌∙◌, inl, inr, Bool, true, false, ◌&&◌, text_eq, codes, Bool-cases,
}
use hermes_voice_console.Realtime.Json.{
  boolean, text, array, object, Items, nil, cons, Fields, get, equals_text, is_true,
}
use hermes_voice_console.Realtime.Json.Put.{get-put_self, get-put_other}
use hermes_voice_console.VoiceSocket.Approvals.{
  permitted_choices, allows, safe_approval, safe_approval_event,
}

-- None of the choices is the permanent one.
abbrev pub HasNoAlways : Items → Type 0
HasNoAlways nil = Unit
HasNoAlways (cons v vs) = (equals_text v (codes "always") ≡ false) × HasNoAlways vs

permitted_choices-HasNoAlways : (vs : Items) → HasNoAlways (permitted_choices false vs)
unfolding permitted_choices
permitted_choices-HasNoAlways nil = tt
permitted_choices-HasNoAlways (cons v vs) = elim (Bool-cases (equals_text v (codes "always"))) [
  | inl e ↦ rw e (permitted_choices-HasNoAlways vs)
  | inr e ↦ rw e (e, permitted_choices-HasNoAlways vs)
]

permitted_choices_all : (vs : Items) → permitted_choices true vs ≡ vs
unfolding permitted_choices
permitted_choices_all nil = refl
permitted_choices_all (cons v vs) = elim (Bool-cases (equals_text v (codes "always"))) [
  | inl e ↦ rw e (ap (cons v) (permitted_choices_all vs))
  | inr e ↦ rw e (ap (cons v) (permitted_choices_all vs))
]

-- The choices that stay: all of them where a permanent approval is allowed, else none that is
-- permanent.
abbrev pub Stay : Bool → Items → Items → Type 0
Stay true vs us = us ≡ vs
Stay false vs us = HasNoAlways us

permitted_choices-Stay : (allow : Bool) (vs : Items) → Stay allow vs (permitted_choices allow vs)
permitted_choices-Stay true vs = permitted_choices_all vs
permitted_choices-Stay false vs = permitted_choices-HasNoAlways vs

safe_approval_choices :
    (approval : Fields) (persistent : Bool) (vs : Items)
    → get approval (codes "choices") ≡ array vs
    → get (safe_approval approval persistent) (codes "choices")
      ≡ array (permitted_choices (allows approval persistent) vs)
unfolding safe_approval text_eq
safe_approval_choices approval persistent vs h =
    get-put_other _ (codes "allow_permanent") (codes "choices") _ refl
    ∙ get-put_self approval (codes "choices") _
    ∙ rw h refl

safe_approval_allowed :
    (approval : Fields) (persistent : Bool)
    → get (safe_approval approval persistent) (codes "allow_permanent")
      ≡ boolean (allows approval persistent)
unfolding safe_approval
safe_approval_allowed approval persistent = get-put_self _ (codes "allow_permanent") _

-- A request for an approval whose choices are a list is shown as one that says whether a permanent
-- approval is allowed: where Hermes allows it and the deployment does. Where it is, the choices are
-- those of Hermes; where it is not, none of them is `always`.
pub safe_approval_event-Stay :
    (event approval : Fields) (vs : Items) (persistent : Bool)
    → get event (codes "type") ≡ text (codes "agent.approval.request")
    → get event (codes "approval") ≡ object approval
    → get approval (codes "choices") ≡ array vs
    → (shown : Fields) × ((us : Items) × (get
            (safe_approval_event event persistent)
            (codes "approval")
          ≡ object shown)
        × (get shown (codes "allow_permanent")
            ≡ boolean (is_true (get approval (codes "allow_permanent")) && persistent))
        × (get shown (codes "choices") ≡ array us)
        × Stay (is_true (get approval (codes "allow_permanent")) && persistent) vs us)
unfolding safe_approval_event text_eq allows
safe_approval_event-Stay event approval vs persistent type e h = (
  safe_approval approval persistent,
  (
    permitted_choices (allows approval persistent) vs,
    rw (type, e) (get-put_self event (codes "approval") _),
    safe_approval_allowed approval persistent,
    safe_approval_choices approval persistent vs h,
    permitted_choices-Stay (allows approval persistent) vs,
  ),
)
