-- ===== src/Realtime/Responses/Events/Sound.antt =====
-- What a page of events that `parse_events` returns has.
use hermes_voice_console.Prelude.{
  ℕ, ◌≤◌, ◌≡◌, refl, ap, Bool, true, ◌&&◌, List, [], ◌∷◌, Text, text_Eq, text_eq, text_eq_iff, ◌==◌,
  codes, length, ltb, arith, ok, guard, guard_ok, Yields, Yields_ok, bind-Yields, if◌then◌else◌,
}
use hermes_voice_console.Realtime.Json.{
  Json, null, boolean, integer, negative, decimal, text, array, object, Items, nil, cons, Fields,
  end, get, has_key, items_length, equals_text, absent_or, truthy,
}
use hermes_voice_console.Realtime.Sanitize.Clean.{IsClean, safe-IsClean}
use hermes_voice_console.Realtime.Responses.{id_of}
use hermes_voice_console.Realtime.Responses.Sound.{IsId, refuse-Yields, id_of-IsId}
use hermes_voice_console.Realtime.Responses.Events.{
  EventView, EventsView, list_of, short_text, check_payload, payload_of, parse_event, parse_each,
  is_cursor, check_id, parse_events,
}

pub equals_text_ok : (v : Json) (t : Text) → equals_text v t ≡ true → v ≡ text t
equals_text_ok (text u) t h = ap text ((text_eq_iff u t).0 h)
equals_text_ok null t h = cc
equals_text_ok (boolean b) t h = cc
equals_text_ok (integer n) t h = cc
equals_text_ok (negative n) t h = cc
equals_text_ok (decimal w l) t h = cc
equals_text_ok (array vs) t h = cc
equals_text_ok (object d) t h = cc

-- A text that is not empty and has 128 characters at most.
abbrev pub IsShort : Json → Text → Type 0
IsShort v t = (v ≡ text t) × (1 ≤ length t) × (length t ≤ 128)

pub short_text-IsShort : (subject : Text) (v : Json) → Yields (IsShort v) (short_text subject v)
unfolding text_eq
short_text-IsShort subject (text []) = tt
short_text-IsShort subject (text (c ∷ u)) =
    refuse-Yields (IsShort (text (c ∷ u))) (ltb 128 (length (c ∷ u))) _ (c ∷ u)
      (λ e. (refl, omega arith, ground arith))
short_text-IsShort subject null = tt
short_text-IsShort subject (boolean b) = tt
short_text-IsShort subject (integer n) = tt
short_text-IsShort subject (negative n) = tt
short_text-IsShort subject (decimal w l) = tt
short_text-IsShort subject (array vs) = tt
short_text-IsShort subject (object d) = tt

abbrev pub IsListWithin : ℕ → Json → Items → Type 0
IsListWithin limit v vs = (v ≡ array vs) × (items_length vs ≤ limit)

pub list_of-IsListWithin :
    (limit : ℕ) (subject : Text) (v : Json)
    → Yields (IsListWithin limit v) (list_of limit subject v)
list_of-IsListWithin limit subject (array us) =
    refuse-Yields (IsListWithin limit (array us)) (ltb limit (items_length us)) _ us
      (λ e. (refl, ground arith))
list_of-IsListWithin limit subject null = tt
list_of-IsListWithin limit subject (boolean b) = tt
list_of-IsListWithin limit subject (integer n) = tt
list_of-IsListWithin limit subject (negative n) = tt
list_of-IsListWithin limit subject (decimal w l) = tt
list_of-IsListWithin limit subject (text t) = tt
list_of-IsListWithin limit subject (object d) = tt

-- An event that is passed on shows an event of Hermes: one of the conversation, under its own id and
-- type. Its payload is clean.
abbrev pub Shows : (Text → Text) → Text → Json → EventView → Type 0
Shows lower conversation_id (object d) e =
    IsId (get d (codes "event_id")) e.event_id
    × (get d (codes "conversation_id") ≡ text conversation_id)
    × (e.conversation_id ≡ conversation_id)
    × IsShort (get d (codes "type")) e.event_type
    × IsClean lower 7 e.payload
Shows lower conversation_id _ e = ⊥

-- The events are those of the list, in its order.
abbrev pub ShowEach : (Text → Text) → Text → Items → List EventView → Type 0
ShowEach lower conversation_id nil [] = Unit
ShowEach lower conversation_id (cons v vs) (e ∷ es) =
    Shows lower conversation_id v e × ShowEach lower conversation_id vs es
ShowEach lower conversation_id nil (e ∷ es) = ⊥
ShowEach lower conversation_id (cons v vs) [] = ⊥

payload_of-IsClean : (lower : Text → Text) (v : Json) → IsClean lower 7 (payload_of lower v)
unfolding payload_of
payload_of-IsClean lower v = safe-IsClean lower (if truthy v then v else object end)

parse_event-Shows :
    (lower : Text → Text) (show : Json → Text) (cid sid : Text) (v : Json)
    → Yields (Shows lower cid v) (parse_event lower show cid sid v)
unfolding parse_event
parse_event-Shows lower show cid sid (object d) =
    bind-Yields _ (id_of d (codes "event_id")) _ (λ event_id a.
      bind-Yields _ (guard (equals_text (get d (codes "conversation_id")) cid) _) _ (λ u b.
        bind-Yields _ (absent_or sid (get d (codes "realtime_session_id"))) _ (λ mine _.
          bind-Yields _ (guard mine _) _ (λ _ _.
            bind-Yields _ (short_text (codes "event type") (get d (codes "type"))) _ (λ t c.
              bind-Yields _ (check_payload show cid (payload_of lower (get d (codes "payload")))) _
                (λ _ _. (
                  Yields_ok _ _ event_id (id_of-IsId d (codes "event_id")) a,
                  equals_text_ok _ cid (guard_ok _ _ u b),
                  refl,
                  Yields_ok _ _ t (short_text-IsShort (codes "event type") (get d (codes "type")))
                      c,
                  payload_of-IsClean lower (get d (codes "payload")),
                )))))))
parse_event-Shows lower show cid sid null = tt
parse_event-Shows lower show cid sid (boolean b) = tt
parse_event-Shows lower show cid sid (integer n) = tt
parse_event-Shows lower show cid sid (negative n) = tt
parse_event-Shows lower show cid sid (decimal w l) = tt
parse_event-Shows lower show cid sid (array vs) = tt
parse_event-Shows lower show cid sid (text t) = tt

parse_each-ShowEach :
    (lower : Text → Text) (show : Json → Text) (cid sid : Text) (vs : Items)
    → Yields (ShowEach lower cid vs) (parse_each lower show cid sid vs)
unfolding parse_each
parse_each-ShowEach lower show cid sid nil = tt
parse_each-ShowEach lower show cid sid (cons v vs) =
    bind-Yields _ (parse_event lower show cid sid v) _ (λ e a.
      bind-Yields _ (parse_each lower show cid sid vs) _ (λ es b. (
        Yields_ok _ _ e (parse_event-Shows lower show cid sid v) a,
        Yields_ok _ _ es (parse_each-ShowEach lower show cid sid vs) b,
      )))

-- The cursor is the id of the last event, where there is one.
abbrev pub EndsAt : List EventView → Json → Type 0
EndsAt [] cursor = Unit
EndsAt (e ∷ []) cursor = cursor ≡ text e.event_id
EndsAt (e ∷ f ∷ es) cursor = EndsAt (f ∷ es) cursor

is_cursor-EndsAt :
    (es : List EventView) (cursor : Json) → is_cursor es cursor ≡ true → EndsAt es cursor
unfolding is_cursor
is_cursor-EndsAt [] cursor h = tt
is_cursor-EndsAt (e ∷ []) cursor h = equals_text_ok cursor e.event_id h
is_cursor-EndsAt (e ∷ f ∷ es) cursor h = is_cursor-EndsAt (f ∷ es) cursor h

and_right : (a b : Bool) → (a && b) ≡ true → b ≡ true
and_right a b h = ground arith

abbrev pub IsPage : (Text → Text) → Fields → Text → EventsView → Type 0
IsPage lower d conversation_id r =
    (r.conversation_id ≡ conversation_id)
    × ((raw : Items) × IsListWithin 500 (get d (codes "events")) raw
        × ShowEach lower conversation_id raw r.events)
    × (r.last_event_id ≡ get d (codes "last_event_id"))
    × EndsAt r.events r.last_event_id

parse_events-IsPage :
    (lower : Text → Text) (show : Json → Text) (d : Fields) (cid sid : Text)
    → Yields (IsPage lower d cid) (parse_events lower show d cid sid)
unfolding parse_events
parse_events-IsPage lower show d cid sid =
    bind-Yields _ (id_of d (codes "conversation_id")) _ (λ c _.
      bind-Yields _ (guard (c == cid) _) _ (λ _ _.
        bind-Yields _ (list_of 500 (codes "event list") (get d (codes "events"))) _ (λ raw a.
          bind-Yields _ (parse_each lower show cid sid raw) _ (λ es b.
            bind-Yields _
              (guard
                (has_key d (codes "last_event_id") && is_cursor es (get d (codes "last_event_id")))
                _)
              _
              (λ u e.
                bind-Yields _
                  (check_id show (codes "last_event_id") (get d (codes "last_event_id"))) _
                  (λ _ _. (
                    refl,
                    (
                      raw,
                      Yields_ok _ _ raw
                          (list_of-IsListWithin 500 (codes "event list") (get d (codes "events")))
                          a,
                      Yields_ok _ _ es (parse_each-ShowEach lower show cid sid raw) b,
                    ),
                    refl,
                    is_cursor-EndsAt es _ (and_right _ _ (guard_ok _ _ u e)),
                  )))))))

-- A page of events that `parse_events` returns is of the conversation that was asked for. Its events
-- are those of the list of Hermes, 500 at most, in their order: each one belongs to the conversation,
-- keeps its id, which is well formed, and its type, of 1 to 128 characters, and bears a payload that is
-- clean. The cursor is that of Hermes, and the id of the last event where there is one.
pub parse_events_ok :
    (lower : Text → Text) (show : Json → Text) (d : Fields) (conversation_id session_id : Text)
    (r : EventsView)
    → parse_events lower show d conversation_id session_id ≡ ok r
    → IsPage lower d conversation_id r
parse_events_ok lower show d conversation_id session_id r h =
    Yields_ok _ _ r (parse_events-IsPage lower show d conversation_id session_id) h
