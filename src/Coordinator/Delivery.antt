-- ===== src/Coordinator/Delivery.antt =====
-- Which subscribers get an event, and which get the end marker.
use hermes_voice_console.Prelude.{
  ℕ, ◌+◌, ◌≡◌, refl, ◌∙◌, Bool, true, false, ◌&&◌, not, Option, none, some, List, [], ◌∷◌, ◌++◌,
  arith, length, length-append, if◌then◌else◌, ltb, nat_eq, any, Bool-cases, inl, inr, append_assoc,
  is_some, Option-cases,
}
use hermes_voice_console.Coordinator.{
  Event, Queue, put_nowait, ActiveRun, Queues, write_queue, Coordinator,
}
use hermes_voice_console.Coordinator.Numbering.{fan_out-object}
use hermes_voice_console.Coordinator.Emit.{publish, publish_end, fan_out, is_terminal_event}

abbrev pub mem : ℕ → List ℕ → Bool
mem q qs = any (λ x. nat_eq x q) qs

-- `active.subscribers` is a set.
abbrev pub Distinct : List ℕ → Type 0
Distinct [] = Unit {0}
Distinct (q ∷ qs) = (mem q qs ≡ false) × Distinct qs

-- The queue after `put_nowait`, or as it was if that raises.
abbrev pub offered : Queue → Option Event → Queue
offered q i = elim (put_nowait q i) [ none ↦ q | some q' ↦ q' ]

abbrev takes : Queue → Option Event → Bool
takes q i = is_some (put_nowait q i)

publish_other :
    (h : Queues) (qs : List ℕ) (e : Event) (q : ℕ)
    → mem q qs ≡ false
    → (publish h qs e).0.at q ≡ h.at q
unfolding publish any write_queue
publish_other h [] e q m = refl
publish_other h (x ∷ qs) e q m = elim (Option-cases (put_nowait (h.at x) (some e))) [
  | inl full ↦ rw (full, publish) (publish_other h qs e q (ground arith))
  | inr (new, room) ↦
      rw (room, publish) (publish_other (write_queue h x new) qs e q (ground arith) ∙ ground arith)
]

offered-full : (q : Queue) (i : Option Event) → put_nowait q i ≡ none → offered q i ≡ q
offered-full q i h = rw (h, offered)

offered-room : (q q' : Queue) (i : Option Event) → put_nowait q i ≡ some q' → offered q i ≡ q'
offered-room q q' i h = rw (h, offered)

publish_self :
    (h : Queues) (qs : List ℕ) (e : Event) (q : ℕ)
    → Distinct qs
    → mem q qs ≡ true
    → (publish h qs e).0.at q ≡ offered (h.at q) (some e)
unfolding publish any write_queue
publish_self h [] e q d m = cc
publish_self h (x ∷ qs) e q d m = elim (Option-cases (put_nowait (h.at x) (some e))) [
  | inl full ↦
      rw (full, publish)
        (ground (
          arith,
          publish_other h qs e q,
          offered-full (h.at q) (some e),
          publish_self h qs e q d.1,
        ))
  | inr (new, room) ↦
      rw (room, publish)
        (ground (
          arith,
          publish_other (write_queue h x new) qs e q,
          offered-room (h.at q) new (some e),
          publish_self (write_queue h x new) qs e q d.1,
        ))
]

-- A subscriber stays exactly if its queue took the event.
publish_kept :
    (h : Queues) (qs : List ℕ) (e : Event) (q : ℕ)
    → Distinct qs
    → mem q (publish h qs e).1 ≡ (mem q qs && takes (h.at q) (some e))
unfolding publish any write_queue
publish_kept h [] e q d = refl
publish_kept h (x ∷ qs) e q d = elim (Option-cases (put_nowait (h.at x) (some e))) [
  | inl full ↦ rw (full, publish) (ground (arith, publish_kept h qs e q d.1))
  | inr (new, room) ↦
      rw (room, publish) (ground (arith, publish_kept (write_queue h x new) qs e q d.1))
]

publish_end_other :
    (h : Queues) (qs : List ℕ) (q : ℕ) → mem q qs ≡ false → (publish_end h qs).at q ≡ h.at q
unfolding publish_end any write_queue
publish_end_other h [] q m = refl
publish_end_other h (x ∷ qs) q m = elim (Option-cases (put_nowait (h.at x) none)) [
  | inl full ↦ rw (full, publish_end) (publish_end_other h qs q (ground arith))
  | inr (new, room) ↦
      rw (room, publish_end)
        (publish_end_other (write_queue h x new) qs q (ground arith) ∙ ground arith)
]

publish_end_self :
    (h : Queues) (qs : List ℕ) (q : ℕ)
    → Distinct qs
    → mem q qs ≡ true
    → (publish_end h qs).at q ≡ offered (h.at q) none
unfolding publish_end any write_queue
publish_end_self h [] q d m = cc
publish_end_self h (x ∷ qs) q d m = elim (Option-cases (put_nowait (h.at x) none)) [
  | inl full ↦
      rw (full, publish_end)
        (ground (
          arith,
          publish_end_other h qs q,
          offered-full (h.at q) none,
          publish_end_self h qs q d.1,
        ))
  | inr (new, room) ↦
      rw (room, publish_end)
        (ground (
          arith,
          publish_end_other (write_queue h x new) qs q,
          offered-room (h.at q) new none,
          publish_end_self (write_queue h x new) qs q d.1,
        ))
]

publish-Distinct :
    (h : Queues) (qs : List ℕ) (e : Event) → Distinct qs → Distinct (publish h qs e).1
unfolding publish
publish-Distinct h [] e d = tt
publish-Distinct h (x ∷ qs) e d = elim (Option-cases (put_nowait (h.at x) (some e))) [
  | inl full ↦ rw (full, publish) (publish-Distinct h qs e d.1)
  | inr (new, room) ↦
      rw (room, publish)
        (
          publish_kept (write_queue h x new) qs e x d.1 ∙ rw d.0 refl,
          publish-Distinct (write_queue h x new) qs e d.1,
        )
]

-- The items of a subscriber's queue after an event: a queue with one place left loses the end marker.
abbrev pub after_event : Queue → Event → List (Option Event)
after_event q e =
    if not (ltb (length q.items) q.maxsize)
    then q.items
    else if is_terminal_event e.type && ltb (length q.items + 1) q.maxsize
    then q.items ++ some e ∷ none ∷ []
    else q.items ++ some e ∷ []

offered_twice :
    (q : Queue) (e : Event)
    → is_terminal_event e.type ≡ true
    → (if takes q (some e)
        then (offered (offered q (some e)) none).items
        else (offered q (some e)).items)
      ≡ after_event q e
unfolding put_nowait
offered_twice q e t =
    ground
      (arith, length-append q.items (some e ∷ []), append_assoc q.items (some e ∷ []) (none ∷ []))

offered_once :
    (q : Queue) (e : Event)
    → is_terminal_event e.type ≡ false
    → (offered q (some e)).items ≡ after_event q e
unfolding put_nowait
offered_once q e t = ground arith

end-offered :
    (h : Queues) (qs : List ℕ) (e : Event) (q : ℕ)
    → Distinct qs
    → mem q qs ≡ true
    → (publish_end (publish h qs e).0 (publish h qs e).1).at q ≡ (
        if takes (h.at q) (some e)
        then offered (offered (h.at q) (some e)) none
        else offered (h.at q) (some e))
end-offered h qs e q d m = ground (
  arith,
  publish_self h qs e q d m,
  publish_kept h qs e q d,
  publish-Distinct h qs e d,
  publish_end_self (publish h qs e).0 (publish h qs e).1 q,
  publish_end_other (publish h qs e).0 (publish h qs e).1 q,
)

takes-ltb : (q : Queue) (i : Option Event) → takes q i ≡ ltb (length q.items) q.maxsize
unfolding put_nowait
takes-ltb q i = ground arith

fan_out-queues :
    (c : Coordinator) (a : ℕ) (run : ActiveRun) (e : Event)
    → (fan_out c a run e).queues ≡ (
        if is_terminal_event e.type
        then publish_end
            (publish c.queues run.subscribers e).0
            (publish c.queues run.subscribers e).1
        else (publish c.queues run.subscribers e).0)
unfolding fan_out
fan_out-queues c a run e = ground arith

module _ (c : Coordinator) (a : ℕ) (run : ActiveRun) (e : Event) (q : ℕ)
    (d : Distinct run.subscribers) where
  -- For a run whose subscribers are distinct, the queue of one of them after an event: with a place
  -- left it has the event at its end, and is a subscriber's still; a full queue is as it was, and is
  -- given up. A terminal event is followed by the end marker only if two places were left.
  pub fan_out_subscriber :
      mem q run.subscribers ≡ true
      → (((fan_out c a run e).queues.at q).items ≡ after_event (c.queues.at q) e)
        × (mem q ((fan_out c a run e).object a).subscribers
            ≡ ltb (length (c.queues.at q).items) (c.queues.at q).maxsize)
  fan_out_subscriber m = (
    elim (Bool-cases (is_terminal_event e.type)) [
      | inl t ↦ ground (
        arith,
        fan_out-queues c a run e,
        end-offered c.queues run.subscribers e q d m,
        offered_twice (c.queues.at q) e t,
      )
      | inr t ↦ ground (
        arith,
        fan_out-queues c a run e,
        publish_self c.queues run.subscribers e q d m,
        offered_once (c.queues.at q) e t,
      )
    ],
    ground (
      arith,
      fan_out-object c a run e,
      publish_kept c.queues run.subscribers e q d,
      takes-ltb (c.queues.at q) (some e),
    ),
  )

  -- For a run whose subscribers are distinct: a queue that is none of theirs stays as it is.
  pub fan_out_other :
      mem q run.subscribers ≡ false → (fan_out c a run e).queues.at q ≡ c.queues.at q
  fan_out_other m = ground (
    arith,
    fan_out-queues c a run e,
    publish_other c.queues run.subscribers e q m,
    publish_kept c.queues run.subscribers e q d,
    publish_end_other (publish c.queues run.subscribers e).0 (publish c.queues run.subscribers e).1
        q,
  )
