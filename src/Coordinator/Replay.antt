-- ===== src/Coordinator/Replay.antt =====
-- What a reader of an active run gets from `_subscribe_active`.
use hermes_voice_console.Prelude.{
  ℕ, zero, suc, ◌+◌, ◌-◌, ◌≤◌, ◌<◌, ◌≡◌, ◌≢◌, refl, ap, sym, ◌∙◌, subst, Bool, true, false, Option,
  some, List, [], ◌∷◌, ◌++◌, arith, length, length-append, length-drop, drop, map, ltb, inl, inr,
  append_assoc, append-nil, ◌⊎◌, length-map,
}
use hermes_voice_console.Coordinator.{Event, Queue, new_queue, put_nowait, ActiveRun}
use hermes_voice_console.Coordinator.Subscribe.{
  put_all, snapshot_of, pending, has_gap, last_62, fill_with, fill_from, replay,
}
use hermes_voice_console.Coordinator.Sequence.{
  IsRecent, pending-drop, drop-nil, EndsAt-drop, EndsAt,
}

-- The events as queue items.
abbrev pub items_of : List Event → List (Option Event)
items_of = map (λ e. some e)

-- A list that fits is put in whole.
put_all_fits :
    (q : Queue) (es : List Event)
    → length q.items + length es ≤ q.maxsize
    → put_all q es ≡ some (record q { items = q.items ++ items_of es })
unfolding put_all put_nowait
put_all_fits q [] h = rw append-nil
put_all_fits q (e ∷ es) h =
    let room : ltb (length q.items) q.maxsize ≡ true = ground arith in
    rw (room, put_all)
      (put_all_fits (record q { items = q.items ++ some e ∷ [] }) es
          (omega (arith, length-append {0} q.items (some e ∷ [])))
        ∙ rw append_assoc)

length-last_62 : (es : List Event) → length (last_62 es) ≤ 62
unfolding last_62
length-last_62 es = omega (arith, length-drop (length es - 62) es)

-- What `fill_with` puts into the queue: the events, or a snapshot and the last 62 of them.
fill_with_plain :
    (a : ActiveRun) (es : List Event)
    → length es ≤ 62
    → fill_with a es false ≡ some (record { maxsize = 64; items = items_of es })
unfolding fill_with
fill_with_plain a es h = put_all_fits (new_queue 64) es (omega arith)

fill_with_gap :
    (a : ActiveRun) (es : List Event)
    → fill_with a es true
      ≡ some
          (record { maxsize = 64; items = some (snapshot_of a.run_record) ∷ items_of (last_62 es) })
unfolding fill_with put_nowait
fill_with_gap a es =
    put_all_fits (record { maxsize = 64; items = some (snapshot_of a.run_record) ∷ [] })
      (last_62 es) (omega (arith, length-last_62 es))

fill_with-some :
    (a : ActiveRun) (es : List Event) (gap : Bool)
    → (gap ≡ false → length es ≤ 62)
    → (q : Queue) × (fill_with a es gap ≡ some q) × (q.maxsize ≡ 64) × (length q.items ≤ 63)
fill_with-some a es false h = (
  record { maxsize = 64; items = items_of es },
  fill_with_plain a es (h refl),
  refl,
  omega (arith, length-map es (λ (e : Event). some e), h refl),
)
fill_with-some a es true h = (
  record { maxsize = 64; items = some (snapshot_of a.run_record) ∷ items_of (last_62 es) },
  fill_with_gap a es,
  refl,
  omega (arith, length-map (last_62 es) (λ (e : Event). some e), length-last_62 es),
)

no_gap-short : (k oldest : ℕ) (es : List Event) → has_gap k oldest es ≡ false → length es ≤ 62
unfolding has_gap
no_gap-short k oldest es h = ground arith

fill_from-some :
    (a : ActiveRun) (k : ℕ) (es : List Event)
    → (q : Queue) × (fill_from a k es ≡ some q) × (q.maxsize ≡ 64) × (length q.items ≤ 63)
unfolding fill_from
fill_from-some a k [] = (new_queue 64, refl, refl, omega arith)
fill_from-some a k (x ∷ rest) =
    fill_with-some a (pending k (x ∷ rest)) _ (no_gap-short k x.sequence (pending k (x ∷ rest)))

-- Whatever the buffer holds and whatever number the reader names, the queue of 64 items takes all that
-- is put into it, with one place left over: `put_nowait` never raises in `_subscribe_active`.
pub replay-some :
    (a : ActiveRun) (k : ℕ)
    → (q : Queue) × (replay a k ≡ some q) × (q.maxsize ≡ 64) × (length q.items ≤ 63)
unfolding replay
replay-some a k = fill_from-some a k a.events

-- What a reader that has seen the events up to `k` gets of a buffer that ends at `n`: the newest events
-- of the buffer, behind a snapshot or not. Without one they are all that the reader has not seen.
-- With one they are 62 at most: 62, or the whole buffer, or all that the reader has not seen; and
-- then some of those it missed are out of reach, or they are more than 62.
pub record Replayed (a : ActiveRun) (k n : ℕ) (q : Queue) : Type 0 where
  pub older : ℕ
  pub last : EndsAt n (drop older a.events)
  pub complete :
      let events : List Event = drop older a.events in
      ((q.items ≡ items_of events) × (n - length events ≡ k))
      ⊎ ((q.items ≡ some (snapshot_of a.run_record) ∷ items_of events)
          × (length events ≤ 62)
          × ((length events ≡ 62) ⊎ ((length events ≡ length a.events) ⊎ (length events ≡ n - k)))
          × ((k + length a.events < n) ⊎ (62 < n - k)))

drop-drop : (i j : ℕ) (es : List Event) → drop i (drop j es) ≡ drop (j + i) es
drop-drop i zero es = ap (λ m. drop m es) (omega arith)
drop-drop i (suc j) [] = drop-nil i ∙ sym (drop-nil (suc j + i))
drop-drop i (suc j) (x ∷ es) =
    let same : suc (j + i) ≡ suc j + i = omega arith in
    drop-drop i j es ∙ ap (λ m. drop m (x ∷ es)) same

module _ (a : ActiveRun) (k n : ℕ) (x : Event) (rest : List Event) (v : EndsAt n (x ∷ rest))
    (seen : 0 < k) (known : k ≤ n) (whole : a.events ≡ x ∷ rest) where
  -- How many events of the buffer the reader has seen.
  abbrev past : ℕ
  past = k - (n - length (x ∷ rest))

  abbrev unseen : List Event
  unseen = drop past (x ∷ rest)

  length-unseen : length unseen ≡ length (x ∷ rest) - past
  length-unseen = length-drop past (x ∷ rest)

  unseen-EndsAt : EndsAt n unseen
  unseen-EndsAt = EndsAt-drop n past (x ∷ rest) (omega (arith, v.0, known)) v

  newest : (i : ℕ) → drop i unseen ≡ drop (past + i) a.events
  newest i = drop-drop i past (x ∷ rest) ∙ ap (drop (past + i)) (sym whole)

  plain_Replayed :
      n - length unseen ≡ k
      → length unseen ≤ 62
      → (q : Queue) × (fill_with a unseen false ≡ some q) × Replayed a k n q
  plain_Replayed e h = (
    record { maxsize = 64; items = items_of unseen },
    fill_with_plain a unseen h,
    record {
      older = past + 0;
      last = subst (EndsAt n) (newest 0) unseen-EndsAt;
      complete = inl (ap items_of (newest 0), sym (ap (λ es. n - length es) (newest 0)) ∙ e);
    },
  )

  gap_Replayed :
      (k + length (x ∷ rest) < n) ⊎ (62 < n - k)
      → (q : Queue) × (fill_with a unseen true ≡ some q) × Replayed a k n q
  unfolding last_62
  gap_Replayed lost =
      let size = length-unseen in
      let sent : length (drop (length unseen - 62) unseen) ≡ length unseen - (length unseen - 62) =
        length-drop (length unseen - 62) unseen in
      let same : length (drop (length unseen - 62) unseen)
          ≡ length (drop (past + (length unseen - 62)) a.events) =
        ap length (newest (length unseen - 62)) in
      (
        record {
          maxsize = 64;
          items = some (snapshot_of a.run_record) ∷ items_of (last_62 unseen);
        },
        fill_with_gap a unseen,
        record {
          older = past + (length unseen - 62);
          last =
              subst (EndsAt n) (newest (length unseen - 62))
                (EndsAt-drop n (length unseen - 62) unseen (omega arith) unseen-EndsAt);
          complete = inr (
            ap (λ es. some (snapshot_of a.run_record) ∷ items_of es) (newest (length unseen - 62)),
            omega (arith, sent, same),
            ground (arith, size, sent, same, v.0, ap length whole, known),
            subst (λ m. (k + m < n) ⊎ (62 < n - k)) (sym (ap length whole)) lost,
          );
        },
      )

  fill_unseen :
      (gap : Bool)
      → has_gap k x.sequence unseen ≡ gap
      → (q : Queue) × (fill_with a unseen gap ≡ some q) × Replayed a k n q
  unfolding has_gap
  fill_unseen false g =
      let near : x.sequence ≤ k + 1 = ground arith in
      let few : length unseen ≤ 62 = ground arith in
      plain_Replayed (omega (arith, length-unseen, v.1.0, v.0, near)) few
  fill_unseen true g = gap_Replayed (ground (arith, length-unseen, v.1.0, v.0, seen, known))

fill_from-Replayed :
    (a : ActiveRun) (k : ℕ)
    → IsRecent a
    → 0 < k
    → k ≤ a.run_record.last_sequence
    → (es : List Event) → a.events ≡ es
    → es ≢ []
    → (q : Queue) × (fill_from a k es ≡ some q) × Replayed a k a.run_record.last_sequence q
unfolding fill_from pending
fill_from-Replayed a k v seen known [] e h = absurd (h refl)
fill_from-Replayed a k v seen known (x ∷ rest) e h =
    let n : ℕ = a.run_record.last_sequence in
    let ends : EndsAt n (x ∷ rest) = subst (EndsAt n) e (v.short, v.ordered) in
    rw (pending-drop (n - length (x ∷ rest)) k (x ∷ rest) ends.1)
      (fill_unseen a k n x rest ends seen known e _ refl)

-- From a recent buffer that is not empty, for a reader that has seen the events 1 to k: either the queue
-- holds the newest events of the buffer, exactly the events k + 1 to the last. Or it begins with a
-- snapshot, behind which stand the newest events of the buffer, in their order: the last 62, or all
-- of the buffer where it has fewer, or all that are new to the reader; and the reader has indeed
-- missed events that the buffer has no more, or more than 62 are new to it.
pub replay-Replayed :
    (a : ActiveRun) (k : ℕ)
    → IsRecent a
    → a.events ≢ []
    → 0 < k
    → k ≤ a.run_record.last_sequence
    → (q : Queue) × (replay a k ≡ some q) × Replayed a k a.run_record.last_sequence q
unfolding replay
replay-Replayed a k v some_events seen known =
    fill_from-Replayed a k v seen known a.events refl some_events
