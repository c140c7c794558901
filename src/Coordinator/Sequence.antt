-- ===== src/Coordinator/Sequence.antt =====
-- The buffer of an active run: consecutive sequence numbers that end at the last one.
use hermes_voice_console.Prelude.{
  ℕ, zero, suc, ◌+◌, ◌-◌, ◌≤◌, ◌≡◌, refl, ap, ◌∙◌, sym, subst, List, [], ◌∷◌, ◌++◌, arith, length,
  length-append, length-drop, drop, ltb, select, inl, inr, Bool-cases,
}
use hermes_voice_console.Coordinator.{Event, ActiveRun, push_bounded}

-- The sequence numbers rise by one from `n`.
abbrev pub Consecutive : ℕ → List Event → Type 0
Consecutive n [] = Unit {0}
Consecutive n (e ∷ es) = (e.sequence ≡ n) × Consecutive (suc n) es

-- The events are the last ones up to number `n`.
abbrev pub EndsAt : ℕ → List Event → Type 0
EndsAt n es = (length es ≤ n) × Consecutive (suc (n - length es)) es

-- The buffer holds the last events, within its bound.
pub record IsRecent (a : ActiveRun) : Type 0 where
  pub short : length a.events ≤ a.run_record.last_sequence
  pub within : length a.events ≤ a.max_events
  pub ordered : Consecutive (suc (a.run_record.last_sequence - length a.events)) a.events

pub Consecutive-append :
    (n : ℕ) (es : List Event) (e : Event)
    → Consecutive n es
    → e.sequence ≡ n + length es
    → Consecutive n (es ++ e ∷ [])
Consecutive-append n [] e c h = (omega arith, tt)
Consecutive-append n (x ∷ es) e c h = (c.0, Consecutive-append (suc n) es e c.1 (omega arith))

pub Consecutive-drop :
    (k n : ℕ) (es : List Event) → k ≤ length es → Consecutive n es → Consecutive (n + k) (drop k es)
Consecutive-drop zero n es h c = subst (λ m. Consecutive m es) (omega arith) c
Consecutive-drop (suc k) n [] h c = tt
Consecutive-drop (suc k) n (x ∷ es) h c =
    subst (λ m. Consecutive m (drop k es)) (omega arith)
      (Consecutive-drop k (suc n) es (omega arith) c.1)

pub drop-nil : (k : ℕ) → drop {A = Event} k [] ≡ []
drop-nil zero = refl
drop-nil (suc k) = refl

-- The pending events of a consecutive list are the list without those that were seen.
pub pending-drop :
    (n k : ℕ) (es : List Event)
    → Consecutive (suc n) es
    → select (λ e. ltb k e.sequence) es ≡ drop (k - n) es
unfolding select
pending-drop n k [] c = sym (drop-nil (k - n))
pending-drop n k (x ∷ es) c = elim (Bool-cases (ltb k x.sequence)) [
  | inl new ↦
      let none_seen : k - n ≡ 0 = ground (arith, c.0) in
      let none_left : k - suc n ≡ 0 = omega arith in
      rw (new, none_seen)
        (ap (λ r. x ∷ r) (pending-drop (suc n) k es c.1 ∙ ap (λ m. drop m es) none_left))
  | inr old ↦
      let one_more : k - n ≡ suc (k - suc n) = ground (arith, c.0) in
      rw (old, one_more) (pending-drop (suc n) k es c.1)
]

pub EndsAt-drop : (n k : ℕ) (es : List Event) → k ≤ length es → EndsAt n es → EndsAt n (drop k es)
EndsAt-drop n k es h v =
    let kept : length (drop k es) ≡ length es - k = length-drop k es in
    (
      omega (arith, kept, v.0),
      subst (λ m. Consecutive m (drop k es)) (omega (arith, kept, v.0))
          (Consecutive-drop k (suc (n - length es)) es h v.1),
    )

-- An event with the next number goes to the end, and the oldest leave past the bound.
pub push_bounded_lem :
    (limit n : ℕ) (es : List Event) (e : Event)
    → length es ≤ n
    → Consecutive (suc (n - length es)) es
    → e.sequence ≡ suc n
    → let es' = push_bounded limit es e in
      (length es' ≤ suc n) × (length es' ≤ limit) × Consecutive (suc (suc n - length es')) es'
unfolding push_bounded
push_bounded_lem limit n es e h c q =
    let longer : List Event = es ++ e ∷ [] in
    let k : ℕ = length longer - limit in
    let size : length longer ≡ length es + 1 = length-append es (e ∷ []) in
    let kept : length (drop k longer) ≡ length longer - k = length-drop k longer in
    let whole : Consecutive (suc (n - length es)) longer =
      Consecutive-append (suc (n - length es)) es e c (omega arith) in
    (
      omega (arith, size, kept),
      omega (arith, size, kept),
      subst (λ m. Consecutive m (drop k longer)) (omega (arith, size, kept))
          (Consecutive-drop k (suc (n - length es)) longer (omega (arith, size)) whole),
    )
