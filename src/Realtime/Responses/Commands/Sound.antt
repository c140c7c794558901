-- ===== src/Realtime/Responses/Commands/Sound.antt =====
-- Which acknowledgements of a command `parse_command` takes.
use hermes_voice_console.Prelude.{
  ℕ, ◌≡◌, refl, ap, ◌∙◌, subst, sym, inl, inr, Bool-cases, ◌↔◌, Bool, true, false, List, Text,
  text_Eq, text_eq_iff, text_eq_refl, ◌==◌, codes, ok, guard, guard_ok, Yields, Yields_ok,
  bind-Yields,
}
use mathlib.Core.Bool.{true≢false}
use hermes_voice_console.Realtime.{Exn}
use hermes_voice_console.Realtime.Json.{
  Json, null, boolean, integer, negative, decimal, text, array, object, Fields, get, same_keys,
}
use hermes_voice_console.Realtime.Contracts.{matches_identifier, validate_identifier}
use hermes_voice_console.Realtime.Responses.{id_of, name_of}
use hermes_voice_console.Realtime.Responses.Sound.{id_of-IsId, IsNamed, name_of-IsNamed}
use hermes_voice_console.Realtime.Responses.Commands.{
  natural, command_keys, acknowledgements, command_operations, CommandView, signal_of,
  parse_command,
}

-- The document acknowledges the command of the job, and the view says what it says.
abbrev pub Acknowledges : Fields → Text → Text → CommandView → Type 0
Acknowledges d command_id worker_job_id v =
    (same_keys d command_keys ≡ true)
    × ((get d (codes "command_id") ≡ text command_id) × (matches_identifier command_id ≡ true))
    × ((get d (codes "worker_job_id") ≡ text worker_job_id)
        × (matches_identifier worker_job_id ≡ true))
    × IsNamed acknowledgements (get d (codes "acknowledgement")) v.acknowledgement
    × (get d (codes "revision") ≡ integer v.revision)
    × IsNamed command_operations (get d (codes "operation")) v.operation
    × (get d (codes "control_signal_sent") ≡ boolean v.control_signal_sent)
    × (v.command_id ≡ command_id)
    × (v.worker_job_id ≡ worker_job_id)

natural-Yields : (subject : Text) (v : Json) → Yields (λ (n : ℕ). v ≡ integer n) (natural subject v)
natural-Yields subject (integer n) = refl
natural-Yields subject (text t) = tt
natural-Yields subject null = tt
natural-Yields subject (boolean b) = tt
natural-Yields subject (negative n) = tt
natural-Yields subject (decimal w l) = tt
natural-Yields subject (array vs) = tt
natural-Yields subject (object d) = tt

signal_of-Yields : (v : Json) → Yields (λ (b : Bool). v ≡ boolean b) (signal_of v)
signal_of-Yields (boolean b) = refl
signal_of-Yields (text t) = tt
signal_of-Yields null = tt
signal_of-Yields (integer n) = tt
signal_of-Yields (negative n) = tt
signal_of-Yields (decimal w l) = tt
signal_of-Yields (array vs) = tt
signal_of-Yields (object d) = tt

same_id :
    (d : Fields) (key t u : Text) (a : Unit {0})
    → id_of d key ≡ ok t
    → (e : Exn) → guard (t == u) e ≡ ok a
    → (get d key ≡ text u) × (matches_identifier u ≡ true)
same_id d key t u a h e g =
    let (same, valid) = Yields_ok _ _ t (id_of-IsId d key) h in
    let eq = (text_eq_iff t u).0 (guard_ok _ e a g) in
    (same ∙ ap text eq, subst (λ x. matches_identifier x ≡ true) eq valid)

parse_command_sound :
    (d : Fields) (cid jid : Text) → Yields (Acknowledges d cid jid) (parse_command d cid jid)
unfolding parse_command
parse_command_sound d cid jid = bind-Yields _ (id_of d (codes "command_id")) _ (λ c a.
    bind-Yields _ (guard (c == cid) _) _ (λ u b.
      bind-Yields _ (id_of d (codes "worker_job_id")) _ (λ j a'.
        bind-Yields _ (guard (j == jid) _) _ (λ u' b'.
          bind-Yields _ (guard (same_keys d command_keys) _) _ (λ u'' k.
            bind-Yields _
              (name_of acknowledgements (codes "worker command acknowledgement")
                (get d (codes "acknowledgement")))
              _
              (λ x e.
                bind-Yields _ (natural (codes "worker command revision") (get d (codes "revision")))
                  _
                  (λ n f.
                    bind-Yields _
                      (name_of command_operations (codes "worker command operation")
                        (get d (codes "operation")))
                      _
                      (λ o g.
                        bind-Yields _ (signal_of (get d (codes "control_signal_sent"))) _ (λ s h. (
                          guard_ok _ _ u'' k,
                          same_id d (codes "command_id") c cid u a _ b,
                          same_id d (codes "worker_job_id") j jid u' a' _ b',
                          Yields_ok _ _ x (name_of-IsNamed acknowledgements _ _) e,
                          Yields_ok _ _ n (natural-Yields _ _) f,
                          Yields_ok _ _ o (name_of-IsNamed command_operations _ _) g,
                          Yields_ok _ _ s (signal_of-Yields _) h,
                          refl,
                          refl,
                        ))))))))))

dot : matches_identifier (codes ".") ≡ false
unfolding matches_identifier
dot = refl

dots : matches_identifier (codes "..") ≡ false
unfolding matches_identifier
dots = refl

other_dots :
    {A : Type 0} (u t : Text)
    → t ≡ u
    → matches_identifier u ≡ false
    → matches_identifier t ≡ true
    → A
other_dots u t e h g = absurd (true≢false (sym g ∙ ap matches_identifier e ∙ h))

validated : (t key : Text) → matches_identifier t ≡ true → validate_identifier t key ≡ ok t
unfolding validate_identifier
validated t key h = elim (Bool-cases (t == codes ".")) [
  | inl e ↦ other_dots (codes ".") t ((text_eq_iff t (codes ".")).0 e) dot h
  | inr e ↦ elim (Bool-cases (t == codes "..")) [
    | inl f ↦ other_dots (codes "..") t ((text_eq_iff t (codes "..")).0 f) dots h
    | inr f ↦ rw (e, f, h) refl
  ]
]

identified :
    (d : Fields) (key t : Text)
    → get d key ≡ text t
    → matches_identifier t ≡ true
    → id_of d key ≡ ok t
unfolding id_of
identified d key t e h = rw e (validated t key h)

named_ok :
    (names : List Text) (subject : Text) (v : Json) (t : Text)
    → IsNamed names v t
    → name_of names subject v ≡ ok t
unfolding name_of
named_ok names subject v t (e, h) = rw (e, h) refl

parse_command_complete :
    (d : Fields) (v : CommandView)
    → Acknowledges d v.command_id v.worker_job_id v
    → parse_command d v.command_id v.worker_job_id ≡ ok v
unfolding parse_command
parse_command_complete d v (shape, (c, valid), (j, valid'), a, n, o, s, _, _) =
    rw
      (
        identified d (codes "command_id") v.command_id c valid,
        text_eq_refl v.command_id,
        identified d (codes "worker_job_id") v.worker_job_id j valid',
        text_eq_refl v.worker_job_id,
        shape,
        named_ok acknowledgements _ _ v.acknowledgement a,
        n,
        named_ok command_operations _ _ v.operation o,
        s,
      )
      refl

-- `parse_command` returns a view exactly where the document acknowledges the command of the job that
-- was asked for: it has the six names and no other, both ids are well formed and those asked for, and
-- the acknowledgement, the revision, which is no negative number, the operation and the signal are
-- valid; the view has the values of the document.
pub parse_command_iff :
    (d : Fields) (command_id worker_job_id : Text) (v : CommandView)
    → (parse_command d command_id worker_job_id ≡ ok v) ↔ Acknowledges d command_id worker_job_id v
parse_command_iff d command_id worker_job_id v = (
  λ h. Yields_ok _ _ v (parse_command_sound d command_id worker_job_id) h,
  λ h.
      subst (λ c. parse_command d c worker_job_id ≡ ok v) h.7
        (subst (λ j. parse_command d v.command_id j ≡ ok v) h.8
          (parse_command_complete d v (
            subst (λ c. Acknowledges d c v.worker_job_id v) (sym h.7)
              (subst (λ j. Acknowledges d command_id j v) (sym h.8) h)))),
)
