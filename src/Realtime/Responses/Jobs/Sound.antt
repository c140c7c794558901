-- ===== src/Realtime/Responses/Jobs/Sound.antt =====
-- What a job that `parse_job` returns has.
use hermes_voice_console.Prelude.{
  String, ◌≡◌, refl, ◌⊎◌, inl, inr, true, Option, List, Text, text_Eq, text_eq, ◌∙◌, Yields-mono,
  codes, Bool-cases, arith, ok, guard, guard_ok, Yields, Yields_ok, bind-Yields,
}
use hermes_voice_console.Realtime.Json.{
  Json, null, boolean, integer, negative, decimal, text, array, object, Items, nil, cons, Fields,
  get, equals_text, is_null, truthy,
}
use hermes_voice_console.Realtime.Json.Put.{get-put_self, get-put_other}
use hermes_voice_console.Realtime.Responses.{id_of, expected}
use hermes_voice_console.Realtime.Responses.Sound.{IsId, id_of-IsId}
use hermes_voice_console.Realtime.Responses.Events.Sound.{equals_text_ok}
use hermes_voice_console.Realtime.Responses.Jobs.{
  elements, attempt_id, attempt_ids, add_id, has_hash, has_value, same_value, is_int,
  check_attempts, check_owner, check_items, check_collection, check_job, job_result, parse_job,
}

-- An attempt of the list bears the id.
abbrev pub HasAttempt : Items → Json → Type 0
HasAttempt nil v = ⊥
HasAttempt (cons (object a) vs) v = (same_value (attempt_id a) v ≡ true) ⊎ HasAttempt vs v
HasAttempt (cons _ vs) v = HasAttempt vs v

-- Each item is an object, and the attempt that it names, if it names one, is in the list.
abbrev pub AreOwned : Items → Items → Type 0
AreOwned attempts nil = Unit
AreOwned attempts (cons (object d) vs) =
    ((is_null (attempt_id d) ≡ true) ⊎ HasAttempt attempts (attempt_id d)) × AreOwned attempts vs
AreOwned attempts (cons _ vs) = ⊥

-- The ids of a set bear the values that `ids` does, or `v`.
abbrev IsAdded : Json → List Json → List Json → Type 0
IsAdded v ids all =
    (w : Json) → has_value all w ≡ true → (same_value v w ≡ true) ⊎ (has_value ids w ≡ true)

add_id-IsAdded : (v : Json) (ids : List Json) → Yields (IsAdded v ids) (add_id v ids)
unfolding has_value
add_id-IsAdded v ids = elim (Bool-cases (truthy v)) [
  | inr e ↦ rw e (λ w h. inr h)
  | inl e ↦
      rw e (elim (Bool-cases (has_hash v)) [ inr f ↦ rw f tt | inl f ↦ rw f (λ w h. ground arith) ])
]

abbrev AreIdsOf : Items → List Json → Type 0
AreIdsOf attempts ids = (v : Json) → has_value ids v ≡ true → HasAttempt attempts v

attempt_ids-AreIdsOf : (attempts : Items) → Yields (AreIdsOf attempts) (attempt_ids attempts)
unfolding attempt_ids has_value
attempt_ids-AreIdsOf nil = λ v h. absurd (ground (arith, h))
attempt_ids-AreIdsOf (cons (object d) vs) = bind-Yields _ (attempt_ids vs) _ (λ ids a.
    Yields-mono _ _ (add_id (attempt_id d) ids)
      (λ all added v h. ground (arith, added v h, Yields_ok _ _ ids (attempt_ids-AreIdsOf vs) a v))
      (add_id-IsAdded (attempt_id d) ids))
attempt_ids-AreIdsOf (cons null vs) = attempt_ids-AreIdsOf vs
attempt_ids-AreIdsOf (cons (boolean b) vs) = attempt_ids-AreIdsOf vs
attempt_ids-AreIdsOf (cons (integer n) vs) = attempt_ids-AreIdsOf vs
attempt_ids-AreIdsOf (cons (negative n) vs) = attempt_ids-AreIdsOf vs
attempt_ids-AreIdsOf (cons (decimal w l) vs) = attempt_ids-AreIdsOf vs
attempt_ids-AreIdsOf (cons (text t) vs) = attempt_ids-AreIdsOf vs
attempt_ids-AreIdsOf (cons (array us) vs) = attempt_ids-AreIdsOf vs

check_owner_ok :
    (ids : List Json) (subject : String) (v : Json)
    → Yields
        (λ (_ : Unit {0}). (is_null v ≡ true) ⊎ (has_value ids v ≡ true))
        (check_owner ids subject v)
unfolding check_owner
check_owner_ok ids subject v = elim (Bool-cases (is_null v)) [
  | inl e ↦ rw e (inl refl)
  | inr e ↦ rw e (elim (Bool-cases (has_hash v)) [
    | inr f ↦ rw f tt
    | inl f ↦
        rw f (elim (Bool-cases (has_value ids v)) [ inl g ↦ rw g (inr refl) | inr g ↦ rw g tt ])
  ])
]

check_items-AreOwned :
    (attempts : Items) (ids : List Json) (name subject : String) (vs : Items)
    → AreIdsOf attempts ids
    → Yields (λ (_ : Unit {0}). AreOwned attempts vs) (check_items ids name subject vs)
unfolding check_items
check_items-AreOwned attempts ids name subject nil h = tt
check_items-AreOwned attempts ids name subject (cons (object d) vs) h =
    bind-Yields _ (check_owner ids subject (attempt_id d)) _ (λ u a.
      Yields-mono _ _ (check_items ids name subject vs)
        (λ _ owned. (
          ground (
            arith,
            Yields_ok _ _ u (check_owner_ok ids subject (attempt_id d)) a,
            h (attempt_id d),
          ),
          owned,
        ))
        (check_items-AreOwned attempts ids name subject vs h))
check_items-AreOwned attempts ids name subject (cons null vs) h = tt
check_items-AreOwned attempts ids name subject (cons (boolean b) vs) h = tt
check_items-AreOwned attempts ids name subject (cons (integer n) vs) h = tt
check_items-AreOwned attempts ids name subject (cons (negative n) vs) h = tt
check_items-AreOwned attempts ids name subject (cons (decimal w l) vs) h = tt
check_items-AreOwned attempts ids name subject (cons (text t) vs) h = tt
check_items-AreOwned attempts ids name subject (cons (array us) vs) h = tt

-- What stands under a name, if anything does, are items that are owned.
abbrev pub OwnsItems : Items → Json → Type 0
OwnsItems attempts v = (vs : Items) × (elements v ≡ ok vs) × AreOwned attempts vs

check_collection-OwnsItems :
    (attempts : Items) (ids : List Json) (name subject : String) (v : Json)
    → AreIdsOf attempts ids
    → Yields (λ (_ : Unit {0}). OwnsItems attempts v) (check_collection ids name subject v)
unfolding check_collection
check_collection-OwnsItems attempts ids name subject v h = bind-Yields _ (elements v) _ (λ vs a.
    Yields-mono _ _ (check_items ids name subject vs) (λ _ owned. (vs, a, owned))
      (check_items-AreOwned attempts ids name subject vs h))

abbrev pub IsConsistent : Fields → Type 0
IsConsistent r =
    (attempts : Items) × (elements (get r (codes "attempts")) ≡ ok attempts)
    × OwnsItems attempts (get r (codes "events"))
    × OwnsItems attempts (get r (codes "artifacts"))
    × OwnsItems attempts (get r (codes "approvals"))

check_job-IsConsistent :
    (show : Json → Text) (r : Fields) → Yields (λ (_ : Unit {0}). IsConsistent r) (check_job show r)
unfolding check_job
check_job-IsConsistent show r =
    bind-Yields _ (guard (is_int (get r (codes "revision"))) _) _ (λ _ _.
      bind-Yields _ (elements (get r (codes "attempts"))) _ (λ attempts a.
        bind-Yields _ (check_attempts show attempts) _ (λ _ _.
          bind-Yields _ (attempt_ids attempts) _ (λ ids b.
            let of_ids = Yields_ok _ _ ids (attempt_ids-AreIdsOf attempts) b in
            bind-Yields _ (check_collection ids _ _ (get r (codes "events"))) _ (λ u c.
              bind-Yields _ (check_collection ids _ _ (get r (codes "artifacts"))) _ (λ u' c'.
                Yields-mono _ _ (check_collection ids _ _ (get r (codes "approvals")))
                  (λ _ owned. (
                    attempts,
                    a,
                    Yields_ok _ _ u
                        (check_collection-OwnsItems attempts ids _ _ (get r (codes "events"))
                          of_ids)
                        c,
                    Yields_ok _ _ u'
                        (check_collection-OwnsItems attempts ids _ _ (get r (codes "artifacts"))
                          of_ids)
                        c',
                    owned,
                  ))
                  (check_collection-OwnsItems attempts ids _ _ (get r (codes "approvals"))
                    of_ids)))))))

-- The job of the document, of the conversation.
abbrev pub IsJobOf : Fields → Text → Option Text → Fields → Type 0
IsJobOf d conversation_id worker_job_id r =
    ((jid : Text) × IsId (get d (codes "worker_job_id")) jid
      × (expected worker_job_id jid ≡ true)
      × (get r (codes "worker_job_id") ≡ text jid))
    × (get d (codes "conversation_key") ≡ text conversation_id)
    × (get r (codes "conversation_key") ≡ text conversation_id)
    × IsConsistent r

parse_job-IsJobOf :
    (lower : Text → Text) (show : Json → Text) (d : Fields) (cid : Text) (wid : Option Text)
    → Yields (IsJobOf d cid wid) (parse_job lower show d cid wid)
unfolding parse_job job_result text_eq
parse_job-IsJobOf lower show d cid wid = bind-Yields _ (id_of d (codes "worker_job_id")) _ (λ jid a.
    bind-Yields _ (guard (expected wid jid) _) _ (λ u b.
      bind-Yields _ (guard (equals_text (get d (codes "conversation_key")) cid) _) _ (λ u' c.
        bind-Yields _ (check_job show (job_result lower d jid cid)) _ (λ u'' e. (
          (
            jid,
            Yields_ok _ _ jid (id_of-IsId d (codes "worker_job_id")) a,
            guard_ok _ _ u b,
            get-put_other _ (codes "conversation_key") (codes "worker_job_id") (text cid) refl
                ∙ get-put_self _ (codes "worker_job_id") (text jid),
          ),
          equals_text_ok _ cid (guard_ok _ _ u' c),
          get-put_self _ (codes "conversation_key") (text cid),
          Yields_ok _ _ u'' (check_job-IsConsistent show (job_result lower d jid cid)) e,
        )))))

-- A job that `parse_job` returns is a job of the conversation that was asked for: the job that is
-- expected, where one is, under an id that is well formed. Its events, artifacts and approvals are
-- objects, and the attempt that one of them names is an attempt of the job.
pub parse_job_ok :
    (lower : Text → Text) (show : Json → Text) (d : Fields) (conversation_id : Text)
    (worker_job_id : Option Text) (r : Fields)
    → parse_job lower show d conversation_id worker_job_id ≡ ok r
    → IsJobOf d conversation_id worker_job_id r
parse_job_ok lower show d conversation_id worker_job_id r h =
    Yields_ok _ _ r (parse_job-IsJobOf lower show d conversation_id worker_job_id) h
