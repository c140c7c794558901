-- ===== src/Realtime/Json/Put.antt =====
-- Reading a JSON object behind an assignment.
use hermes_voice_console.Prelude.{
  ◌≡◌, refl, ap, inl, inr, false, Text, text_eq, text_eq_refl, text_eq_iff, Bool-cases,
  if◌then◌else◌,
}
use hermes_voice_console.Realtime.Json.{Json, Fields, end, field, get, put}

pub get-put_self : (d : Fields) (k : Text) (v : Json) → get (put d k v) k ≡ v
unfolding get put
get-put_self end k v = rw (text_eq_refl k) refl
get-put_self (field j w d) k v = elim (Bool-cases (text_eq j k)) [
  | inl e ↦ rw e (rw e refl)
  | inr e ↦ rw e (rw e (get-put_self d k v))
]

pub get-put_other :
    (d : Fields) (k j : Text) (v : Json) → text_eq k j ≡ false → get (put d k v) j ≡ get d j
unfolding get put
get-put_other end k j v h = rw h refl
get-put_other (field i w d) k j v h = elim (Bool-cases (text_eq i k)) [
  | inl e ↦ let same : text_eq i j ≡ false = rw ((text_eq_iff i k).0 e) h in rw (e, same) refl
  | inr e ↦ rw (e, get) (ap (λ r. if text_eq i j then w else r) (get-put_other d k j v h))
]
