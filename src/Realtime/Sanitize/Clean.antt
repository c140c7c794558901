-- ===== src/Realtime/Sanitize/Clean.antt =====
-- What `_safe` lets pass.
use hermes_voice_console.Prelude.{
  ℕ, zero, suc, ◌-◌, ◌≤◌, ◌≡◌, refl, ◌⊎◌, inl, inr, true, false, Text, take, ltb, if◌then◌else◌,
  subst, Bool-cases, arith,
}
use hermes_voice_console.Realtime.Json.{
  Json, null, boolean, integer, negative, decimal, text, array, object, Items, nil, cons, Fields,
  end, field, one_of, items_length, take_items,
}
use hermes_voice_console.Realtime.Sanitize.{
  safe_payload_keys, markers, has_marker, redacted, safe_text, safe, safe_items, safe_fields,
}

-- A text that may pass: the notice, or what is left of a text that bears no marker.
abbrev pub IsCleanText : (Text → Text) → Text → Type 0
IsCleanText lower u =
    (u ≡ redacted) ⊎ ((t : Text) × (u ≡ take 32000 t) × (has_marker markers (lower t) ≡ false))

-- A value that holds nothing but clean texts, lists of 200 items at most and the keys that are
-- allowed, and is nested `levels` deep at most.
unfoldable mutual
  pub IsClean : (Text → Text) → ℕ → Json → Type 0
  IsClean lower levels null = Unit
  IsClean lower levels (boolean b) = 1 ≤ levels
  IsClean lower levels (integer n) = 1 ≤ levels
  IsClean lower levels (negative n) = 1 ≤ levels
  IsClean lower levels (decimal w l) = 1 ≤ levels
  IsClean lower levels (text u) = (1 ≤ levels) × IsCleanText lower u
  IsClean lower levels (array vs) =
      (1 ≤ levels) × (items_length vs ≤ 200) × AreCleanItems lower (levels - 1) vs
  IsClean lower levels (object d) = (1 ≤ levels) × AreCleanFields lower (levels - 1) d

  pub AreCleanItems : (Text → Text) → ℕ → Items → Type 0
  AreCleanItems lower levels nil = Unit
  AreCleanItems lower levels (cons v vs) = IsClean lower levels v × AreCleanItems lower levels vs

  pub AreCleanFields : (Text → Text) → ℕ → Fields → Type 0
  AreCleanFields lower levels end = Unit
  AreCleanFields lower levels (field k v d) =
      (one_of safe_payload_keys k ≡ true) × IsClean lower levels v × AreCleanFields lower levels d

safe_text-IsCleanText : (lower : Text → Text) (t : Text) → IsCleanText lower (safe_text lower t)
unfolding safe_text
safe_text-IsCleanText lower t = elim (Bool-cases (has_marker markers (lower t))) [
  | inl e ↦ rw e (inl refl)
  | inr e ↦ rw e (inr (t, refl, e))
]

items_length-take_items : (n : ℕ) (vs : Items) → items_length (take_items n vs) ≤ n
unfolding items_length take_items
items_length-take_items zero vs = omega arith
items_length-take_items (suc n) nil = omega arith
items_length-take_items (suc n) (cons v vs) = omega (arith, items_length-take_items n vs)

take_items-AreCleanItems :
    (lower : Text → Text) (levels n : ℕ) (vs : Items)
    → AreCleanItems lower levels vs
    → AreCleanItems lower levels (take_items n vs)
unfolding take_items IsClean
take_items-AreCleanItems lower levels zero vs h = tt
take_items-AreCleanItems lower levels (suc n) nil h = tt
take_items-AreCleanItems lower levels (suc n) (cons v vs) (a, h) =
    (a, take_items-AreCleanItems lower levels n vs h)

one_less : (depth : ℕ) → 7 - suc depth ≡ 7 - depth - 1
one_less depth = omega arith

if-IsClean :
    (lower : Text → Text) (depth : ℕ) (v : Json)
    → (depth ≤ 6 → IsClean lower (7 - depth) v)
    → IsClean lower (7 - depth) (if ltb 6 depth then null else v)
unfolding IsClean
if-IsClean lower depth v h = elim (Bool-cases (ltb 6 depth)) [
  | inl e ↦ rw e tt
  | inr e ↦ rw e (h (ground arith))
]

mutual
  unfolding safe IsClean

  safe-IsClean_below :
      (lower : Text → Text) (depth : ℕ) (v : Json) → IsClean lower (7 - depth) (safe lower depth v)
  safe-IsClean_below lower depth null = tt
  safe-IsClean_below lower depth (boolean b) = if-IsClean lower depth (boolean b) (λ h. omega arith)
  safe-IsClean_below lower depth (integer n) = if-IsClean lower depth (integer n) (λ h. omega arith)
  safe-IsClean_below lower depth (negative n) =
      if-IsClean lower depth (negative n) (λ h. omega arith)
  safe-IsClean_below lower depth (decimal w l) =
      if-IsClean lower depth (decimal w l) (λ h. omega arith)
  safe-IsClean_below lower depth (text t) =
      if-IsClean lower depth (text (safe_text lower t))
        (λ h. (omega arith, safe_text-IsCleanText lower t))
  safe-IsClean_below lower depth (array vs) =
      let items = safe_items lower (suc depth) vs in
      if-IsClean lower depth (array (take_items 200 items)) (λ h. (
        omega arith,
        items_length-take_items 200 items,
        take_items-AreCleanItems lower (7 - depth - 1) 200 items (
            subst (λ n. AreCleanItems lower n items) (one_less depth)
              (safe_items-AreCleanItems lower (suc depth) vs)),
      ))
  safe-IsClean_below lower depth (object d) =
      if-IsClean lower depth (object (safe_fields lower (suc depth) d)) (λ h. (
        omega arith,
        subst (λ n. AreCleanFields lower n (safe_fields lower (suc depth) d)) (one_less depth)
            (safe_fields-AreCleanFields lower (suc depth) d),
      ))

  safe_items-AreCleanItems :
      (lower : Text → Text) (depth : ℕ) (vs : Items)
      → AreCleanItems lower (7 - depth) (safe_items lower depth vs)
  safe_items-AreCleanItems lower depth nil = tt
  safe_items-AreCleanItems lower depth (cons v vs) =
      (safe-IsClean_below lower depth v, safe_items-AreCleanItems lower depth vs)

  safe_fields-AreCleanFields :
      (lower : Text → Text) (depth : ℕ) (d : Fields)
      → AreCleanFields lower (7 - depth) (safe_fields lower depth d)
  safe_fields-AreCleanFields lower depth end = tt
  safe_fields-AreCleanFields lower depth (field k v d) =
      elim (Bool-cases (one_of safe_payload_keys k)) [
        | inl e ↦
            rw e (e, safe-IsClean_below lower depth v, safe_fields-AreCleanFields lower depth d)
        | inr e ↦ rw e (safe_fields-AreCleanFields lower depth d)
      ]

-- Whatever Hermes sends, what `_safe` makes of it is nested at most 7 levels deep; each of its objects
-- holds keys of `SAFE_PAYLOAD_KEYS` alone, each of its lists 200 items at most, and each of its texts
-- is the notice of redaction or the first 32000 characters of a text in which, in lower case, no
-- marker of a credential occurs.
pub safe-IsClean : (lower : Text → Text) (v : Json) → IsClean lower 7 (safe lower 0 v)
safe-IsClean lower v = safe-IsClean_below lower 0 v
