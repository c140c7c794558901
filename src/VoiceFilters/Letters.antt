-- ===== src/VoiceFilters/Letters.antt =====
-- What white space leaves of a text, and that the steps of the cutting keep it.
use hermes_voice_console.Prelude.{
  ℕ, zero, suc, ◌≤◌, ◌≡◌, refl, sym, ap, ◌∙◌, inl, inr, Bool, true, false, List, [], ◌∷◌, ◌++◌,
  reverse, reverse-cons, reverse-append, reverse-reverse, subst, append_assoc, append-nil, Text,
  length, length-append, take, drop, is_space, lstrip, strip, Bool-cases, arith, if◌then◌else◌,
}
use hermes_voice_console.VoiceFilters.{
  collapse_from, collapse, Place, after_stop, in_gap, elsewhere, place_of, add_to_first,
  sentences_from, sentences,
}

-- The characters that are no white space.
unfoldable pub letters : Text → Text
letters [] = []
letters (c ∷ s) = let rest = letters s in if is_space c then rest else c ∷ rest

-- `"".join(pieces)`
unfoldable pub joined : List Text → Text
joined [] = []
joined (s ∷ ss) = s ++ joined ss

pub letters-append : (s t : Text) → letters (s ++ t) ≡ letters s ++ letters t
unfolding letters
letters-append [] t = refl
letters-append (c ∷ s) t = elim (Bool-cases (is_space c)) [
  | inl e ↦ rw e (letters-append s t)
  | inr e ↦ rw e (ap (λ r. c ∷ r) (letters-append s t))
]

pub joined-append : (ss ts : List Text) → joined (ss ++ ts) ≡ joined ss ++ joined ts
unfolding joined
joined-append [] ts = refl
joined-append (s ∷ ss) ts =
    ap (λ r. s ++ r) (joined-append ss ts) ∙ sym (append_assoc s (joined ss) (joined ts))

letters-reverse : (s : Text) → letters (reverse s) ≡ reverse (letters s)
unfolding letters
letters-reverse [] = refl
letters-reverse (c ∷ s) =
    rw (reverse-cons c s, letters-append (reverse s) (c ∷ []), letters-reverse s)
      (elim (Bool-cases (is_space c)) [
        | inl e ↦ rw (e, append-nil) refl
        | inr e ↦ rw (e, reverse-cons) refl
      ])

letters-lstrip : (s : Text) → letters (lstrip s) ≡ letters s
unfolding letters lstrip
letters-lstrip [] = refl
letters-lstrip (c ∷ s) = elim (Bool-cases (is_space c)) [
  | inl e ↦ rw e (letters-lstrip s)
  | inr e ↦ rw e (rw e refl)
]

pub letters-strip : (s : Text) → letters (strip s) ≡ letters s
unfolding strip
letters-strip s =
    rw
      (
        letters-reverse (lstrip (reverse (lstrip s))),
        letters-lstrip (reverse (lstrip s)),
        letters-reverse (lstrip s),
        letters-lstrip s,
      )
      (reverse-reverse (letters s))

length-lstrip : (s : Text) → length (lstrip s) ≤ length s
unfolding lstrip
length-lstrip [] = omega arith
length-lstrip (c ∷ s) = ground (arith, length-lstrip s)

length-reverse : (s : Text) → length (reverse s) ≡ length s
length-reverse [] = refl
length-reverse (c ∷ s) =
    rw (reverse-cons c s, length-append (reverse s) (c ∷ []), length-reverse s) (omega arith)

pub length-strip : (s : Text) → length (strip s) ≤ length s
unfolding strip
length-strip s = omega (
  arith,
  length-reverse (lstrip (reverse (lstrip s))),
  length-lstrip (reverse (lstrip s)),
  length-reverse (lstrip s),
  length-lstrip s,
)

-- A text that does not begin with white space.
abbrev pub Starts : Text → Type 0
Starts [] = Unit
Starts (c ∷ s) = is_space c ≡ false

lstrip-append_last :
    (s : Text) (c : ℕ) → is_space c ≡ false → lstrip (s ++ c ∷ []) ≡ lstrip s ++ c ∷ []
unfolding lstrip
lstrip-append_last [] c h = rw h refl
lstrip-append_last (b ∷ s) c h = elim (Bool-cases (is_space b)) [
  | inl e ↦ rw e (lstrip-append_last s c h)
  | inr e ↦ rw e refl
]

-- `strip` keeps a first character that is no white space.
pub strip_cons :
    (c : ℕ) (s : Text) → is_space c ≡ false → strip (c ∷ s) ≡ c ∷ reverse (lstrip (reverse s))
unfolding strip
strip_cons c s h =
    rw (h, reverse-cons c s, lstrip-append_last (reverse s) c h)
      (reverse-append (lstrip (reverse s)) (c ∷ []))

pub strip-Starts : (s : Text) → Starts (strip s)
unfolding lstrip strip
strip-Starts [] = tt
strip-Starts (c ∷ s) = elim (Bool-cases (is_space c)) [
  | inl e ↦ rw e (strip-Starts s)
  | inr e ↦ subst Starts (sym (strip_cons c s e)) e
]

pub take-drop : (n : ℕ) (s : Text) → take n s ++ drop n s ≡ s
take-drop zero s = refl
take-drop (suc n) [] = refl
take-drop (suc n) (c ∷ s) = ap (λ r. c ∷ r) (take-drop n s)

blank_is_space : is_space b' ' ≡ true
unfolding is_space
blank_is_space = refl

letters_blank : (s : Text) → letters (b' ' ∷ s) ≡ letters s
unfolding letters
letters_blank s = rw blank_is_space refl

letters_drop : (c : ℕ) (s : Text) → is_space c ≡ true → letters (c ∷ s) ≡ letters s
unfolding letters
letters_drop c s e = rw e refl

letters_same : (c : ℕ) (s t : Text) → letters s ≡ letters t → letters (c ∷ s) ≡ letters (c ∷ t)
unfolding letters
letters_same c s t h = elim (Bool-cases (is_space c)) [
  | inl e ↦ rw e h
  | inr e ↦ rw e (ap (λ r. c ∷ r) h)
]

letters-collapse_from : (inside : Bool) (s : Text) → letters (collapse_from inside s) ≡ letters s
unfolding collapse_from
letters-collapse_from inside [] = refl
letters-collapse_from true (c ∷ s) = elim (Bool-cases (is_space c)) [
  | inl e ↦ rw (e, letters_drop c s e) (letters-collapse_from true s)
  | inr e ↦ rw (e) (letters_same c (collapse_from false s) s (letters-collapse_from false s))
]
letters-collapse_from false (c ∷ s) = elim (Bool-cases (is_space c)) [
  | inl e ↦
      rw (e, letters_drop c s e, letters_blank (collapse_from true s))
        (letters-collapse_from true s)
  | inr e ↦ rw (e) (letters_same c (collapse_from false s) s (letters-collapse_from false s))
]

pub letters-collapse : (s : Text) → letters (collapse s) ≡ letters s
unfolding collapse
letters-collapse s = letters-collapse_from false s

letters_first :
    (c : ℕ) (ss : List Text) → letters (joined (add_to_first c ss)) ≡ letters (c ∷ joined ss)
unfolding joined
letters_first c [] = refl
letters_first c (s ∷ ss) = refl

goes_on_letters :
    (c : ℕ) (s : Text) (ss : List Text)
    → letters (joined ss) ≡ letters s
    → letters (joined (add_to_first c ss)) ≡ letters (c ∷ s)
goes_on_letters c s ss h = letters_first c ss ∙ letters_same c (joined ss) s h

letters-sentences_from : (p : Place) (s : Text) → letters (joined (sentences_from p s)) ≡ letters s
unfolding joined sentences_from
letters-sentences_from p [] = refl
letters-sentences_from after_stop (c ∷ s) = elim (Bool-cases (is_space c)) [
  | inl e ↦ rw (e, letters_drop c s e) (letters-sentences_from in_gap s)
  | inr e ↦ rw e (goes_on_letters c s _ (letters-sentences_from (place_of c) s))
]
letters-sentences_from in_gap (c ∷ s) = elim (Bool-cases (is_space c)) [
  | inl e ↦ rw (e, letters_drop c s e) (letters-sentences_from in_gap s)
  | inr e ↦ rw e (goes_on_letters c s _ (letters-sentences_from (place_of c) s))
]
letters-sentences_from elsewhere (c ∷ s) =
    goes_on_letters c s _ (letters-sentences_from (place_of c) s)

-- Cutting a text into sentences loses white space alone.
pub letters-sentences : (s : Text) → letters (joined (sentences s)) ≡ letters s
unfolding sentences
letters-sentences s = letters-sentences_from elsewhere s
