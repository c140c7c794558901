-- ===== src/VoiceFilters/Chunks.antt =====
-- The pieces that `prepare_tts_sentences` returns.
use hermes_voice_console.Prelude.{
  ℕ, zero, suc, ◌+◌, ◌≤◌, ◌<◌, ◌≡◌, refl, sym, ap, ◌∙◌, subst, inl, inr, false, some, List, [], ◌∷◌,
  ◌++◌, All, Text, text_Eq, text_eq, text_eq_iff, length, length-drop, length-take-le, take, drop,
  is_space, strip, ltb, Bool-cases, Option-cases, append-nil, arith,
}
use hermes_voice_console.VoiceFilters.{
  collapse, sentences, last_blank, split_at, split_long, split_all, prepare_tts_sentences,
}
use hermes_voice_console.VoiceFilters.Letters.{
  letters, joined, letters-append, joined-append, letters-strip, length-strip, Starts, strip_cons,
  strip-Starts, take-drop, letters-sentences, letters-collapse,
}

last_blank_lt : (n : ℕ) (s : Text) (i : ℕ) → last_blank n s ≡ some i → i < n
unfolding last_blank
last_blank_lt zero s i h = cc
last_blank_lt (suc n) [] i h = cc
last_blank_lt (suc n) (c ∷ s) i h = elim (Option-cases (last_blank n s)) [
  | inl e ↦ ground (arith, e)
  | inr (j, e) ↦ ground (arith, e, last_blank_lt n s j e)
]

-- The blank is not the first character of a text that begins with none.
last_blank_pos :
    (n : ℕ) (c : ℕ) (s : Text) (i : ℕ) → is_space c ≡ false → last_blank n (c ∷ s) ≡ some i → 1 ≤ i
unfolding last_blank is_space
last_blank_pos zero c s i h e = cc
last_blank_pos (suc n) c s i h e = ground arith

split_at_bounds :
    (limit c : ℕ) (s : Text)
    → 1 ≤ limit
    → is_space c ≡ false
    → (1 ≤ split_at limit (c ∷ s)) × (split_at limit (c ∷ s) ≤ limit)
unfolding split_at
split_at_bounds limit c s l h = elim (Option-cases (last_blank (limit + 1) (c ∷ s))) [
  | inl e ↦ rw e (l, omega arith)
  | inr (i, e) ↦
      rw e (
        ground (arith, last_blank_pos (limit + 1) c s i h e, last_blank_lt (limit + 1) (c ∷ s) i e))
]

-- A piece that is spoken: not empty, and no longer than the limit.
abbrev pub IsPiece : ℕ → Text → Type 0
IsPiece limit s = (1 ≤ length s) × (length s ≤ limit)

-- Pieces that hold the letters of a text, in its order.
abbrev pub ArePiecesOf : ℕ → Text → List Text → Type 0
ArePiecesOf limit s pieces = All (IsPiece limit) pieces × (letters (joined pieces) ≡ letters s)

first_IsPiece :
    (limit k c : ℕ) (s : Text)
    → is_space c ≡ false
    → 1 ≤ k
    → k ≤ limit
    → IsPiece limit (strip (take k (c ∷ s)))
first_IsPiece limit zero c s h l u = absurd (omega arith)
first_IsPiece limit (suc k) c s h l u = (
  subst (λ t. 1 ≤ length t) (sym (strip_cons c (take k s) h)) (omega arith),
  omega (arith, length-strip (take (suc k) (c ∷ s)), length-take-le (suc k) (c ∷ s)),
)

-- A round loses white space alone.
cut_letters :
    (k : ℕ) (s : Text) (pieces : List Text)
    → letters (joined pieces) ≡ letters (strip (drop k s))
    → letters (strip (take k s) ++ joined pieces) ≡ letters s
cut_letters k s pieces h =
    rw
      (
        letters-append (strip (take k s)) (joined pieces),
        h,
        letters-strip (take k s),
        letters-strip (drop k s),
      )
      (sym (letters-append (take k s) (drop k s)) ∙ ap letters (take-drop k s))

-- The loop ends on fuel above the length of the text, with pieces of the text.
split_long_lem :
    (fuel limit : ℕ) (s : Text)
    → 1 ≤ limit
    → length s < fuel
    → Starts s
    → (pieces : List Text) × (split_long fuel limit s ≡ some pieces) × ArePiecesOf limit s pieces
unfolding split_long joined text_eq
split_long_lem zero limit s l f h = absurd (omega arith)
split_long_lem (suc fuel) limit [] l f h =
    let short : ltb limit 0 ≡ false = ground arith in rw short ([], refl, (tt, refl))
split_long_lem (suc fuel) limit (c ∷ s) l f h = elim (Bool-cases (ltb limit (length (c ∷ s)))) [
  | inr e ↦
      rw e
        ((c ∷ s) ∷ [], refl, (((omega arith, ground arith), tt), ap letters (append-nil (c ∷ s))))
  | inl e ↦
      let (lower, upper) = split_at_bounds limit c s l h in
      let k = split_at limit (c ∷ s) in
      let (pieces, g, (are_pieces, same)) =
        split_long_lem fuel limit (strip (drop k (c ∷ s))) l
          (omega (arith, length-strip (drop k (c ∷ s)), length-drop k (c ∷ s)))
          (strip-Starts (drop k (c ∷ s))) in
      rw (e, g)
        (
          strip (take k (c ∷ s)) ∷ pieces,
          refl,
          (
            (first_IsPiece limit k c s h lower upper, are_pieces),
            cut_letters k (c ∷ s) pieces same,
          ),
        )
]

All-append :
    (limit : ℕ) (ss ts : List Text)
    → All (IsPiece limit) ss
    → All (IsPiece limit) ts
    → All (IsPiece limit) (ss ++ ts)
All-append limit [] ts a b = b
All-append limit (s ∷ ss) ts (p, a) b = (p, All-append limit ss ts a b)

split_all_lem :
    (limit : ℕ) (ss : List Text)
    → 1 ≤ limit
    → (pieces : List Text) × (split_all limit ss ≡ some pieces)
      × ArePiecesOf limit (joined ss) pieces
unfolding split_all joined
split_all_lem limit [] l = ([], refl, (tt, refl))
split_all_lem limit (s ∷ ss) l =
    let (first, e, (first_pieces, same)) =
      split_long_lem (suc (length (strip s))) limit (strip s) l (omega arith) (strip-Starts s) in
    let (others, g, (other_pieces, same')) = split_all_lem limit ss l in
    rw (e, g)
      (
        first ++ others,
        refl,
        (
          All-append limit first others first_pieces other_pieces,
          rw
              (
                joined-append first others,
                letters-append (joined first) (joined others),
                same,
                same',
                letters-strip s,
              )
              (sym (letters-append s (joined ss))),
        ),
      )

-- What is cut off at the end has the letters that are missing.
kept_letters :
    (total_cap : ℕ) (s : Text)
    → letters s
      ≡ letters (take total_cap (strip (collapse s)))
        ++ letters (drop total_cap (strip (collapse s)))
kept_letters total_cap s =
    sym (letters-strip (collapse s) ∙ letters-collapse s)
    ∙ sym (ap letters (take-drop total_cap (strip (collapse s))))
    ∙ letters-append (take total_cap (strip (collapse s))) (drop total_cap (strip (collapse s)))

-- The pieces are spoken in place of the text: each fits, and what is said is the beginning of the text.
abbrev pub AreSpokenFor : ℕ → ℕ → Text → List Text → Type 0
AreSpokenFor total_cap sentence_cap s pieces =
    ArePiecesOf sentence_cap (take total_cap (strip (collapse s))) pieces
    × (letters s ≡ letters (joined pieces) ++ letters (drop total_cap (strip (collapse s))))

spoken :
    (total_cap sentence_cap : ℕ) (s : Text) (pieces : List Text)
    → ArePiecesOf sentence_cap (take total_cap (strip (collapse s))) pieces
    → AreSpokenFor total_cap sentence_cap s pieces
spoken total_cap sentence_cap s pieces (a, same) = (
  (a, same),
  kept_letters total_cap s
      ∙ ap (λ t. t ++ letters (drop total_cap (strip (collapse s)))) (sym same),
)

-- Where the limit of a sentence is 1 at least, the cutting of an answer ends: each round leaves fewer
-- characters, so that the fuel given is enough. Each piece has 1 character at least and no more than
-- the limit. One after the other, the pieces have the characters of the answer that are no white
-- space, in their order, up to the limit of the whole, and none else.
pub prepare_tts_sentences-AreSpokenFor :
    (total_cap sentence_cap : ℕ) (s : Text)
    → 1 ≤ sentence_cap
    → (pieces : List Text) × (prepare_tts_sentences total_cap sentence_cap s ≡ some pieces)
      × AreSpokenFor total_cap sentence_cap s pieces
unfolding prepare_tts_sentences joined
prepare_tts_sentences-AreSpokenFor total_cap sentence_cap s l =
    let kept = take total_cap (strip (collapse s)) in
    elim (Bool-cases (text_eq kept [])) [
      | inl e ↦ rw e (
        [],
        refl,
        spoken total_cap sentence_cap s [] (tt, ap letters (sym ((text_eq_iff kept []).0 e))),
      )
      | inr e ↦
          let (pieces, g, (a, same)) = split_all_lem sentence_cap (sentences kept) l in
          rw (e, g)
            (
              pieces,
              refl,
              spoken total_cap sentence_cap s pieces (a, same ∙ letters-sentences kept),
            )
    ]
