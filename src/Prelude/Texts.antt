-- ===== src/Prelude/Texts.antt =====
-- Python's `str` as its list of code points: equality, white space, `strip`.
use hermes_voice_console.Prelude.Tests.{leb, nat_eq, if◌then◌else◌, Eq, Bool-cases}
use Prim.Native.Nat.{ℕ}
use Prim.Native.Char.{code}
use Prim.Native.String.{String}
use mathlib.Core.Path.{◌≡◌, refl, ◌∙◌}
use mathlib.Core.Logic.{◌↔◌, inl, inr}
use mathlib.Core.Bool.{Bool, true, false, not, ◌&&◌, ◌||◌}
use mathlib.Core.List.{List, [], ◌∷◌, ◌++◌, reverse, reverse-cons, reverse-reverse}
use native.Mathlib.Omega.{arith}

abbrev pub Text : Type 0
Text = List ℕ

-- The code points of a literal.
abbrev pub codes : String → Text
codes String.[] = []
codes (String.◌∷◌ c s) = code c ∷ codes s

unfoldable pub text_eq : Text → Text → Bool
text_eq [] [] = true
text_eq (a ∷ s) (b ∷ t) = nat_eq a b && text_eq s t
text_eq _ _ = false

pub text_eq_iff : (s t : Text) → (text_eq s t ≡ true) ↔ (s ≡ t)
unfolding text_eq
text_eq_iff [] [] = ground arith
text_eq_iff [] (b ∷ t) = ground arith
text_eq_iff (a ∷ s) [] = ground arith
text_eq_iff (a ∷ s) (b ∷ t) = ground (arith, text_eq_iff s t)

pub text_eq_refl : (s : Text) → text_eq s s ≡ true
text_eq_refl s = (text_eq_iff s s).1 refl

instance abbrev pub text_Eq : Eq Text
text_Eq = record { same = text_eq; same_iff = text_eq_iff }

-- The characters that `str.strip`, `str.split` and `\s` take for white space.
unfoldable pub is_space : ℕ → Bool
is_space c =
    (leb 9 c && leb c 13)
    || (leb 28 c && leb c 32)
    || nat_eq c 0x85
    || nat_eq c 0xa0
    || nat_eq c 0x1680
    || (leb 0x2000 c && leb c 0x200a)
    || nat_eq c 0x2028
    || nat_eq c 0x2029
    || nat_eq c 0x202f
    || nat_eq c 0x205f
    || nat_eq c 0x3000

-- `s.lstrip()`
unfoldable pub lstrip : Text → Text
lstrip [] = []
lstrip (c ∷ s) = let rest = lstrip s in if is_space c then rest else c ∷ s

-- `s.strip()`
unfoldable pub strip : Text → Text
unfolding lstrip
strip s = reverse (lstrip (reverse (lstrip s)))

-- `all(p(c) for c in s)`
abbrev pub all_of : (ℕ → Bool) → Text → Bool
all_of p [] = true
all_of p (c ∷ s) = p c && all_of p s

-- `s.startswith(m)`
unfoldable pub starts_with : Text → Text → Bool
starts_with s [] = true
starts_with [] (a ∷ m) = false
starts_with (c ∷ s) (a ∷ m) = nat_eq a c && starts_with s m

-- `m in s`
unfoldable pub contains : Text → Text → Bool
contains m [] = starts_with [] m
contains m (c ∷ s) = starts_with (c ∷ s) m || contains m s

-- What `lstrip` returns does not begin with white space.
pub lstrip_head : (s : Text) (c : ℕ) (r : Text) → lstrip s ≡ c ∷ r → is_space c ≡ false
unfolding lstrip
lstrip_head [] c r h = cc
lstrip_head (d ∷ s) c r h = elim (Bool-cases (is_space d)) [
  | inl e ↦ lstrip_head s c r (rw (e, lstrip) at h)
  | inr e ↦ ground arith
]

-- Nor does what `strip` returns end with it.
pub strip_last : (s : Text) (c : ℕ) (r : Text) → reverse (strip s) ≡ c ∷ r → is_space c ≡ false
unfolding strip
strip_last s c r h = lstrip_head (reverse (lstrip s)) c r (rw reverse-reverse at h)

pub lstrip_self : (s : Text) → all_of (λ c. not (is_space c)) s ≡ true → lstrip s ≡ s
unfolding lstrip
lstrip_self [] h = refl
lstrip_self (c ∷ s) h = ground arith

pub all_of-append : (p : ℕ → Bool) (s t : Text) → all_of p (s ++ t) ≡ (all_of p s && all_of p t)
all_of-append p [] t = refl
all_of-append p (c ∷ s) t = ground (arith, all_of-append p s t)

pub all_of-reverse : (p : ℕ → Bool) (s : Text) → all_of p (reverse s) ≡ all_of p s
all_of-reverse p [] = refl
all_of-reverse p (c ∷ s) =
    rw (reverse-cons c s, all_of-append p (reverse s) (c ∷ []), all_of-reverse p s) (ground arith)

pub all_of_mono :
    (p q : ℕ → Bool) (s : Text)
    → ((c : ℕ) → p c ≡ true → q c ≡ true)
    → all_of p s ≡ true
    → all_of q s ≡ true
all_of_mono p q [] h a = refl
all_of_mono p q (c ∷ s) h a = ground (arith, h c, all_of_mono p q s h)

-- A text with no white space is its own `strip`.
pub strip_self : (s : Text) → all_of (λ c. not (is_space c)) s ≡ true → strip s ≡ s
unfolding strip
strip_self s h =
    rw (lstrip_self s h, lstrip_self (reverse s) (all_of-reverse _ s ∙ h)) (reverse-reverse s)
