-- ===== src/Prelude/Results.antt =====
-- A call that may raise: its value or the exception.
use mathlib.Core.Path.{◌≡◌, refl, subst}
use mathlib.Core.Bool.{Bool, true, false}

pub data Result {ℓ κ} (E : Type κ) (A : Type ℓ) : Type (ℓ ⊔ κ) where
  ok : A → Result E A
  err : E → Result E A

infixl 5 ◌>>=◌ ◌>>◌
abbrev pub ◌>>=◌ {ℓ κ μ} :
    {E : Type κ} {A : Type ℓ} {B : Type μ} → Result E A → (A → Result E B) → Result E B
ok a >>= f = f a
err e >>= f = err e

abbrev pub ◌>>◌ {ℓ κ} : {E : Type κ} {B : Type ℓ} → Result E (Unit {0}) → Result E B → Result E B
m >> k = m >>= λ _. k

-- `if not b: raise e`
abbrev pub guard {κ} : {E : Type κ} → Bool → E → Result E (Unit {0})
guard true e = ok tt
guard false e = err e

-- What a chain that returns went through.
pub bind_ok {ℓ κ μ} :
    {E : Type κ} {A : Type ℓ} {B : Type μ} (m : Result E A) (f : A → Result E B) (b : B)
    → (m >>= f) ≡ ok b
    → (a : A) × (m ≡ ok a) × (f a ≡ ok b)
bind_ok (ok a) f b h = (a, refl, h)
bind_ok (err e) f b h = cc

pub guard_ok {κ} : {E : Type κ} (c : Bool) (e : E) (u : Unit {0}) → guard c e ≡ ok u → c ≡ true
guard_ok true e u h = refl
guard_ok false e u h = cc

-- The value of a call that returns satisfies `P`.
abbrev pub Yields {ℓ κ μ} : {E : Type κ} {A : Type ℓ} → (A → Type μ) → Result E A → Type μ
Yields P (ok a) = P a
Yields P (err e) = Unit

pub bind-Yields {ℓ κ μ ν} :
    {E : Type κ} {A : Type ℓ} {B : Type μ} (P : B → Type ν) (m : Result E A) (f : A → Result E B)
    → ((a : A) → m ≡ ok a → Yields P (f a))
    → Yields P (m >>= f)
bind-Yields P (ok a) f h = h a refl
bind-Yields P (err e) f h = tt

pub Yields_ok {ℓ κ μ} :
    {E : Type κ} {A : Type ℓ} (P : A → Type μ) (m : Result E A) (a : A)
    → Yields P m
    → m ≡ ok a
    → P a
Yields_ok P (ok b) a h e = subst (Yields P) e h
Yields_ok P (err x) a h e = subst (Yields P) e h

pub Yields-mono {ℓ κ μ ν} :
    {E : Type κ} {A : Type ℓ} (P : A → Type μ) (Q : A → Type ν) (m : Result E A)
    → ((a : A) → P a → Q a)
    → Yields P m
    → Yields Q m
Yields-mono P Q (ok a) f h = f a h
Yields-mono P Q (err e) f h = tt

-- What a call that returns satisfies is satisfied.
pub Yields-self {ℓ κ} : {E : Type κ} {A : Type ℓ} (m : Result E A) → Yields (λ a. m ≡ ok a) m
Yields-self (ok a) = refl
Yields-self (err e) = tt
