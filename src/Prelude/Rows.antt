-- ===== src/Prelude/Rows.antt =====
-- What the updates and the queries of a table keep.
use Prim.Native.Nat.{ℕ, ◌+◌, ◌≤◌}
use mathlib.Core.Path.{◌≡◌, refl, sym, ◌∙◌}
use mathlib.Core.Bool.{Bool, true, false, ◌&&◌, true≢false}
use mathlib.Core.Option.{none, some}
use mathlib.Core.List.{List, [], ◌∷◌, ◌++◌}
use mathlib.Core.Logic.{inl, inr}
use native.Mathlib.Omega.{arith}
use hermes_voice_console.Prelude.Tests.{if◌then◌else◌, Option-cases}
use hermes_voice_console.Prelude.Tables.{
  first, any, select, update_where, count_where, latest, latest-none,
}

module _ {ℓ} {A : Type ℓ} where
  pub count-append :
      (p : A → Bool) (xs ys : List A)
      → count_where p (xs ++ ys) ≡ count_where p xs + count_where p ys
  unfolding count_where
  count-append p [] ys = omega arith
  count-append p (x ∷ xs) ys = omega (arith, count-append p xs ys)

  pub count-any : (p : A → Bool) (xs : List A) → any p xs ≡ false → count_where p xs ≡ 0
  unfolding any count_where
  count-any p [] h = refl
  count-any p (x ∷ xs) h = ground (arith, count-any p xs)

  -- A row that loses `p` by the update, and none that gains it.
  pub count-update-le :
      (p q : A → Bool) (f : A → A) (xs : List A)
      → ((x : A) → q x ≡ true → p (f x) ≡ true → p x ≡ true)
      → count_where p (update_where q f xs) ≤ count_where p xs
  unfolding update_where count_where
  count-update-le p q f [] h = omega arith
  count-update-le p q f (x ∷ xs) h = ground (arith, h x, count-update-le p q f xs h)

  pub any-update :
      (p q : A → Bool) (f : A → A) (xs : List A)
      → ((x : A) → q x ≡ true → p (f x) ≡ p x)
      → any p (update_where q f xs) ≡ any p xs
  unfolding update_where any
  any-update p q f [] h = refl
  any-update p q f (x ∷ xs) h = ground (arith, h x, any-update p q f xs h)

  -- The updated row is found, where the update keeps what is looked for.
  pub first-update :
      (p : A → Bool) (f : A → A) (xs : List A) (x : A)
      → ((y : A) → p y ≡ true → p (f y) ≡ true)
      → first p xs ≡ some x
      → first p (update_where p f xs) ≡ some (f x)
  unfolding first update_where
  first-update p f [] x k h = cc
  first-update p f (y ∷ ys) x k h = ground (arith, k y, first-update p f ys x k)

  pub first-update_other :
      (p q : A → Bool) (f : A → A) (xs : List A)
      → ((y : A) → q y ≡ true → p y ≡ false)
      → ((y : A) → q y ≡ true → p (f y) ≡ false)
      → first p (update_where q f xs) ≡ first p xs
  unfolding first update_where
  first-update_other p q f [] k l = refl
  first-update_other p q f (y ∷ ys) k l = ground (arith, k y, l y, first-update_other p q f ys k l)

  pub first-none : (p : A → Bool) (xs : List A) → first p xs ≡ none → any p xs ≡ false
  unfolding first any
  first-none p [] h = refl
  first-none p (x ∷ xs) h = ground (arith, first-none p xs)

  pub first_ext : (p q : A → Bool) (xs : List A) → ((x : A) → p x ≡ q x) → first p xs ≡ first q xs
  unfolding first
  first_ext p q [] h = refl
  first_ext p q (x ∷ xs) h = ground (arith, h x, first_ext p q xs h)

  -- As `count-update-le`, where the updated rows of the table do not satisfy `r`.
  pub count-update-le_guarded :
      (p q r : A → Bool) (f : A → A) (xs : List A)
      → any (λ x. q x && r x) xs ≡ false
      → ((x : A) → q x ≡ true → r x ≡ false → p (f x) ≡ true → p x ≡ true)
      → count_where p (update_where q f xs) ≤ count_where p xs
  unfolding update_where count_where any
  count-update-le_guarded p q r f [] g h = omega arith
  count-update-le_guarded p q r f (x ∷ xs) g h =
      ground (arith, h x, count-update-le_guarded p q r f xs _ h)

  pub count-select-le :
      (p q : A → Bool) (xs : List A) → count_where p (select q xs) ≤ count_where p xs
  unfolding select count_where
  count-select-le p q [] = omega arith
  count-select-le p q (x ∷ xs) = ground (arith, count-select-le p q xs)

  -- A row that fits is selected.
  pub latest-some :
      (key : A → ℕ) (p : A → Bool) (xs : List A)
      → any p xs ≡ true
      → (x : A) × (latest key (select p xs) ≡ some x)
  latest-some key p xs h = elim (Option-cases (latest key (select p xs))) [
    | inl e ↦ absurd (true≢false (sym h ∙ latest-none key p xs e))
    | inr found ↦ found
  ]

  pub any-and : (p q : A → Bool) (xs : List A) → any p xs ≡ false → any (λ x. p x && q x) xs ≡ false
  unfolding any
  any-and p q [] h = refl
  any-and p q (x ∷ xs) h = ground (arith, any-and p q xs)

  -- A row that satisfies both gains `r` by the update.
  pub any-update_gain :
      (p q r : A → Bool) (f : A → A) (xs : List A)
      → any (λ x. q x && p x) xs ≡ true
      → ((x : A) → q x ≡ true → p x ≡ true → r (f x) ≡ true)
      → any r (update_where q f xs) ≡ true
  unfolding update_where any
  any-update_gain p q r f [] g h = cc
  any-update_gain p q r f (x ∷ xs) g h = ground (arith, h x, any-update_gain p q r f xs _ h)

  pub any_holds :
      (p q : A → Bool) (xs : List A) (x : A) → first p xs ≡ some x → q x ≡ true → any q xs ≡ true
  unfolding first any
  any_holds p q [] x h e = cc
  any_holds p q (y ∷ ys) x h e = ground (arith, any_holds p q ys x)

  -- An update that keeps `p` of every row it changes keeps the number of rows that satisfy `p`.
  pub count-update :
      (p q : A → Bool) (f : A → A) (xs : List A)
      → ((x : A) → q x ≡ true → p (f x) ≡ p x)
      → count_where p (update_where q f xs) ≡ count_where p xs
  unfolding update_where count_where
  count-update p q f [] h = refl
  count-update p q f (x ∷ xs) h = ground (arith, h x, count-update p q f xs h)

  -- An update that keeps `p` updates the row that is found as it updates that row.
  pub first-update_some :
      (p q : A → Bool) (f : A → A) (xs : List A) (x : A)
      → ((y : A) → p (f y) ≡ p y)
      → first p xs ≡ some x
      → first p (update_where q f xs) ≡ some (if q x then f x else x)
  unfolding first update_where
  first-update_some p q f [] x k h = cc
  first-update_some p q f (y ∷ ys) x k h = ground (arith, k y, first-update_some p q f ys x k)

  pub first-append_some :
      (p : A → Bool) (xs ys : List A) (x : A) → first p xs ≡ some x → first p (xs ++ ys) ≡ some x
  unfolding first
  first-append_some p [] ys x h = cc
  first-append_some p (y ∷ xs) ys x h = ground (arith, first-append_some p xs ys x)

  -- A stronger test that the row found satisfies finds it too.
  pub first_stronger :
      (p q : A → Bool) (xs : List A) (x : A)
      → ((y : A) → q y ≡ true → p y ≡ true)
      → first p xs ≡ some x
      → q x ≡ true
      → first q xs ≡ some x
  unfolding first
  first_stronger p q [] x k h e = cc
  first_stronger p q (y ∷ ys) x k h e = ground (arith, k y, first_stronger p q ys x k)
