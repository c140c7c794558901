-- ===== src/Prelude/Tables.antt =====
-- The queries of a table: its rows in the order of their insertion.
use Prim.Native.Nat.{ℕ, ◌+◌}
use mathlib.Core.Path.{◌≡◌, refl}
use mathlib.Core.Bool.{Bool, true, false, ◌||◌}
use mathlib.Core.Option.{Option, none, some}
use mathlib.Core.List.{List, [], ◌∷◌, ◌++◌}
use native.Mathlib.Omega.{arith}
use hermes_voice_console.Prelude.Tests.{ltb, if◌then◌else◌}

module _ {ℓ} {A : Type ℓ} where
  -- `SELECT * … WHERE p`, the first row
  unfoldable pub first : (A → Bool) → List A → Option A
  first p [] = none
  first p (x ∷ xs) = if p x then some x else first p xs

  -- Whether a row satisfies `p`.
  unfoldable pub any : (A → Bool) → List A → Bool
  any p [] = false
  any p (x ∷ xs) = p x || any p xs

  -- `SELECT * … WHERE p`
  unfoldable pub select : (A → Bool) → List A → List A
  select p [] = []
  select p (x ∷ xs) = let rest = select p xs in if p x then x ∷ rest else rest

  -- `UPDATE … SET … WHERE p`
  unfoldable pub update_where : (A → Bool) → (A → A) → List A → List A
  update_where p f [] = []
  update_where p f (x ∷ xs) = (if p x then f x else x) ∷ update_where p f xs

  -- The number of rows that satisfy `p`.
  unfoldable pub count_where : (A → Bool) → List A → ℕ
  count_where p [] = 0
  count_where p (x ∷ xs) = (if p x then 1 else 0) + count_where p xs

  -- `ORDER BY key DESC LIMIT 1`; of equal keys, the row that was inserted first.
  unfoldable pub latest : (A → ℕ) → List A → Option A
  latest key [] = none
  latest key (x ∷ xs) = elim (latest key xs) [
    | none ↦ some x
    | some y ↦ if ltb (key x) (key y) then some y else some x
  ]

  -- One row into a list that is ordered by `key`, before the rows of an equal key.
  unfoldable pub insert_by : (A → ℕ) → A → List A → List A
  insert_by key x [] = x ∷ []
  insert_by key x (y ∷ ys) = if ltb (key y) (key x) then y ∷ insert_by key x ys else x ∷ y ∷ ys

  -- `ORDER BY key`; rows of equal keys in the order of their insertion
  unfoldable pub order_by : (A → ℕ) → List A → List A
  unfolding insert_by
  order_by key [] = []
  order_by key (x ∷ xs) = insert_by key x (order_by key xs)

  -- One row into a list that falls by `key`, before the rows of an equal key.
  unfoldable pub insert_by_desc : (A → ℕ) → A → List A → List A
  insert_by_desc key x [] = x ∷ []
  insert_by_desc key x (y ∷ ys) =
      if ltb (key x) (key y) then y ∷ insert_by_desc key x ys else x ∷ y ∷ ys

  -- `ORDER BY key DESC`
  unfoldable pub order_by_desc : (A → ℕ) → List A → List A
  unfolding insert_by_desc
  order_by_desc key [] = []
  order_by_desc key (x ∷ xs) = insert_by_desc key x (order_by_desc key xs)

  pub first_holds : (p : A → Bool) (xs : List A) (x : A) → first p xs ≡ some x → p x ≡ true
  unfolding first
  first_holds p [] x h = ground arith
  first_holds p (y ∷ ys) x h = ground (arith, first_holds p ys x)

  pub any-first : (p : A → Bool) (xs : List A) → any p xs ≡ false → first p xs ≡ none
  unfolding first any
  any-first p [] h = refl
  any-first p (x ∷ xs) h = ground (arith, any-first p xs)

  pub first-append_fresh :
      (p : A → Bool) (xs : List A) (x : A)
      → any p xs ≡ false
      → p x ≡ true
      → first p (xs ++ x ∷ []) ≡ some x
  unfolding first any
  first-append_fresh p [] x h e = ground arith
  first-append_fresh p (y ∷ ys) x h e = ground (arith, first-append_fresh p ys x)

  pub any-append : (p : A → Bool) (xs ys : List A) → any p (xs ++ ys) ≡ (any p xs || any p ys)
  unfolding any
  any-append p [] ys = refl
  any-append p (x ∷ xs) ys = ground (arith, any-append p xs ys)

  -- Nothing is selected exactly when no row fits.
  pub latest-none :
      (key : A → ℕ) (p : A → Bool) (xs : List A)
      → latest key (select p xs) ≡ none
      → any p xs ≡ false
  unfolding latest select any
  latest-none key p [] h = refl
  latest-none key p (x ∷ xs) h = ground (arith, latest-none key p xs)

  pub latest_holds :
      (key : A → ℕ) (p : A → Bool) (xs : List A) (x : A)
      → latest key (select p xs) ≡ some x
      → p x ≡ true
  unfolding latest select
  latest_holds key p [] x h = ground arith
  latest_holds key p (y ∷ ys) x h = ground (arith, latest_holds key p ys x)
