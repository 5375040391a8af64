-- ===== src/Prelude/Rows/Updates.antt =====
-- Updates of one row, and of the rows that a test selects.
use mathlib.Core.Path.{◌≡◌, refl}
use mathlib.Core.Bool.{Bool, true, false}
use mathlib.Core.Logic.{inl, inr}
use mathlib.Core.List.{List, [], ◌∷◌}
use native.Mathlib.Omega.{arith}
use saas_backend_fastapi.Prelude.Tests.{Bool-cases}
use saas_backend_fastapi.Prelude.Rows.Table.{length, select, update_where, All}
use saas_backend_fastapi.Prelude.Rows.Selection.{update_where_none}

module _ {ℓ} {A : Type ℓ} where
  -- An update after which no row passes the test, and that reaches all that did.
  update_keeps_none :
      (p q : A → Bool) (f : A → A) (xs : List A)
      → ((y : A) → p (f y) ≡ false)
      → select p xs ≡ []
      → select p (update_where q f xs) ≡ []
  unfolding select update_where
  update_keeps_none p q f [] kills h = refl
  update_keeps_none p q f (x ∷ xs) kills h =
      ground (arith, kills x, update_keeps_none p q f xs kills)

  pub select-update_kill :
      (p q : A → Bool) (f : A → A) (xs : List A) {x : A}
      → ((y : A) → p (f y) ≡ false)
      → select p xs ≡ x ∷ []
      → q x ≡ true
      → select p (update_where q f xs) ≡ []
  unfolding select update_where
  select-update_kill p q f [] kills h hit = cc
  select-update_kill p q f (y ∷ ys) {x} kills h hit = elim (Bool-cases (p y)) [
    | inl e ↦ let none_left = update_keeps_none p q f ys kills in ground (arith, kills y)
    | inr e ↦
        let rest : select p ys ≡ x ∷ [] → select p (update_where q f ys) ≡ [] =
          λ k. select-update_kill p q f ys kills k hit in
        ground (arith, kills y)
  ]

  -- An update that makes rows pass, where none did.
  pub select-update_make :
      (p q : A → Bool) (f : A → A) (xs : List A)
      → ((y : A) → p (f y) ≡ true)
      → select p xs ≡ []
      → select p (update_where q f xs) ≡ update_where q f (select q xs)
  unfolding select update_where
  select-update_make p q f [] makes h = refl
  select-update_make p q f (x ∷ xs) makes h =
      ground (arith, makes x, select-update_make p q f xs makes)

  -- Where one row is updated, what holds of all rows need only be shown of its new value.
  pub All-update_where_one {κ} :
      (P : A → Type κ) (q : A → Bool) (f : A → A) (xs : List A) {x : A}
      → select q xs ≡ x ∷ []
      → P (f x)
      → All P xs
      → All P (update_where q f xs)
  unfolding select update_where
  All-update_where_one P q f [] e px all = tt
  All-update_where_one P q f (y ∷ ys) {x} e px (py, all) = elim (Bool-cases (q y)) [
    | inl hit ↦
        let same : y ≡ x = ground arith in
        let rest : select q ys ≡ [] = ground arith in
        rw (hit, same, update_where_none q f ys rest) (px, all)
    | inr miss ↦
        let rest : select q ys ≡ x ∷ [] = ground arith in
        rw miss (py, All-update_where_one P q f ys rest px all)
  ]

  pub length-update_where :
      (q : A → Bool) (f : A → A) (xs : List A) → length (update_where q f xs) ≡ length xs
  unfolding update_where
  length-update_where q f [] = refl
  length-update_where q f (x ∷ xs) = omega (arith, length-update_where q f xs)
