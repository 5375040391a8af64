-- ===== src/Prelude/Rows/Everywhere.antt =====
-- What holds of every row of a table, after an INSERT or an UPDATE, and of the rows of a SELECT.
use mathlib.Core.Bool.{Bool}
use mathlib.Core.Logic.{inl, inr}
use mathlib.Core.List.{List, [], ◌∷◌}
use saas_backend_fastapi.Prelude.Tests.{Bool-cases}
use saas_backend_fastapi.Prelude.Rows.Table.{select, update_where, insert, All}

module _ {ℓ κ} {A : Type ℓ} (P : A → Type κ) where
  pub All-insert : (x : A) (xs : List A) → P x → All P xs → All P (insert x xs)
  unfolding insert
  All-insert x [] px all = (px, tt)
  All-insert x (y ∷ ys) px (py, all) = (py, All-insert x ys px all)

  pub All-update_where :
      (q : A → Bool) (f : A → A) (xs : List A)
      → ((x : A) → P x → P (f x))
      → All P xs
      → All P (update_where q f xs)
  unfolding update_where
  All-update_where q f [] keeps all = tt
  All-update_where q f (x ∷ xs) keeps (px, all) = elim (Bool-cases (q x)) [
    | inl hit ↦ rw hit (keeps x px, All-update_where q f xs keeps all)
    | inr miss ↦ rw miss (px, All-update_where q f xs keeps all)
  ]

  pub All-select : (q : A → Bool) (xs : List A) → All P xs → All P (select q xs)
  unfolding select
  All-select q [] all = tt
  All-select q (x ∷ xs) (px, all) = elim (Bool-cases (q x)) [
    | inl hit ↦ rw hit (px, All-select q xs all)
    | inr miss ↦ rw miss (All-select q xs all)
  ]
