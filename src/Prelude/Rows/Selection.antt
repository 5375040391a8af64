-- ===== src/Prelude/Rows/Selection.antt =====
-- What a selection finds after an insertion, an update or a deletion.
use Prim.Native.Nat.{suc, ◌+◌, ◌≤◌}
use mathlib.Core.Path.{◌≡◌, refl, subst, ◌∙◌}
use mathlib.Core.Bool.{Bool, true, false, ◌&&◌, ◌||◌}
use mathlib.Core.Logic.{◌↔◌, ◌⊎◌, inl, inr}
use mathlib.Core.List.{List, [], ◌∷◌}
use native.Mathlib.Omega.{arith}
use saas_backend_fastapi.Prelude.Tests.{if◌then◌else◌, Bool-cases}
use saas_backend_fastapi.Prelude.Rows.Table.{
  length, select, update_where, delete_where, insert, any, All,
}

module _ {ℓ} {A : Type ℓ} (p : A → Bool) where
  pub select-insert :
      (x : A) (xs : List A)
      → select p (insert x xs) ≡ (if p x then insert x (select p xs) else select p xs)
  unfolding select insert
  select-insert x [] = ground arith
  select-insert x (y ∷ ys) = ground (arith, select-insert x ys)

  -- An update that leaves the test alone commutes with the selection.
  pub select-update_where :
      (q : A → Bool) (f : A → A)
      → ((x : A) → p (f x) ≡ p x)
      → (xs : List A) → select p (update_where q f xs) ≡ update_where q f (select p xs)
  unfolding select update_where
  select-update_where q f keeps [] = refl
  select-update_where q f keeps (x ∷ xs) = ground (arith, keeps x, select-update_where q f keeps xs)

  pub select-delete_where :
      (q : A → Bool) (xs : List A) → select p (delete_where q xs) ≡ delete_where q (select p xs)
  unfolding select delete_where
  select-delete_where q [] = refl
  select-delete_where q (x ∷ xs) = ground (arith, select-delete_where q xs)

  pub select-delete_self : (xs : List A) → select p (delete_where p xs) ≡ []
  unfolding select delete_where
  select-delete_self [] = refl
  select-delete_self (x ∷ xs) = ground (arith, select-delete_self xs)

  -- Where the deleted rows are none of the selected ones, the selection stays.
  pub select-delete_other :
      (q : A → Bool)
      → ((x : A) → p x ≡ true → q x ≡ false)
      → (xs : List A) → select p (delete_where q xs) ≡ select p xs
  unfolding select delete_where
  select-delete_other q apart [] = refl
  select-delete_other q apart (x ∷ xs) = ground (arith, apart x, select-delete_other q apart xs)

  -- Where the updated rows are none of the selected ones, before and after, the selection stays.
  pub select-update_other :
      (q : A → Bool) (f : A → A)
      → ((x : A) → q x ≡ true → (p x ≡ false) × (p (f x) ≡ false))
      → (xs : List A) → select p (update_where q f xs) ≡ select p xs
  unfolding select update_where
  select-update_other q f apart [] = refl
  select-update_other q f apart (x ∷ xs) = ground (arith, apart x, select-update_other q f apart xs)

  -- Where the deleted rows include all of the selected ones, none is left.
  pub select-delete_within :
      (q : A → Bool)
      → ((x : A) → p x ≡ true → q x ≡ true)
      → (xs : List A) → select p (delete_where q xs) ≡ []
  unfolding select delete_where
  select-delete_within q within [] = refl
  select-delete_within q within (x ∷ xs) =
      ground (arith, within x, select-delete_within q within xs)

  pub select_ext :
      (q : A → Bool) → ((x : A) → p x ≡ q x) → (xs : List A) → select p xs ≡ select q xs
  unfolding select
  select_ext q h [] = refl
  select_ext q h (x ∷ xs) = ground (arith, h x, select_ext q h xs)

  -- Every selected row passes the test.
  pub select-All : (xs : List A) → All (λ x. p x ≡ true) (select p xs)
  unfolding select
  select-All [] = tt
  select-All (x ∷ xs) = elim (Bool-cases (p x)) [
    | inl e ↦ rw e (e, select-All xs)
    | inr e ↦ rw e (select-All xs)
  ]

  pub select_single : (xs : List A) {x : A} → select p xs ≡ x ∷ [] → p x ≡ true
  select_single xs {x} e = (subst (All (λ y. p y ≡ true)) e (select-All xs)).0

  pub select-eq-nil_iff_any : (xs : List A) → (any p xs ≡ false) ↔ (select p xs ≡ [])
  unfolding any select
  select-eq-nil_iff_any [] = (λ _. refl, λ _. refl)
  select-eq-nil_iff_any (x ∷ xs) =
      let ih = select-eq-nil_iff_any xs in
      elim (Bool-cases (p x)) [
        | inl e ↦ (λ h. ground arith, λ h. ground arith)
        | inr e ↦ (λ h. ground (arith, ih.0), λ h. ground (arith, ih.1))
      ]

  pub length-delete-add-select :
      (xs : List A) → length (delete_where p xs) + length (select p xs) ≡ length xs
  unfolding select delete_where
  length-delete-add-select [] = omega arith
  length-delete-add-select (x ∷ xs) = ground (arith, length-delete-add-select xs)

module _ {ℓ} {A : Type ℓ} where
  -- A selection of a selection is a selection by both tests.
  pub select-select :
      (p q : A → Bool) (xs : List A) → select p (select q xs) ≡ select (λ x. q x && p x) xs
  unfolding select
  select-select p q [] = refl
  select-select p q (x ∷ xs) = ground (arith, select-select p q xs)

  pub select-delete_disjoint :
      (p q : A → Bool) (xs : List A)
      → ((x : A) → p x ≡ true → q x ≡ false)
      → select p (delete_where q xs) ≡ select p xs
  select-delete_disjoint p q xs h = select-delete_other p q h xs

  short_selection :
      (p : A → Bool) (xs : List A) {x : A} → length xs ≤ 1 → select p xs ≡ x ∷ [] → xs ≡ x ∷ []
  unfolding select
  short_selection p [] h e = cc
  short_selection p (y ∷ []) h e = ground arith
  short_selection p (y ∷ z ∷ l) h e = absurd (omega arith)

  pub select_comm : (p q : A → Bool) (xs : List A) → select p (select q xs) ≡ select q (select p xs)
  unfolding select
  select_comm p q [] = refl
  select_comm p q (x ∷ xs) = ground (arith, select_comm p q xs)

  pub select_one : (q : A → Bool) (x : A) → q x ≡ true → select q (x ∷ []) ≡ x ∷ []
  unfolding select
  select_one q x h = rw h

  pub select_one_not : (q : A → Bool) (x : A) → q x ≡ false → select q (x ∷ []) ≡ []
  unfolding select
  select_one_not q x h = rw h

  -- Where one row at most passes `q`, a selected row that passes it is all of them.
  pub select_unique :
      (p q : A → Bool) (xs : List A) {x : A}
      → length (select q xs) ≤ 1
      → select p xs ≡ x ∷ []
      → q x ≡ true
      → select q xs ≡ x ∷ []
  select_unique p q xs {x} one sel test =
      short_selection p (select q xs) one (rw (select_comm p q xs, sel) (select_one q x test))

  pub update_where_none :
      (q : A → Bool) (f : A → A) (xs : List A) → select q xs ≡ [] → update_where q f xs ≡ xs
  unfolding select update_where
  update_where_none q f [] h = refl
  update_where_none q f (x ∷ xs) h = ground (arith, update_where_none q f xs)

  pub short-cases : (xs : List A) → length xs ≤ 1 → (xs ≡ []) ⊎ ((x : A) × (xs ≡ x ∷ []))
  short-cases [] h = inl refl
  short-cases (x ∷ []) h = inr (x, refl)
  short-cases (x ∷ y ∷ l) h = absurd (omega arith)

  pub update_where_one :
      (q : A → Bool) (f : A → A) (x : A) → q x ≡ true → update_where q f (x ∷ []) ≡ f x ∷ []
  unfolding update_where
  update_where_one q f x h = rw h

  -- A row that no row of the table clashes with is found by no test that clashes with it.
  pub select_none_of_any :
      (p q : A → Bool) (xs : List A)
      → ((x : A) → q x ≡ true → p x ≡ true)
      → any p xs ≡ false
      → select q xs ≡ []
  unfolding select any
  select_none_of_any p q [] h e = refl
  select_none_of_any p q (x ∷ xs) h e = ground (arith, h x, select_none_of_any p q xs h)

  -- A new row that alone passes the test.
  pub select-insert_alone :
      (p : A → Bool) (x : A) (xs : List A)
      → p x ≡ true
      → select p xs ≡ []
      → select p (insert x xs) ≡ x ∷ []
  unfolding insert
  select-insert_alone p x xs h e = select-insert p x xs ∙ rw (h, e) refl

  -- A new row that fails the test.
  pub select-insert_miss :
      (p : A → Bool) (x : A) (xs : List A) → p x ≡ false → select p (insert x xs) ≡ select p xs
  select-insert_miss p x xs h = select-insert p x xs ∙ rw h refl

  pub any-insert_self :
      (p : A → Bool) (x : A) (xs : List A) → p x ≡ true → any p (insert x xs) ≡ true
  unfolding any insert
  any-insert_self p x [] h = ground arith
  any-insert_self p x (y ∷ ys) h = ground (arith, any-insert_self p x ys h)

  pub any-or :
      (p q : A → Bool) (xs : List A)
      → any p xs ≡ false
      → any q xs ≡ false
      → any (λ x. p x || q x) xs ≡ false
  unfolding any
  any-or p q [] h k = refl
  any-or p q (x ∷ xs) h k = ground (arith, any-or p q xs)

  pub any_imp :
      (p q : A → Bool) (xs : List A)
      → ((x : A) → q x ≡ true → p x ≡ true)
      → any p xs ≡ false
      → any q xs ≡ false
  unfolding any
  any_imp p q [] h e = refl
  any_imp p q (x ∷ xs) h e = ground (arith, h x, any_imp p q xs h)

  pub length-insert : (x : A) (xs : List A) → length (insert x xs) ≡ suc (length xs)
  unfolding insert
  length-insert x [] = refl
  length-insert x (y ∷ ys) = omega (arith, length-insert x ys)
