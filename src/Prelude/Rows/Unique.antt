-- ===== src/Prelude/Rows/Unique.antt =====
-- A test that one row at most passes, as a UNIQUE constraint says, after an UPDATE, a DELETE or an
-- INSERT.
use Prim.Native.Nat.{◌≤◌}
use mathlib.Core.Path.{◌≡◌}
use mathlib.Core.Bool.{Bool, true, false}
use mathlib.Core.Logic.{inl, inr}
use mathlib.Core.List.{List, []}
use native.Mathlib.Omega.{arith}
use saas_backend_fastapi.Prelude.Tests.{Bool-cases}
use saas_backend_fastapi.Prelude.Rows.Table.{
  length, select, update_where, delete_where, insert, any,
}
use saas_backend_fastapi.Prelude.Rows.Selection.{
  select-update_where, select-delete_where, select-insert, select_none_of_any, length-insert,
  length-delete-add-select,
}
use saas_backend_fastapi.Prelude.Rows.Updates.{length-update_where}

module _ {ℓ} {A : Type ℓ} (test : A → Bool) (rows : List A) where
  pub one_updated :
      (q : A → Bool) (f : A → A)
      → ((x : A) → test (f x) ≡ test x)
      → length (select test rows) ≤ 1
      → length (select test (update_where q f rows)) ≤ 1
  one_updated q f keeps h =
      rw (select-update_where test q f keeps rows)
        (omega (arith, length-update_where q f (select test rows)))

  pub one_deleted :
      (q : A → Bool)
      → length (select test rows) ≤ 1
      → length (select test (delete_where q rows)) ≤ 1
  one_deleted q h =
      rw (select-delete_where test q rows)
        (omega (arith, length-delete-add-select q (select test rows)))

  pub one_inserted :
      (clash : A → Bool) (new : A)
      → (test new ≡ true → (x : A) → test x ≡ true → clash x ≡ true)
      → any clash rows ≡ false
      → length (select test rows) ≤ 1
      → length (select test (insert new rows)) ≤ 1
  one_inserted clash new clashes fresh h =
      rw (select-insert test new rows) (elim (Bool-cases (test new)) [
        | inl hit ↦
            let none_yet = select_none_of_any clash test rows (clashes hit) fresh in
            rw (hit, none_yet) (omega (arith, length-insert new []))
        | inr miss ↦ rw miss h
      ])
