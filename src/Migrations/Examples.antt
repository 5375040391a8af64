-- ===== src/Migrations/Examples.antt =====
-- The migrations on an empty catalog.
use saas_backend_fastapi.Prelude.{String, false, none, some, [], ◌∷◌, ◌≡◌, refl}
use mathlib.Core.List.{◌++◌}
use saas_backend_fastapi.Models.{active}
use saas_backend_fastapi.Migrations.{Catalog, drop_table, drop_type, migrate}
use saas_backend_fastapi.Migrations.Initial
use saas_backend_fastapi.Migrations.Paystack
use saas_backend_fastapi.Migrations.Restore.{
  IsVacant, IsUnreferenced, shape_after, downgrades_undo_upgrades,
}
use saas_backend_fastapi.Migrations.Declarations.{status_label}
use saas_backend_fastapi.Migrations.Agreement.{
  Agrees, accepted_by, upgrades_agree, status_labels_refused,
}

abbrev empty : Catalog
empty = record { tables = λ name. none; types = λ name. none; users = λ name. [] }

empty-IsVacant : IsVacant empty
empty-IsVacant = record {
  tables = (refl, (refl, (refl, (refl, (refl, (refl, (refl, tt)))))));
  types = (refl, (refl, (refl, (refl, (refl, tt)))));
}

empty-IsUnreferenced : IsUnreferenced empty
empty-IsUnreferenced = (
  refl,
  (refl, (refl, (refl, (refl, (refl, (refl, (refl, (refl, (refl, (refl, (refl, tt))))))))))),
)

downgrades_undo_upgrades_example :
    (migrate
        (Initial.upgrade ++ (Paystack.upgrade ++ (Paystack.downgrade ++ Initial.downgrade)))
        empty
      ≡ some empty)
    × ((n : String)
        → shape_after (Initial.upgrade ++ (Paystack.upgrade ++ Paystack.downgrade)) empty n
          ≡ shape_after Initial.upgrade empty n)
downgrades_undo_upgrades_example =
    downgrades_undo_upgrades empty empty-IsVacant empty-IsUnreferenced

upgrades_agree_example : Agrees empty
upgrades_agree_example = upgrades_agree empty empty-IsVacant

status_labels_refused_example : accepted_by empty (status_label active) ≡ false
status_labels_refused_example = status_labels_refused empty empty-IsVacant active

-- The Paystack migration alone is refused: its tables are not there.
paystack_alone : migrate Paystack.upgrade empty ≡ none
unfolding migrate
paystack_alone = refl

-- A type that a column has is not dropped, nor a table that another refers to.
type_in_use : migrate (Initial.upgrade ++ (drop_type "memberrole" ∷ [])) empty ≡ none
unfolding migrate
type_in_use = refl

table_in_use : migrate (Initial.upgrade ++ (drop_table "users" ∷ [])) empty ≡ none
unfolding migrate
table_in_use = refl
