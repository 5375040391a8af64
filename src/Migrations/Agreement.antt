-- ===== src/Migrations/Agreement.antt =====
-- The tables that the migrations of app/db make are the tables that app/models declares.
use saas_backend_fastapi.Prelude.{String, Bool, false, Option, none, some, ◌==◌, ◌≡◌, refl}
use saas_backend_fastapi.Prelude.Rows.{any}
use mathlib.Core.List.{◌++◌}
use mathlib.Core.Path.{subst}
use saas_backend_fastapi.Models.{
  SubscriptionStatus, active, trialing, past_due, canceled, incomplete,
}
use saas_backend_fastapi.Migrations.{Catalog, migrate}
use saas_backend_fastapi.Migrations.Initial
use saas_backend_fastapi.Migrations.Paystack
use saas_backend_fastapi.Migrations.Restore.{IsVacant, vacant, vacant_same, types_of, shape_after}
use saas_backend_fastapi.Migrations.Declarations.{
  Shape, shape_of, status_label, user_shape, organization_shape, membership_shape, invitation_shape,
  subscription_shape, notification_shape, audit_log_shape,
}

abbrev pub upgraded : Catalog → Option Catalog
upgraded c = migrate (Initial.upgrade ++ Paystack.upgrade) c

abbrev pub shape_in : Catalog → String → Option Shape
shape_in = shape_after (Initial.upgrade ++ Paystack.upgrade)

-- the tables of the models, `status` of the subscriptions apart
abbrev pub Agrees : Catalog → Type 0
Agrees c =
    (shape_in c "users" ≡ some user_shape)
    × (shape_in c "organizations" ≡ some organization_shape)
    × (shape_in c "memberships" ≡ some membership_shape)
    × (shape_in c "invitations" ≡ some invitation_shape)
    × (shape_in c "subscriptions" ≡ some (subscription_shape Initial.subscriptionstatus_labels))
    × (shape_in c "notifications" ≡ some notification_shape)
    × (shape_in c "audit_logs" ≡ some audit_log_shape)

vacant-Agrees : (c : Catalog) → Agrees (vacant c)
unfolding migrate shape_of user_shape organization_shape membership_shape invitation_shape
    subscription_shape notification_shape audit_log_shape
vacant-Agrees c = (refl, refl, refl, refl, refl, refl, refl)

-- After both upgrades, in a catalog that had none of the names, each of the seven tables has the
-- columns that its model declares, with their types, nullability and foreign keys, the same unique
-- and indexed columns, and the same constraints; of the type of the status of a subscription the
-- labels are those of the migration.
pub upgrades_agree : (c : Catalog) → IsVacant c → Agrees c
upgrades_agree c v = subst Agrees (vacant_same c v) (vacant-Agrees c)

abbrev pub accepted_by : Catalog → String → Bool
accepted_by c label = elim (types_of (upgraded c) "subscriptionstatus") [
  | none ↦ false
  | some labels ↦ any (λ l. l == label) labels
]

vacant_refuses :
    (c : Catalog) (s : SubscriptionStatus) → accepted_by (vacant c) (status_label s) ≡ false
unfolding migrate status_label any
vacant_refuses c active = refl
vacant_refuses c trialing = refl
vacant_refuses c past_due = refl
vacant_refuses c canceled = refl
vacant_refuses c incomplete = refl

-- The label that the ORM stores for the status of a subscription, its name in capitals, is none of
-- the labels of the type that the migrations create, whatever the status.
pub status_labels_refused :
    (c : Catalog) → IsVacant c → (s : SubscriptionStatus) → accepted_by c (status_label s) ≡ false
status_labels_refused c v s =
    subst (λ x. accepted_by x (status_label s) ≡ false) (vacant_same c v) (vacant_refuses c s)
