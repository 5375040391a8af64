-- ===== src/Migrations/Initial.antt =====
-- app/db/migrations/versions/0001_initial.py: the columns of each table, and the operations.
use saas_backend_fastapi.Prelude.{String, Bool, true, false, none, some, List, [], ◌∷◌}
use mathlib.Core.List.{◌++◌}
use saas_backend_fastapi.Migrations.{
  ColumnType, string, boolean, date_time, json, enum, OnDelete, cascade, set_null, Column,
  Operation, create_table, drop_table, create_index, drop_type,
}

-- `sa.Column(name, type, nullable=...)`, and its other arguments
abbrev pub column : String → ColumnType → Bool → Column
column name type nullable = record {
  name = name;
  type = type;
  nullable = nullable;
  primary_key = false;
  unique = false;
  foreign_key = none;
  server_default = none;
}

abbrev pub with_default : String → Column → Column
with_default value c = record c { server_default = some value }

abbrev pub with_unique : Column → Column
with_unique c = record c { unique = true }

abbrev pub with_key : String → String → OnDelete → Column → Column
with_key table to on_delete c = record c {
  foreign_key = some (record { table = table; column = to; on_delete = on_delete });
}

abbrev pub id_column : Column
id_column = record (column "id" (string 26) false) { primary_key = true }

abbrev pub time_stamp : String → Column
time_stamp name = with_default "now()" (column name date_time false)

abbrev pub oauthprovider_labels : List String
oauthprovider_labels = "local" ∷ "google" ∷ "github" ∷ []

abbrev pub plantier_labels : List String
plantier_labels = "free" ∷ "pro" ∷ "enterprise" ∷ []

abbrev pub memberrole_labels : List String
memberrole_labels = "owner" ∷ "admin" ∷ "member" ∷ "viewer" ∷ []

abbrev pub invitationstatus_labels : List String
invitationstatus_labels = "pending" ∷ "accepted" ∷ "expired" ∷ "revoked" ∷ []

abbrev pub subscriptionstatus_labels : List String
subscriptionstatus_labels = "active" ∷ "trialing" ∷ "past_due" ∷ "canceled" ∷ "incomplete" ∷ []

abbrev pub users_columns : List Column
users_columns =
    id_column
    ∷ column "email" (string 255) false
    ∷ column "hashed_password" (string 255) true
    ∷ column "full_name" (string 255) true
    ∷ column "avatar_url" (string 512) true
    ∷ with_default "true" (column "is_active" boolean false)
    ∷ with_default "false" (column "is_superuser" boolean false)
    ∷ with_default "false" (column "is_verified" boolean false)
    ∷ column "verification_token" (string 255) true
    ∷ column "reset_token" (string 255) true
    ∷ with_default "local"
        (column "oauth_provider" (enum "oauthprovider" oauthprovider_labels) false)
    ∷ column "oauth_provider_id" (string 255) true
    ∷ with_default "false" (column "mfa_enabled" boolean false)
    ∷ column "mfa_secret" (string 255) true
    ∷ time_stamp "created_at"
    ∷ time_stamp "updated_at"
    ∷ []

abbrev pub organizations_columns : List Column
organizations_columns =
    id_column
    ∷ column "name" (string 255) false
    ∷ column "slug" (string 255) false
    ∷ column "logo_url" (string 512) true
    ∷ with_default "free" (column "plan" (enum "plantier" plantier_labels) false)
    ∷ column "stripe_customer_id" (string 255) true
    ∷ time_stamp "created_at"
    ∷ time_stamp "updated_at"
    ∷ []

abbrev pub memberships_columns : List Column
memberships_columns =
    id_column
    ∷ with_key "users" "id" cascade (column "user_id" (string 26) false)
    ∷ with_key "organizations" "id" cascade (column "organization_id" (string 26) false)
    ∷ with_default "member" (column "role" (enum "memberrole" memberrole_labels) false)
    ∷ time_stamp "created_at"
    ∷ time_stamp "updated_at"
    ∷ []

abbrev pub invitations_columns : List Column
invitations_columns =
    id_column
    ∷ with_key "organizations" "id" cascade (column "organization_id" (string 26) false)
    ∷ column "email" (string 255) false
    ∷ with_default "member" (column "role" (string 50) false)
    ∷ column "token" (string 255) false
    ∷ with_key "users" "id" set_null (column "invited_by_id" (string 26) true)
    ∷ with_default "pending"
        (column "status" (enum "invitationstatus" invitationstatus_labels) false)
    ∷ column "expires_at" date_time false
    ∷ time_stamp "created_at"
    ∷ time_stamp "updated_at"
    ∷ []

abbrev pub subscriptions_columns : List Column
subscriptions_columns =
    id_column
    ∷ with_key "organizations" "id" cascade
        (with_unique (column "organization_id" (string 26) false))
    ∷ column "stripe_subscription_id" (string 255) false
    ∷ column "stripe_price_id" (string 255) false
    ∷ column "status" (enum "subscriptionstatus" subscriptionstatus_labels) false
    ∷ column "current_period_start" date_time false
    ∷ column "current_period_end" date_time false
    ∷ with_default "false" (column "cancel_at_period_end" boolean false)
    ∷ column "canceled_at" date_time true
    ∷ time_stamp "created_at"
    ∷ time_stamp "updated_at"
    ∷ []

abbrev pub notifications_columns : List Column
notifications_columns =
    id_column
    ∷ with_key "users" "id" cascade (column "user_id" (string 26) false)
    ∷ column "title" (string 255) false
    ∷ column "body" (string 1024) false
    ∷ column "link" (string 512) true
    ∷ with_default "false" (column "is_read" boolean false)
    ∷ column "read_at" date_time true
    ∷ column "meta" json true
    ∷ time_stamp "created_at"
    ∷ time_stamp "updated_at"
    ∷ []

abbrev pub audit_logs_columns : List Column
audit_logs_columns =
    id_column
    ∷ with_key "organizations" "id" set_null (column "organization_id" (string 26) true)
    ∷ with_key "users" "id" set_null (column "user_id" (string 26) true)
    ∷ column "action" (string 255) false
    ∷ column "resource_type" (string 100) true
    ∷ column "resource_id" (string 26) true
    ∷ column "ip_address" (string 45) true
    ∷ column "user_agent" (string 512) true
    ∷ column "meta" json true
    ∷ time_stamp "created_at"
    ∷ time_stamp "updated_at"
    ∷ []

abbrev pub create_users : List Operation
create_users =
    create_table "users" users_columns []
    ∷ create_index "ix_users_email" "users" ("email" ∷ []) true
    ∷ create_index "ix_users_oauth_provider_id" "users" ("oauth_provider_id" ∷ []) false
    ∷ []

abbrev pub create_organizations : List Operation
create_organizations =
    create_table "organizations" organizations_columns []
    ∷ create_index "ix_organizations_slug" "organizations" ("slug" ∷ []) true
    ∷ create_index "ix_organizations_stripe_customer_id" "organizations" ("stripe_customer_id" ∷ [])
        true
    ∷ []

abbrev pub create_memberships : List Operation
create_memberships =
    create_table "memberships" memberships_columns
      (("uq_membership_user_org", "user_id" ∷ "organization_id" ∷ []) ∷ [])
    ∷ create_index "ix_memberships_user_id" "memberships" ("user_id" ∷ []) false
    ∷ create_index "ix_memberships_organization_id" "memberships" ("organization_id" ∷ []) false
    ∷ []

abbrev pub create_invitations : List Operation
create_invitations =
    create_table "invitations" invitations_columns []
    ∷ create_index "ix_invitations_token" "invitations" ("token" ∷ []) true
    ∷ create_index "ix_invitations_email" "invitations" ("email" ∷ []) false
    ∷ create_index "ix_invitations_organization_id" "invitations" ("organization_id" ∷ []) false
    ∷ []

abbrev pub create_subscriptions : List Operation
create_subscriptions =
    create_table "subscriptions" subscriptions_columns []
    ∷ create_index "ix_subscriptions_stripe_subscription_id" "subscriptions"
        ("stripe_subscription_id" ∷ []) true
    ∷ create_index "ix_subscriptions_organization_id" "subscriptions" ("organization_id" ∷ []) false
    ∷ []

abbrev pub create_notifications : List Operation
create_notifications =
    create_table "notifications" notifications_columns []
    ∷ create_index "ix_notifications_user_id" "notifications" ("user_id" ∷ []) false
    ∷ []

abbrev pub create_audit_logs : List Operation
create_audit_logs =
    create_table "audit_logs" audit_logs_columns []
    ∷ create_index "ix_audit_logs_organization_id" "audit_logs" ("organization_id" ∷ []) false
    ∷ create_index "ix_audit_logs_user_id" "audit_logs" ("user_id" ∷ []) false
    ∷ create_index "ix_audit_logs_action" "audit_logs" ("action" ∷ []) false
    ∷ []

abbrev pub upgrade : List Operation
upgrade =
    create_users ++ create_organizations ++ create_memberships ++ create_invitations
    ++ create_subscriptions ++ create_notifications ++ create_audit_logs

abbrev pub downgrade : List Operation
downgrade =
    drop_table "audit_logs"
    ∷ drop_table "notifications"
    ∷ drop_table "subscriptions"
    ∷ drop_table "invitations"
    ∷ drop_table "memberships"
    ∷ drop_table "organizations"
    ∷ drop_table "users"
    ∷ drop_type "oauthprovider"
    ∷ drop_type "plantier"
    ∷ drop_type "memberrole"
    ∷ drop_type "invitationstatus"
    ∷ drop_type "subscriptionstatus"
    ∷ []
