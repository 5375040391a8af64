-- ===== src/Migrations/Declarations.antt =====
-- app/models and app/db/base.py: the columns that the ORM declares for each table. A default that
-- the ORM fills in is none of the database.
use saas_backend_fastapi.Prelude.{
  String, Bool, true, false, ◌||◌, none, List, [], ◌∷◌, ◌==◌, if◌then◌else◌,
}
use saas_backend_fastapi.Prelude.Rows.{any}
use saas_backend_fastapi.Models.{
  role_value, owner, admin, member, viewer, plan_value, free, pro, enterprise,
  invitation_status_value, pending, accepted, expired, revoked, SubscriptionStatus, active,
  trialing, past_due, canceled, incomplete, OAuthProvider, local, google, github,
}
use saas_backend_fastapi.Migrations.{
  string, boolean, date_time, json, enum, cascade, set_null, Column, Index, Table,
}
use saas_backend_fastapi.Migrations.Initial.{column, with_key, id_column}

-- What counts of a table: its columns without the defaults of the server, the columns that are
-- unique, and those that have an index.
pub record Shape : Type 0 where
  pub columns : List Column
  pub unique : List String
  pub indexed : List String
  pub constraints : List (String × List String)

abbrev plain : Column → Column
plain c = record c { unique = false; server_default = none }

unfoldable pub plain_columns : List Column → List Column
plain_columns [] = []
plain_columns (c ∷ cs) = plain c ∷ plain_columns cs

unfoldable pub names_where : (Column → Bool) → List Column → List String
names_where p [] = []
names_where p (c ∷ cs) = let rest = names_where p cs in if p c then c.name ∷ rest else rest

-- the index is on this column alone
unfoldable pub on_column : String → List String → Bool
on_column name (n ∷ []) = n == name
on_column name _ = false

unfoldable pub unique_index : String → Index → Bool
unfolding on_column
unique_index name i = if i.unique then on_column name i.columns else false

unfoldable pub shape_of : Table → Shape
unfolding plain_columns names_where on_column unique_index any
shape_of t = record {
  columns = plain_columns t.columns;
  unique = names_where (λ c. c.unique || any (unique_index c.name) t.indexes) t.columns;
  indexed = names_where (λ c. any (λ i. on_column c.name i.columns) t.indexes) t.columns;
  constraints = t.constraints;
}

-- `Enum(X, values_callable=...)` stores the values, `Enum(SubscriptionStatus)` the names
abbrev pub provider_value : OAuthProvider → String
provider_value local = "local"
provider_value google = "google"
provider_value github = "github"

unfoldable pub status_label : SubscriptionStatus → String
status_label active = "ACTIVE"
status_label trialing = "TRIALING"
status_label past_due = "PAST_DUE"
status_label canceled = "CANCELED"
status_label incomplete = "INCOMPLETE"

-- `TimestampMixin`
abbrev pub timestamps : List Column
timestamps = column "created_at" date_time false ∷ column "updated_at" date_time false ∷ []

unfoldable pub user_shape : Shape
user_shape = record {
  columns =
      id_column
      ∷ column "email" (string 255) false
      ∷ column "hashed_password" (string 255) true
      ∷ column "full_name" (string 255) true
      ∷ column "avatar_url" (string 512) true
      ∷ column "is_active" boolean false
      ∷ column "is_superuser" boolean false
      ∷ column "is_verified" boolean false
      ∷ column "verification_token" (string 255) true
      ∷ column "reset_token" (string 255) true
      ∷ column "oauth_provider"
          (enum "oauthprovider"
            (provider_value local ∷ provider_value google ∷ provider_value github ∷ []))
          false
      ∷ column "oauth_provider_id" (string 255) true
      ∷ column "mfa_enabled" boolean false
      ∷ column "mfa_secret" (string 255) true
      ∷ timestamps;
  unique = "email" ∷ [];
  indexed = "email" ∷ "oauth_provider_id" ∷ [];
  constraints = [];
}

unfoldable pub organization_shape : Shape
unfolding plan_value
organization_shape = record {
  columns =
      id_column
      ∷ column "name" (string 255) false
      ∷ column "slug" (string 255) false
      ∷ column "logo_url" (string 512) true
      ∷ column "plan"
          (enum "plantier" (plan_value free ∷ plan_value pro ∷ plan_value enterprise ∷ [])) false
      ∷ column "paystack_customer_id" (string 255) true
      ∷ timestamps;
  unique = "slug" ∷ "paystack_customer_id" ∷ [];
  indexed = "slug" ∷ "paystack_customer_id" ∷ [];
  constraints = [];
}

unfoldable pub membership_shape : Shape
unfolding role_value
membership_shape = record {
  columns =
      id_column
      ∷ with_key "users" "id" cascade (column "user_id" (string 26) false)
      ∷ with_key "organizations" "id" cascade (column "organization_id" (string 26) false)
      ∷ column "role"
          (enum "memberrole"
            (role_value owner ∷ role_value admin ∷ role_value member ∷ role_value viewer ∷ []))
          false
      ∷ timestamps;
  unique = [];
  indexed = "user_id" ∷ "organization_id" ∷ [];
  constraints = ("uq_membership_user_org", "user_id" ∷ "organization_id" ∷ []) ∷ [];
}

unfoldable pub invitation_shape : Shape
unfolding invitation_status_value
invitation_shape = record {
  columns =
      id_column
      ∷ with_key "organizations" "id" cascade (column "organization_id" (string 26) false)
      ∷ column "email" (string 255) false
      ∷ column "role" (string 50) false
      ∷ column "token" (string 255) false
      ∷ with_key "users" "id" set_null (column "invited_by_id" (string 26) true)
      ∷ column "status"
          (enum "invitationstatus" (
            invitation_status_value pending
            ∷ invitation_status_value accepted
            ∷ invitation_status_value expired
            ∷ invitation_status_value revoked
            ∷ []))
          false
      ∷ column "expires_at" date_time false
      ∷ timestamps;
  unique = "token" ∷ [];
  indexed = "organization_id" ∷ "email" ∷ "token" ∷ [];
  constraints = [];
}

-- with the labels of the type of `status`
unfoldable pub subscription_shape : List String → Shape
subscription_shape labels = record {
  columns =
      id_column
      ∷ with_key "organizations" "id" cascade (column "organization_id" (string 26) false)
      ∷ column "paystack_sub_code" (string 255) false
      ∷ column "paystack_plan_code" (string 255) false
      ∷ column "status" (enum "subscriptionstatus" labels) false
      ∷ column "current_period_start" date_time false
      ∷ column "current_period_end" date_time false
      ∷ column "cancel_at_period_end" boolean false
      ∷ column "canceled_at" date_time true
      ∷ timestamps;
  unique = "organization_id" ∷ "paystack_sub_code" ∷ [];
  indexed = "organization_id" ∷ "paystack_sub_code" ∷ [];
  constraints = [];
}

unfoldable pub notification_shape : Shape
notification_shape = record {
  columns =
      id_column
      ∷ with_key "users" "id" cascade (column "user_id" (string 26) false)
      ∷ column "title" (string 255) false
      ∷ column "body" (string 1024) false
      ∷ column "link" (string 512) true
      ∷ column "is_read" boolean false
      ∷ column "read_at" date_time true
      ∷ column "meta" json true
      ∷ timestamps;
  unique = [];
  indexed = "user_id" ∷ [];
  constraints = [];
}

unfoldable pub audit_log_shape : Shape
audit_log_shape = record {
  columns =
      id_column
      ∷ with_key "organizations" "id" set_null (column "organization_id" (string 26) true)
      ∷ with_key "users" "id" set_null (column "user_id" (string 26) true)
      ∷ column "action" (string 255) false
      ∷ column "resource_type" (string 100) true
      ∷ column "resource_id" (string 26) true
      ∷ column "ip_address" (string 45) true
      ∷ column "user_agent" (string 512) true
      ∷ column "meta" json true
      ∷ timestamps;
  unique = [];
  indexed = "organization_id" ∷ "user_id" ∷ "action" ∷ [];
  constraints = [];
}
