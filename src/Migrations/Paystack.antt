-- ===== src/Migrations/Paystack.antt =====
-- app/db/migrations/versions/0002_stripe_to_paystack.py
use saas_backend_fastapi.Prelude.{true, List, [], ◌∷◌}
use saas_backend_fastapi.Migrations.{Operation, create_index, drop_index, rename_column}

abbrev pub upgrade : List Operation
upgrade =
    rename_column "organizations" "stripe_customer_id" "paystack_customer_id"
    ∷ drop_index "ix_organizations_stripe_customer_id" "organizations"
    ∷ create_index "ix_organizations_paystack_customer_id" "organizations"
        ("paystack_customer_id" ∷ []) true
    ∷ rename_column "subscriptions" "stripe_subscription_id" "paystack_sub_code"
    ∷ drop_index "ix_subscriptions_stripe_subscription_id" "subscriptions"
    ∷ create_index "ix_subscriptions_paystack_sub_code" "subscriptions" ("paystack_sub_code" ∷ [])
        true
    ∷ rename_column "subscriptions" "stripe_price_id" "paystack_plan_code"
    ∷ []

abbrev pub downgrade : List Operation
downgrade =
    rename_column "subscriptions" "paystack_plan_code" "stripe_price_id"
    ∷ drop_index "ix_subscriptions_paystack_sub_code" "subscriptions"
    ∷ rename_column "subscriptions" "paystack_sub_code" "stripe_subscription_id"
    ∷ create_index "ix_subscriptions_stripe_subscription_id" "subscriptions"
        ("stripe_subscription_id" ∷ []) true
    ∷ drop_index "ix_organizations_paystack_customer_id" "organizations"
    ∷ rename_column "organizations" "paystack_customer_id" "stripe_customer_id"
    ∷ create_index "ix_organizations_stripe_customer_id" "organizations" ("stripe_customer_id" ∷ [])
        true
    ∷ []
