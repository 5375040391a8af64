-- ===== src/Checkout.antt =====
-- app/services/billing_service.py: `initialize_transaction` and `verify_transaction`, which call the
-- API of Paystack. An answer is the JSON of a successful one; any other raises.
use saas_backend_fastapi.Prelude.{
  String, ◌++◌, ◌==◌, Bool, false, not, Option, none, some, if◌then◌else◌,
}
use saas_backend_fastapi.Errors.{key_error, value_error, http_status_error, bad_request, not_found}
use saas_backend_fastapi.Models.{
  Organization, PlanTier, free, pro, enterprise, is_free, active, plan_value,
}
use saas_backend_fastapi.Text.{decimal}
use saas_backend_fastapi.Json.{
  Json, null, text, object, Members, no_members, with_member, empty_object, get_or, as_column,
  required, is_truthy, or_empty,
}
use saas_backend_fastapi.Platform.{Platform}
use saas_backend_fastapi.World.{Exec, pure, throw, raise_if, or_raise, query, get_now, ◌>>=◌, ◌>>◌}
use saas_backend_fastapi.Repositories.Organizations
use saas_backend_fastapi.Billing.{plan_of_code, upsert_subscription_record}

-- `value[key]`
unfoldable pub item_of : String → Members → Exec Json
item_of key no_members = throw key_error
item_of key (with_member k value rest) =
    let other = item_of key rest in if k == key then pure value else other

unfoldable pub item : String → Json → Exec Json
unfolding item_of
item key (object members) = item_of key members
item key _ = throw value_error

-- the answer of the API, or `raise_for_status`
unfoldable pub answered : Option Json → Exec Json
answered none = throw http_status_error
answered (some body) = pure body

-- `tx["status"] != "success"`
unfoldable pub is_success : Json → Bool
is_success (text s) = s == "success"
is_success _ = false

abbrev pub with_customer : Option String → PlanTier → Organization → Organization
with_customer code plan o = record o { paystack_customer_id = code; plan = plan }

-- the assignments to the organization, and their flush
unfoldable pub save_customer : String → Option String → PlanTier → Exec (Unit {0})
save_customer org_id none plan = Organizations.save org_id (with_customer none plan)
save_customer org_id (some code) plan =
    Organizations.save_customer org_id code (with_customer (some code) plan)

module _ (p : Platform) where
  -- `PLAN_CODE_MAP.get(plan)`
  unfoldable pub code_of_plan : PlanTier → String
  code_of_plan free = ""
  code_of_plan pro = p.settings.paystack_pro_plan_code
  code_of_plan enterprise = p.settings.paystack_enterprise_plan_code

  unfoldable pub initialize_transaction : Organization → PlanTier → String → String → Exec Json
  unfolding code_of_plan answered item
  initialize_transaction org plan user_email callback_url = do
    raise_if (is_free plan) (bad_request "Cannot create checkout for the free plan.")
    raise_if (code_of_plan plan == "")
        (bad_request ("No Paystack plan configured for plan: " ++ p.str_of_plan plan))
    now ← get_now
    let reference = org.id ++ ("_" ++ (plan_value plan ++ ("_" ++ decimal now)))
    body ←
        answered
          (p.paystack_initializes user_email (code_of_plan plan) callback_url reference org.id)
    answer ← item "data" body
    item "authorization_url" answer

  -- the organization, its plan and its customer code, from a transaction that succeeded
  unfoldable pub sync_plan : Json → String → Exec PlanTier
  unfolding item save_customer
  sync_plan tx org_id = do
    found ← query (Organizations.get_by_id org_id)
    org ← or_raise (not_found "Organization") found
    plan ← get_or empty_object "plan" tx
    code ← get_or (text "") "plan_code" plan
    plan_code ← as_column code
    customer ← item "customer" tx
    customer_code ← item "customer_code" customer
    column ← as_column customer_code
    save_customer org.id column (plan_of_code p plan_code)
    pure (plan_of_code p plan_code)

  -- `if sub_data.get("subscription_code"):`
  unfoldable pub sync_subscription : Json → String → Exec (Unit {0})
  sync_subscription tx org_id = do
    subscription ← get_or null "subscription" tx
    sub_code ← get_or null "subscription_code" (or_empty subscription)
    if is_truthy sub_code
        then (do
          plan ← get_or empty_object "plan" tx
          plan_code ← get_or (text "") "plan_code" plan
          plan_text ← as_column plan_code
          sub_text ← as_column sub_code
          upsert_subscription_record p (some org_id) sub_text plan_text active null)
        else pure tt

  unfoldable pub verify_transaction : String → Exec (String × PlanTier)
  unfolding answered item is_success sync_plan sync_subscription
  verify_transaction reference = do
    body ← answered (p.paystack_verifies reference)
    tx ← item "data" body
    status ← item "status" tx
    raise_if (not (is_success status)) (
        bad_request (
          "Transaction '"
          ++ (reference ++ ("' was not successful (status: " ++ (p.str_of status ++ ")")))))
    metadata ← get_or null "metadata" tx
    org_id ← get_or (text "") "organization_id" (or_empty metadata)
    raise_if (not (is_truthy org_id)) (bad_request "Transaction metadata missing organization_id.")
    column ← as_column org_id
    id ← required column
    plan ← sync_plan tx id
    sync_subscription tx id
    pure (id, plan)
