-- ===== src/Billing.antt =====
-- app/services/billing_service.py: the webhook of Paystack and its handlers, the record of the
-- subscription, and cancellation. A text that reaches the database as another JSON value is refused
-- there, which is `value_error`. Signatures are ASCII.
mod Examples
pub mod Safety
pub mod Parts
pub mod Webhook
pub mod Upsert
use saas_backend_fastapi.Prelude.{
  ℕ, String, ◌++◌, ◌==◌, Bool, true, false, not, ◌&&◌, Option, none, some, if◌then◌else◌, truthy,
  is_some, or_default,
}
use saas_backend_fastapi.Errors.{
  integrity_error, attribute_error, value_error, json_decode_error, http_status_error, bad_request,
  not_found,
}
use saas_backend_fastapi.Models.{
  Organization, PlanTier, free, pro, enterprise, Subscription, SubscriptionStatus, active, canceled,
  past_due, plan_value,
}
use saas_backend_fastapi.Json.{
  get_or, as_column, required, parsed_date, loaded, Json, null, scalar, array, text, object,
  Members, empty_object, member_or, is_truthy, or_empty,
}
use saas_backend_fastapi.Platform.{Platform}
use saas_backend_fastapi.World.{
  Exec, pure, throw, raise, raise_if, or_raise, query, draw, get_now, ◌>>=◌, ◌>>◌,
}
use saas_backend_fastapi.Repositories.Organizations
use saas_backend_fastapi.Repositories.Subscriptions

-- `PlanTier(value)`, or FREE where that raises
unfoldable pub plan_of_value : Json → PlanTier
unfolding plan_value
plan_of_value (text s) =
    if s == plan_value pro then pro else if s == plan_value enterprise then enterprise else free
plan_of_value _ = free

-- `org.plan = plan; await self.org_repo.save(org)`
abbrev pub with_plan : PlanTier → Organization → Organization
with_plan plan o = record o { plan = plan }

-- `if org:`
unfoldable pub save_plan : PlanTier → Option Organization → Exec (Unit {0})
save_plan plan none = pure tt
save_plan plan (some org) = Organizations.save org.id (with_plan plan)

unfoldable pub set_plan : Option String → PlanTier → Exec (Unit {0})
unfolding save_plan
set_plan none plan = pure tt
set_plan (some org_id) plan = do
  found ← query (Organizations.get_by_id org_id)
  save_plan plan found

abbrev pub with_status : SubscriptionStatus → Subscription → Subscription
with_status status s = record s { status = status }

abbrev pub with_cancel : ℕ → Subscription → Subscription
with_cancel now s = record s { status = canceled; canceled_at = some now }

-- `if sub:`
unfoldable pub save_found : (Subscription → Subscription) → Option Subscription → Exec (Unit {0})
save_found f none = pure tt
save_found f (some sub) = Subscriptions.save sub.id f

unfoldable pub find_by_code : Option String → Exec (Option Subscription)
find_by_code none = pure none
find_by_code (some sub_code) = query (Subscriptions.get_by_code sub_code)

unfoldable pub on_charge_success : Json → Exec (Unit {0})
unfolding get_or or_empty is_truthy as_column plan_of_value set_plan
on_charge_success event_data = do
  metadata ← get_or null "metadata" event_data
  org_id ← get_or null "organization_id" (or_empty metadata)
  plan_key ← get_or (text "") "plan" (or_empty metadata)
  if is_truthy org_id
      then (do id ← as_column org_id; set_plan id (plan_of_value plan_key))
      else pure tt

unfoldable pub on_subscription_disable : Json → Exec (Unit {0})
unfolding get_or or_empty is_truthy as_column find_by_code save_found set_plan
on_subscription_disable event_data = do
  sub_code ← get_or (text "") "subscription_code" event_data
  metadata ← get_or null "metadata" event_data
  org_id ← get_or null "organization_id" (or_empty metadata)
  code ← as_column sub_code
  found ← find_by_code code
  now ← get_now
  save_found (with_cancel now) found
  if is_truthy org_id then (do id ← as_column org_id; set_plan id free) else pure tt

unfoldable pub on_payment_failed : Json → Exec (Unit {0})
unfolding get_or or_empty as_column find_by_code save_found
on_payment_failed event_data = do
  subscription ← get_or null "subscription" event_data
  sub_code ← get_or (text "") "subscription_code" (or_empty subscription)
  code ← as_column sub_code
  found ← find_by_code code
  save_found (with_status past_due) found

-- the assignments to the subscription that an organization has already
abbrev pub renewed : String → String → SubscriptionStatus → ℕ → ℕ → Subscription → Subscription
renewed sub_code plan_code status now period_end s = record s {
  paystack_sub_code = sub_code;
  paystack_plan_code = plan_code;
  status = status;
  current_period_start = now;
  current_period_end = period_end;
}

module _ (p : Platform) where
  -- `CODE_PLAN_MAP.get(code, PlanTier.FREE)`; of two equal codes the last counts
  unfoldable pub plan_of_code : Option String → PlanTier
  plan_of_code none = free
  plan_of_code (some code) =
      if code == ""
      then free
      else if code == p.settings.paystack_enterprise_plan_code
      then enterprise
      else if code == p.settings.paystack_pro_plan_code
      then pro
      else free

  unfoldable pub period_end_of : Json → ℕ → Exec ℕ
  period_end_of (text next_payment) now =
      if next_payment == ""
      then pure (p.months_later now 1)
      else parsed_date (p.from_isoformat next_payment)
  period_end_of next_payment now =
      if is_truthy next_payment then throw attribute_error else pure (p.months_later now 1)

  -- the write of `_upsert_subscription_record`
  unfoldable pub write_subscription :
      String → String → String → SubscriptionStatus → ℕ → Option Subscription → Exec (Unit {0})
  write_subscription org_id sub_code plan_code status period_end (some existing) = do
    now ← get_now
    Subscriptions.save_code existing.id sub_code (renewed sub_code plan_code status now period_end)
  write_subscription org_id sub_code plan_code status period_end none = do
    now ← get_now
    id ← draw p.ulid
    Subscriptions.create (record {
      id = id;
      organization_id = org_id;
      paystack_sub_code = sub_code;
      paystack_plan_code = plan_code;
      status = status;
      current_period_start = now;
      current_period_end = period_end;
      cancel_at_period_end = false;
      canceled_at = none;
    })

  unfoldable pub upsert_subscription_record :
      Option String → Option String → Option String → SubscriptionStatus → Json → Exec (Unit {0})
  unfolding period_end_of required write_subscription
  upsert_subscription_record org_id sub_code plan_code status next_payment = do
    now ← get_now
    period_end ← period_end_of next_payment now
    org ← required org_id
    existing ← query (Subscriptions.get_by_org org)
    code ← required sub_code
    plan ← required plan_code
    write_subscription org code plan status period_end existing

  unfoldable pub on_subscription_create : Json → Exec (Unit {0})
  unfolding get_or or_empty is_truthy as_column set_plan plan_of_code upsert_subscription_record
  on_subscription_create event_data = do
    metadata ← get_or null "metadata" event_data
    org_id ← get_or null "organization_id" (or_empty metadata)
    if is_truthy org_id
        then (do
          plan ← get_or null "plan" event_data
          plan_code ← get_or (text "") "plan_code" (or_empty plan)
          sub_code ← get_or (text "") "subscription_code" event_data
          next_payment ← get_or null "next_payment_date" event_data
          id ← as_column org_id
          plan_text ← as_column plan_code
          sub_text ← as_column sub_code
          upsert_subscription_record id sub_text plan_text active next_payment
          set_plan id (plan_of_code plan_text))
        else pure tt

  -- `handlers.get(event_type)` and the call
  unfoldable pub dispatch : Json → Json → Exec (Unit {0})
  unfolding on_charge_success on_subscription_create on_subscription_disable on_payment_failed
  dispatch (text event_type) event_data =
      if event_type == "charge.success"
      then on_charge_success event_data
      else if event_type == "subscription.create"
      then on_subscription_create event_data
      else if event_type == "subscription.disable"
      then on_subscription_disable event_data
      else if event_type == "invoice.payment_failed"
      then on_payment_failed event_data
      else pure tt
  dispatch (array _) event_data = throw value_error
  dispatch (object _) event_data = throw value_error
  dispatch _ event_data = pure tt

  unfoldable pub handle_webhook : String → String → Exec (Unit {0})
  unfolding loaded get_or dispatch
  handle_webhook payload signature = do
    raise_if (not (p.hmac_hex p.settings.paystack_webhook_secret payload == signature))
        (bad_request "Invalid webhook signature.")
    event ← loaded (p.json_loads payload)
    event_type ← get_or (text "") "event" event
    event_data ← get_or empty_object "data" event
    dispatch event_type event_data

  unfoldable pub cancel_subscription : Organization → Exec (Unit {0})
  cancel_subscription org = do
    found ← query (Subscriptions.get_by_org org.id)
    sub ← or_raise (not_found "Subscription") found
    if p.paystack_disables sub.paystack_sub_code sub.paystack_plan_code
        then pure tt
        else throw http_status_error
    now ← get_now
    Subscriptions.save sub.id (with_cancel now)
    Organizations.save org.id (with_plan free)

  unfoldable pub get_manage_url : Organization → Exec String
  get_manage_url org = do
    raise_if (not (truthy org.paystack_customer_id))
        (bad_request "No billing account found. Subscribe to a plan first.")
    pure (
        p.settings.frontend_url
        ++ ("/billing/manage?customer=" ++ or_default org.paystack_customer_id ""))
