-- ===== src/Billing/Webhook.antt =====
-- `handle_webhook` of app/services/billing_service.py: what any payload can do.
use saas_backend_fastapi.Prelude.{
  Bool-cases, inl, inr, ◌⊎◌, ap, eq_of_test, ℕ, String, ◌==◌, ◌≡◌, refl, false, not, Option, none,
  some,
}
use saas_backend_fastapi.Errors.{err, app, bad_request}
use saas_backend_fastapi.Models.{Subscription, SubscriptionStatus, free, active, past_due}
use saas_backend_fastapi.Json.{
  get_or, as_column, required, loaded, Json, null, scalar, array, text, object, no_members,
  with_member, empty_object, is_truthy, or_empty,
}
use saas_backend_fastapi.Platform.{Platform}
use saas_backend_fastapi.World.{World, pure, query, raise_if, draw}
use saas_backend_fastapi.Repositories.Subscriptions
use saas_backend_fastapi.Billing.{
  set_plan, save_found, find_by_code, with_cancel, with_status, renewed, on_charge_success,
  on_subscription_create, on_subscription_disable, on_payment_failed, period_end_of,
  write_subscription, upsert_subscription_record, plan_of_code, plan_of_value, dispatch,
  handle_webhook,
}
use saas_backend_fastapi.Billing.Safety.{
  Keeps, Safe, Keeps-refl, Safe-bind, Safe-if, Safe-save_code, Safe-create, Keeps-draw, Keeps-trans,
}
use saas_backend_fastapi.Billing.Parts.{
  Safe-get_or, Safe-as_column, Safe-required, Safe-save_found, Safe-set_plan, Safe-find_by_code,
  Safe-parsed_date, Safe-loaded,
}

Safe-on_charge_success : (event_data : Json) → Safe (on_charge_success event_data)
unfolding on_charge_success
Safe-on_charge_success event_data =
    Safe-bind (get_or null "metadata" event_data) _ (Safe-get_or null "metadata" event_data)
      (λ metadata.
        Safe-bind (get_or null "organization_id" (or_empty metadata)) _
          (Safe-get_or null "organization_id" (or_empty metadata))
          (λ org_id.
            Safe-bind (get_or (text "") "plan" (or_empty metadata)) _
              (Safe-get_or (text "") "plan" (or_empty metadata))
              (λ plan_key.
                Safe-if (is_truthy org_id) _ (pure tt)
                  (Safe-bind (as_column org_id) (λ id. set_plan id (plan_of_value plan_key))
                    (Safe-as_column org_id) (λ id. Safe-set_plan id (plan_of_value plan_key)))
                  Keeps-refl)))

Safe-on_subscription_disable : (event_data : Json) → Safe (on_subscription_disable event_data)
unfolding on_subscription_disable
Safe-on_subscription_disable event_data =
    Safe-bind (get_or (text "") "subscription_code" event_data) _
      (Safe-get_or (text "") "subscription_code" event_data)
      (λ sub_code.
        Safe-bind (get_or null "metadata" event_data) _ (Safe-get_or null "metadata" event_data)
          (λ metadata.
            Safe-bind (get_or null "organization_id" (or_empty metadata)) _
              (Safe-get_or null "organization_id" (or_empty metadata))
              (λ org_id. Safe-bind (as_column sub_code) _ (Safe-as_column sub_code) (λ code.
                Safe-bind (find_by_code code) _ (Safe-find_by_code code) (λ found w.
                  Safe-bind (save_found (with_cancel w.now) found) _
                    (Safe-save_found (with_cancel w.now) (λ s. refl) found)
                    (λ _.
                      Safe-if (is_truthy org_id) _ (pure tt)
                        (Safe-bind (as_column org_id) (λ id. set_plan id free)
                          (Safe-as_column org_id) (λ id. Safe-set_plan id free))
                        Keeps-refl)
                    w)))))

Safe-on_payment_failed : (event_data : Json) → Safe (on_payment_failed event_data)
unfolding on_payment_failed
Safe-on_payment_failed event_data =
    Safe-bind (get_or null "subscription" event_data) _ (Safe-get_or null "subscription" event_data)
      (λ subscription.
        Safe-bind (get_or (text "") "subscription_code" (or_empty subscription)) _
          (Safe-get_or (text "") "subscription_code" (or_empty subscription))
          (λ sub_code. Safe-bind (as_column sub_code) _ (Safe-as_column sub_code) (λ code.
            Safe-bind (find_by_code code) _ (Safe-find_by_code code)
              (Safe-save_found (with_status past_due) (λ s. refl)))))

module _ (p : Platform) where
  Safe-period_end_of : (next_payment : Json) (now : ℕ) → Safe (period_end_of p next_payment now)
  unfolding period_end_of is_truthy
  Safe-period_end_of (text s) now =
      Safe-if (s == "") _ _ Keeps-refl (Safe-parsed_date (p.from_isoformat s))
  Safe-period_end_of null now = Keeps-refl
  Safe-period_end_of (scalar b) now = Safe-if b _ _ Keeps-refl Keeps-refl
  Safe-period_end_of (array b) now = Safe-if b _ _ Keeps-refl Keeps-refl
  Safe-period_end_of (object no_members) now = Keeps-refl
  Safe-period_end_of (object (with_member k v rest)) now = Keeps-refl

  Safe-write_subscription :
      (org_id code plan : String) (status : SubscriptionStatus) (period_end : ℕ)
      (existing : Option Subscription)
      → Safe (write_subscription p org_id code plan status period_end existing)
  unfolding write_subscription
  Safe-write_subscription org_id code plan status period_end (some existing) w =
      Safe-save_code existing.id code (renewed code plan status w.now period_end) (λ s. refl) w
  Safe-write_subscription org_id code plan status period_end none w =
      Keeps-trans w (draw p.ulid w).1
        (write_subscription p org_id code plan status period_end none w).1 (Keeps-draw p.ulid w)
        (Safe-create _ (draw p.ulid w).1)

  Safe-upsert :
      (org_id sub_code plan_code : Option String) (status : SubscriptionStatus)
      (next_payment : Json)
      → Safe (upsert_subscription_record p org_id sub_code plan_code status next_payment)
  unfolding upsert_subscription_record
  Safe-upsert org_id sub_code plan_code status next_payment = λ w.
      Safe-bind (period_end_of p next_payment w.now) _ (Safe-period_end_of next_payment w.now)
        (λ period_end. Safe-bind (required org_id) _ (Safe-required org_id) (λ org.
          Safe-bind (query (Subscriptions.get_by_org org)) _ Keeps-refl (λ existing.
            Safe-bind (required sub_code) _ (Safe-required sub_code) (λ code.
              Safe-bind (required plan_code) _ (Safe-required plan_code)
                (λ plan. Safe-write_subscription org code plan status period_end existing)))))
        w

  Safe-on_subscription_create : (event_data : Json) → Safe (on_subscription_create p event_data)
  unfolding on_subscription_create
  Safe-on_subscription_create event_data =
      Safe-bind (get_or null "metadata" event_data) _ (Safe-get_or null "metadata" event_data)
        (λ metadata.
          Safe-bind (get_or null "organization_id" (or_empty metadata)) _
            (Safe-get_or null "organization_id" (or_empty metadata))
            (λ org_id.
              Safe-if (is_truthy org_id) _ (pure tt)
                (Safe-bind (get_or null "plan" event_data) _ (Safe-get_or null "plan" event_data)
                  (λ plan.
                    Safe-bind (get_or (text "") "plan_code" (or_empty plan)) _
                      (Safe-get_or (text "") "plan_code" (or_empty plan))
                      (λ plan_code.
                        Safe-bind (get_or (text "") "subscription_code" event_data) _
                          (Safe-get_or (text "") "subscription_code" event_data)
                          (λ sub_code.
                            Safe-bind (get_or null "next_payment_date" event_data) _
                              (Safe-get_or null "next_payment_date" event_data)
                              (λ next_payment.
                                Safe-bind (as_column org_id) _ (Safe-as_column org_id) (λ id.
                                  Safe-bind (as_column plan_code) _ (Safe-as_column plan_code)
                                    (λ plan_text.
                                      Safe-bind (as_column sub_code) _ (Safe-as_column sub_code)
                                        (λ sub_text.
                                          Safe-bind
                                            (upsert_subscription_record p id sub_text plan_text
                                              active next_payment)
                                            _
                                            (Safe-upsert id sub_text plan_text active next_payment)
                                            (λ _.
                                              Safe-set_plan id (plan_of_code p plan_text))))))))))
                Keeps-refl))

  Safe-dispatch : (event_type event_data : Json) → Safe (dispatch p event_type event_data)
  unfolding dispatch
  Safe-dispatch null event_data = Keeps-refl
  Safe-dispatch (scalar b) event_data = Keeps-refl
  Safe-dispatch (array b) event_data = Keeps-refl
  Safe-dispatch (object m) event_data = Keeps-refl
  Safe-dispatch (text s) event_data =
      Safe-if (s == "charge.success") _ _ (Safe-on_charge_success event_data) (
        Safe-if (s == "subscription.create") _ _ (Safe-on_subscription_create event_data) (
          Safe-if (s == "subscription.disable") _ _ (Safe-on_subscription_disable event_data) (
            Safe-if (s == "invoice.payment_failed") _ _ (Safe-on_payment_failed event_data)
              Keeps-refl)))

  keeps_all : (payload signature : String) → Safe (handle_webhook p payload signature)
  unfolding handle_webhook
  keeps_all payload signature =
      Safe-bind
        (raise_if (not (p.hmac_hex p.settings.paystack_webhook_secret payload == signature))
          (bad_request "Invalid webhook signature."))
        _ Keeps-refl
        (λ _.
          Safe-bind (loaded (p.json_loads payload)) _ (Safe-loaded (p.json_loads payload)) (λ event.
            Safe-bind (get_or (text "") "event" event) _ (Safe-get_or (text "") "event" event)
              (λ event_type.
                Safe-bind (get_or empty_object "data" event) _
                  (Safe-get_or empty_object "data" event)
                  (λ event_data. Safe-dispatch event_type event_data))))

  forged_refused :
      (payload signature : String) (w : World)
      → (p.hmac_hex p.settings.paystack_webhook_secret payload == signature) ≡ false
      → handle_webhook p payload signature w
        ≡ (err (app (bad_request "Invalid webhook signature.")), w)
  unfolding handle_webhook
  forged_refused payload signature w forged = rw forged refl

  -- Whatever a webhook carries, it changes no account, no membership and no invitation, and where
  -- each organization had one subscription at most before, each has one at most after. It changes
  -- anything at all only where its signature is the HMAC of the payload under the secret.
  pub handle_webhook_safe :
      (payload signature : String) (w : World)
      → Keeps w (handle_webhook p payload signature w).1
        × (((handle_webhook p payload signature w).1 ≡ w)
            ⊎ (p.hmac_hex p.settings.paystack_webhook_secret payload ≡ signature))
  handle_webhook_safe payload signature w = (
    keeps_all payload signature w,
    elim (Bool-cases (p.hmac_hex p.settings.paystack_webhook_secret payload == signature)) [
      | inl signed ↦
          inr (eq_of_test (p.hmac_hex p.settings.paystack_webhook_secret payload) signature signed)
      | inr forged ↦ inl (ap (λ x. x.1) (forged_refused payload signature w forged))
    ],
  )
