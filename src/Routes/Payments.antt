-- ===== src/Routes/Payments.antt =====
-- app/api/v1/endpoints/billing.py: the handlers of the routes, after the dependency that finds the
-- current user. A handler returns what its response is made of.
use saas_backend_fastapi.Prelude.{String}
use saas_backend_fastapi.Models.{User, PlanTier}
use saas_backend_fastapi.Json.{Json}
use saas_backend_fastapi.Platform.{Platform}
use saas_backend_fastapi.World.{Exec, pure, ◌>>=◌}
use saas_backend_fastapi.Billing
use saas_backend_fastapi.Checkout
use saas_backend_fastapi.Routes.{with_org}

module _ (p : Platform) where
  unfoldable pub initialize_transaction : String → PlanTier → String → User → Exec Json
  unfolding with_org
  initialize_transaction org_id plan callback_url current_user =
      with_org org_id
        (λ org. Checkout.initialize_transaction p org plan current_user.email callback_url)

  unfoldable pub verify_transaction : String → User → Exec (PlanTier × String)
  verify_transaction reference current_user = do
    (org_id, plan) ← Checkout.verify_transaction p reference
    pure (plan, org_id)

  unfoldable pub get_manage_url : String → User → Exec String
  unfolding with_org
  get_manage_url org_id current_user = with_org org_id (λ org. Billing.get_manage_url p org)

  unfoldable pub cancel_subscription : String → User → Exec (Unit {0})
  unfolding with_org
  cancel_subscription org_id current_user =
      with_org org_id (λ org. Billing.cancel_subscription p org)

  -- no current user: the signature of the body is what counts
  unfoldable pub paystack_webhook : String → String → Exec (Unit {0})
  paystack_webhook payload x_paystack_signature =
      Billing.handle_webhook p payload x_paystack_signature
