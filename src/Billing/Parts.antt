-- ===== src/Billing/Parts.antt =====
-- The reads of a payload and the writes of a row that the handlers of app/services/billing_service.py
-- share.
use saas_backend_fastapi.Prelude.{ℕ, String, ◌≡◌, Option, none, some}
use saas_backend_fastapi.Models.{Organization, PlanTier, Subscription}
use saas_backend_fastapi.Json.{
  get_or, as_column, required, parsed_date, loaded, Json, null, scalar, array, text, object,
}
use saas_backend_fastapi.World.{query}
use saas_backend_fastapi.Repositories.Organizations
use saas_backend_fastapi.Billing.{set_plan, with_plan, save_plan, save_found, find_by_code}
use saas_backend_fastapi.Billing.Safety.{
  Safe, Keeps-refl, Safe-bind, Safe-save_org, Safe-save_subscription,
}

pub Safe-get_or : (default : Json) (key : String) (value : Json) → Safe (get_or default key value)
unfolding get_or
Safe-get_or default key null w = Keeps-refl w
Safe-get_or default key (scalar b) w = Keeps-refl w
Safe-get_or default key (array b) w = Keeps-refl w
Safe-get_or default key (text s) w = Keeps-refl w
Safe-get_or default key (object m) w = Keeps-refl w

pub Safe-as_column : (value : Json) → Safe (as_column value)
unfolding as_column
Safe-as_column null w = Keeps-refl w
Safe-as_column (scalar b) w = Keeps-refl w
Safe-as_column (array b) w = Keeps-refl w
Safe-as_column (text s) w = Keeps-refl w
Safe-as_column (object m) w = Keeps-refl w

pub Safe-required : (o : Option String) → Safe (required o)
unfolding required
Safe-required none w = Keeps-refl w
Safe-required (some s) w = Keeps-refl w

pub Safe-save_plan : (plan : PlanTier) (o : Option Organization) → Safe (save_plan plan o)
unfolding save_plan
Safe-save_plan plan none = Keeps-refl
Safe-save_plan plan (some org) = Safe-save_org org.id (with_plan plan)

pub Safe-save_found :
    (f : Subscription → Subscription)
    → ((s : Subscription) → (f s).organization_id ≡ s.organization_id)
    → (o : Option Subscription) → Safe (save_found f o)
unfolding save_found
Safe-save_found f same none = Keeps-refl
Safe-save_found f same (some sub) = Safe-save_subscription sub.id f same

pub Safe-set_plan : (o : Option String) (plan : PlanTier) → Safe (set_plan o plan)
unfolding set_plan
Safe-set_plan none plan = Keeps-refl
Safe-set_plan (some org_id) plan =
    Safe-bind (query (Organizations.get_by_id org_id)) _ Keeps-refl (Safe-save_plan plan)

pub Safe-find_by_code : (o : Option String) → Safe (find_by_code o)
unfolding find_by_code
Safe-find_by_code none w = Keeps-refl w
Safe-find_by_code (some code) w = Keeps-refl w

pub Safe-parsed_date : (o : Option ℕ) → Safe (parsed_date o)
unfolding parsed_date
Safe-parsed_date none w = Keeps-refl w
Safe-parsed_date (some n) w = Keeps-refl w

pub Safe-loaded : (o : Option Json) → Safe (loaded o)
unfolding loaded
Safe-loaded none w = Keeps-refl w
Safe-loaded (some n) w = Keeps-refl w
