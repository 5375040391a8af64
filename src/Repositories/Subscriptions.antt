-- ===== src/Repositories/Subscriptions.antt =====
-- The queries on `subscriptions` that app/services/billing_service.py writes out.
use saas_backend_fastapi.Prelude.{String, Bool, not, ◌&&◌, Option, ◌==◌, if◌then◌else◌}
use saas_backend_fastapi.Prelude.Rows.{select, any, update_where}
use saas_backend_fastapi.Errors.{Result, integrity_error}
use saas_backend_fastapi.Models.{Subscription, subscription_clash}
use saas_backend_fastapi.World.{
  Database, Exec, scalar_one_or_none, insert_row, store, modify, throw,
}
use saas_backend_fastapi.Repositories.Organizations

abbrev pub by_id : String → Subscription → Bool
by_id id s = s.id == id

abbrev pub by_org : String → Subscription → Bool
by_org org_id s = s.organization_id == org_id

abbrev pub by_code : String → Subscription → Bool
by_code sub_code s = s.paystack_sub_code == sub_code

unfoldable pub get_by_org : String → Database → Result (Option Subscription)
get_by_org org_id db = scalar_one_or_none (select (by_org org_id) db.subscriptions)

unfoldable pub get_by_code : String → Database → Result (Option Subscription)
get_by_code sub_code db = scalar_one_or_none (select (by_code sub_code) db.subscriptions)

unfoldable pub create : Subscription → Exec (Unit {0})
create s w =
    if Organizations.exists s.organization_id w.db
    then store (insert_row subscription_clash s w.db.subscriptions)
        (λ rows db. record db { subscriptions = rows }) w
    else throw integrity_error w

unfoldable pub save : String → (Subscription → Subscription) → Exec (Unit {0})
save id f = modify (λ db. record db { subscriptions = update_where (by_id id) f db.subscriptions })

-- The same where the assignment may break UNIQUE on `paystack_sub_code`.
unfoldable pub save_code : String → String → (Subscription → Subscription) → Exec (Unit {0})
unfolding save
save_code id sub_code f w =
    if any (λ s. not (by_id id s) && by_code sub_code s) w.db.subscriptions
    then throw integrity_error w
    else save id f w
