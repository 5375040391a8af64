-- ===== src/Billing/Examples.antt =====
-- A charge for the office of Acme, a forged one, and its first subscription.
use saas_backend_fastapi.Prelude.{◌⊎◌, ◌≡◌, refl, some, [], ◌∷◌}
use saas_backend_fastapi.Prelude.Rows.{select, any, update_where}
use saas_backend_fastapi.Errors.{ok}
use saas_backend_fastapi.Models.{Subscription, active, enterprise}
use saas_backend_fastapi.Json.{null, is_truthy}
use saas_backend_fastapi.World.{World, scalar_one_or_none, insert_row}
use saas_backend_fastapi.Repositories.Organizations
use saas_backend_fastapi.Repositories.Subscriptions
use saas_backend_fastapi.Billing.{handle_webhook, upsert_subscription_record}
use saas_backend_fastapi.Billing.Safety.{Keeps}
use saas_backend_fastapi.Billing.Webhook.{handle_webhook_safe}
use saas_backend_fastapi.Billing.Upsert.{IsCurrent, upsert_leaves_one}
use saas_backend_fastapi.Samples.{platform, acme, office, at_time}

abbrev start : World
start = at_time 7 office

-- The signature of the sample platform is the secret before the payload.
charge_upgrades :
    handle_webhook platform "charge" "phrasecharge" start
    ≡ (ok tt, at_time 7 (record office { organizations = record acme { plan = enterprise } ∷ [] }))
unfolding handle_webhook Organizations.get_by_id scalar_one_or_none select Organizations.save
    update_where
charge_upgrades = refl

handle_webhook_safe_example :
    Keeps start (handle_webhook platform "charge" "forged" start).1
    × (((handle_webhook platform "charge" "forged" start).1 ≡ start)
        ⊎ (platform.hmac_hex "phrase" "charge" ≡ "forged"))
handle_webhook_safe_example = handle_webhook_safe platform "charge" "forged" start

abbrev subscribed : World
subscribed =
    (upsert_subscription_record platform (some "acme") (some "SUB_1") (some "PLN_pro") active null
      start).1

first_subscription :
    upsert_subscription_record platform
      (some "acme")
      (some "SUB_1")
      (some "PLN_pro")
      active
      null
      start
    ≡ (ok tt, subscribed)
unfolding upsert_subscription_record Subscriptions.get_by_org select scalar_one_or_none
    Subscriptions.create Organizations.exists any insert_row is_truthy
first_subscription = refl

upsert_leaves_one_example :
    (s : Subscription) × IsCurrent "acme" "SUB_1" "PLN_pro" active 7 subscribed s
upsert_leaves_one_example =
    upsert_leaves_one platform "acme" "SUB_1" "PLN_pro" active null start subscribed
      first_subscription
