-- ===== src/Billing/Upsert.antt =====
-- `_upsert_subscription_record` of app/services/billing_service.py: the subscription of an
-- organization after it.
use saas_backend_fastapi.Prelude.{
  ℕ, String, ◌==◌, ◌≡◌, refl, ap, ◌∙◌, false, not, ◌&&◌, none, some, [], ◌∷◌, arith, inl, inr,
  Bool-cases, Option-cases, eq_refl,
}
use saas_backend_fastapi.Prelude.Rows.{
  select, any, insert, update_where, select-update_where, update_where_one, select-insert_alone,
}
use saas_backend_fastapi.Errors.{ok}
use saas_backend_fastapi.Models.{Subscription, subscription_clash, SubscriptionStatus}
use saas_backend_fastapi.Json.{
  required, parsed_date, Json, null, scalar, array, text, object, no_members, with_member,
  is_truthy,
}
use saas_backend_fastapi.Platform.{Platform}
use saas_backend_fastapi.World.{World, insert_row}
use saas_backend_fastapi.World.Laws.{scalar-cases, Result-cases}
use saas_backend_fastapi.Repositories.Organizations
use saas_backend_fastapi.Repositories.Subscriptions
use saas_backend_fastapi.Billing.{
  period_end_of, renewed, write_subscription, upsert_subscription_record,
}

-- the one subscription of an organization, just written
pub record IsCurrent (org_id code plan : String) (status : SubscriptionStatus) (now : ℕ) (w : World)
    (s : Subscription) : Type 0 where
  pub single : select (Subscriptions.by_org org_id) w.db.subscriptions ≡ s ∷ []
  pub coded : s.paystack_sub_code ≡ code
  pub planned : s.paystack_plan_code ≡ plan
  pub in_status : s.status ≡ status
  pub started : s.current_period_start ≡ now

module _ (p : Platform) (org_id code plan : String) (status : SubscriptionStatus) (period_end : ℕ)
    (w : World) where
  abbrev fresh : Subscription
  fresh = record {
    id = p.ulid w.drawn;
    organization_id = org_id;
    paystack_sub_code = code;
    paystack_plan_code = plan;
    status = status;
    current_period_start = w.now;
    current_period_end = period_end;
    cancel_at_period_end = false;
    canceled_at = none;
  }

  write_new :
      (w' : World)
      → select (Subscriptions.by_org org_id) w.db.subscriptions ≡ []
      → write_subscription p org_id code plan status period_end none w ≡ (ok tt, w')
      → IsCurrent org_id code plan status w.now w' fresh
  unfolding write_subscription Subscriptions.create insert_row
  write_new w' none_yet h = elim (Bool-cases (Organizations.exists org_id w.db)) [
    | inr unknown ↦ absurd (ground arith)
    | inl known ↦ elim (Bool-cases (any (subscription_clash fresh) w.db.subscriptions)) [
      | inl clash ↦ absurd (ground arith)
      | inr free ↦
          let rows : w'.db.subscriptions ≡ insert fresh w.db.subscriptions = ground arith in
          record {
            single =
                ap (select (Subscriptions.by_org org_id)) rows
                ∙ select-insert_alone (Subscriptions.by_org org_id) fresh w.db.subscriptions
                    (eq_refl org_id) none_yet;
            coded = refl;
            planned = refl;
            in_status = refl;
            started = refl;
          }
    ]
  ]

  abbrev change : Subscription → Subscription
  change = renewed code plan status w.now period_end

  write_old :
      (w' : World) (s : Subscription)
      → select (Subscriptions.by_org org_id) w.db.subscriptions ≡ s ∷ []
      → write_subscription p org_id code plan status period_end (some s) w ≡ (ok tt, w')
      → IsCurrent org_id code plan status w.now w' (change s)
  unfolding write_subscription Subscriptions.save_code Subscriptions.save
  write_old w' s found h =
      elim (Bool-cases (
        any (λ x. not (Subscriptions.by_id s.id x) && Subscriptions.by_code code x)
          w.db.subscriptions)) [
            | inl taken ↦ absurd (ground arith)
            | inr free ↦
                let rows : w'.db.subscriptions
                    ≡ update_where (Subscriptions.by_id s.id) change w.db.subscriptions =
                  ground arith in
                record {
                  single =
                      ap (select (Subscriptions.by_org org_id)) rows
                      ∙ select-update_where (Subscriptions.by_org org_id) (Subscriptions.by_id s.id)
                          change (λ x. refl) w.db.subscriptions
                      ∙ ap (update_where (Subscriptions.by_id s.id) change) found
                      ∙ update_where_one (Subscriptions.by_id s.id) change s (eq_refl s.id);
                  coded = refl;
                  planned = refl;
                  in_status = refl;
                  started = refl;
                }
          ]

module _ (p : Platform) where
  period_end_of_pure : (value : Json) (now : ℕ) (w : World) → (period_end_of p value now w).1 ≡ w
  unfolding period_end_of parsed_date is_truthy
  period_end_of_pure null now w = refl
  period_end_of_pure (scalar b) now w = ground arith
  period_end_of_pure (array b) now w = ground arith
  period_end_of_pure (object no_members) now w = refl
  period_end_of_pure (object (with_member k v rest)) now w = refl
  period_end_of_pure (text s) now w = elim (Bool-cases (s == "")) [
    | inl e ↦ rw e refl
    | inr e ↦ elim (Option-cases (p.from_isoformat s)) [
      | inl bad ↦ rw (e, bad) refl
      | inr (time, good) ↦ rw (e, good) refl
    ]
  ]

  -- When a subscription is recorded for an organization without an error, the organization has
  -- exactly one subscription afterwards, with the code, the plan and the status that were given and
  -- a period that starts now, whether it had one before or not.
  pub upsert_leaves_one :
      (org_id code plan : String) (status : SubscriptionStatus) (next_payment : Json) (w w' : World)
      → upsert_subscription_record p (some org_id) (some code) (some plan) status next_payment w
        ≡ (ok tt, w')
      → (s : Subscription) × IsCurrent org_id code plan status w.now w' s
  unfolding upsert_subscription_record required Subscriptions.get_by_org
  upsert_leaves_one org_id code plan status next_payment w w' h =
      let pure_end = period_end_of_pure next_payment w.now w in
      elim (Result-cases (period_end_of p next_payment w.now w).0) [
        | inr (x, failed) ↦ absurd (ground arith)
        | inl (n, e) ↦
            elim (scalar-cases (select (Subscriptions.by_org org_id) w.db.subscriptions)) [
              | inl (none_yet, s) ↦ (
                fresh p org_id code plan status n w,
                write_new p org_id code plan status n w w' none_yet (ground arith),
              )
              | inr (inl (s, found, q)) ↦ (
                change p org_id code plan status n w s,
                write_old p org_id code plan status n w w' s found (ground arith),
              )
              | inr (inr s) ↦ absurd (ground arith)
            ]
      ]
