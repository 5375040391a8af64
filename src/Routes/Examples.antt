-- ===== src/Routes/Examples.antt =====
-- Eve, who is no member of Acme, at its routes.
use saas_backend_fastapi.Prelude.{◌≡◌, ◌↔◌, refl, false, none, some, [], ◌∷◌}
use saas_backend_fastapi.Prelude.Rows.{select}
use saas_backend_fastapi.Errors.{ok, err, send_error}
use saas_backend_fastapi.Models.{owner, User, Subscription, active}
use saas_backend_fastapi.World.{World, scalar_one_or_none}
use saas_backend_fastapi.Repositories.Organizations
use saas_backend_fastapi.Routes.{
  get_org, update_org, delete_org, list_invitations, invite_member, revoke_invitation, list_members,
  update_member_role, remove_member,
}
use saas_backend_fastapi.Routes.Outsiders.{Refused, outsider-Refused}
use saas_backend_fastapi.Routes.Mailing.{forgot_password_discloses}
use saas_backend_fastapi.Repositories.Organizations
use saas_backend_fastapi.Repositories.Memberships
use saas_backend_fastapi.Repositories.Subscriptions
use saas_backend_fastapi.Billing
use saas_backend_fastapi.World.{scalar_one_or_none}
use saas_backend_fastapi.Routes.Sessions
use saas_backend_fastapi.Routes.Payments
use saas_backend_fastapi.Repositories.Users
use saas_backend_fastapi.Json.{Json}
use saas_backend_fastapi.Platform.{Platform}
use saas_backend_fastapi.Samples.{platform, settings, acme, eve, office, at_time}

abbrev start : World
start = at_time 3 office

outsider-Refused_example :
    Refused (update_org "acme" (some "Eve Inc") none eve) start
    × Refused (delete_org "acme" eve) start
    × Refused (list_members "acme" eve) start
    × Refused (list_invitations "acme" eve) start
    × Refused (invite_member platform "acme" "mallory@x.io" owner eve) start
    × Refused (revoke_invitation "acme" "inv" eve) start
    × Refused (update_member_role "acme" "ann" owner eve) start
    × Refused (remove_member "acme" "ann" eve) start
    × (get_org "acme" eve start ≡ (ok acme, start))
unfolding Organizations.get_by_id select scalar_one_or_none
outsider-Refused_example =
    outsider-Refused acme eve start refl platform "acme" refl (some "Eve Inc") none "mallory@x.io"
      "inv" "ann" owner refl

-- a platform with an API key, while mail cannot be sent
abbrev keyed : Platform
keyed = record platform { settings = record settings { resend_api_key = "key" } }

abbrev mail_down : World
mail_down = record start { mailer_up = false }

forgot_password_discloses_example :
    ((Sessions.forgot_password keyed "ann@x.io" mail_down).0 ≡ err send_error)
    ↔ ((u : User) × (select (Users.by_email "ann@x.io") office.users ≡ u ∷ []))
forgot_password_discloses_example =
    forgot_password_discloses keyed "ann@x.io" mail_down (record { keyed = refl; down = refl })

abbrev paying : Subscription
paying = record {
  id = "s1";
  organization_id = "acme";
  paystack_sub_code = "SUB_1";
  paystack_plan_code = "PLN_pro";
  status = active;
  current_period_start = 0;
  current_period_end = 9;
  cancel_at_period_end = false;
  canceled_at = none;
}

abbrev subscribed : World
subscribed = record start { db = record office { subscriptions = paying ∷ [] } }

-- Eve, who is no member of Acme, cancels its subscription.
eve_cancels :
    ((Payments.cancel_subscription platform "acme" eve subscribed).0 ≡ ok tt)
    × (select (Memberships.of_user_in_org "eve" "acme") subscribed.db.memberships ≡ [])
unfolding Payments.cancel_subscription Billing.cancel_subscription Organizations.get_by_id
    Organizations.save Subscriptions.get_by_org Subscriptions.save scalar_one_or_none select
eve_cancels = (refl, refl)
