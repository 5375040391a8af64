-- ===== src/Org/Examples.antt =====
-- The theorems about organizations at a small office: Ann owns it, Bob is an admin, and Eve has a
-- pending invitation.
use saas_backend_fastapi.Prelude.{
  suc, leb, ◌&&◌, if◌then◌else◌, String, ◌==◌, ◌≡◌, ◌≢◌, refl, ◌↔◌, ◌⊎◌, arith, some, [], ◌∷◌,
  false, eq_iff,
}
use saas_backend_fastapi.Prelude.Rows.{select, insert, any, update_where}
use saas_backend_fastapi.Errors.{ok, err, app, data_error, bad_request, conflict}
use saas_backend_fastapi.Models.{
  owner, admin, member, viewer, accepted, Invitation, Subscription, canceled, Membership,
  membership_clash, invitation_clash,
}
use saas_backend_fastapi.World.{Database, World, get_db, insert_row, scalar_one_or_none}
use saas_backend_fastapi.Samples.{
  platform, ann, bob, eve, acme, joins, for_eve, office, at_time, person,
}
use saas_backend_fastapi.Repositories.Memberships
use saas_backend_fastapi.Repositories.Invitations
use saas_backend_fastapi.Repositories.Organizations
use saas_backend_fastapi.Repositories.Users
use saas_backend_fastapi.Policy.{rank}
use saas_backend_fastapi.Org.{
  refuse_member, require_role, unique_slug, update_member_role, remove_member, create, delete,
  accept_invitation, accept_checks, accept_writes, invite_member, invite_checks, invite_writes,
}
use saas_backend_fastapi.Org.Slug.{SlugsAreUnique, unique_slug_total}
use saas_backend_fastapi.Org.Roles.{IsMember, Holds}
use saas_backend_fastapi.Org.Members.{with_role, with_saved_role, update_member_role_iff}
use saas_backend_fastapi.Org.Effects.{IdsAreUnique}
use saas_backend_fastapi.Org.Removal.{without_member, remove_member_iff}
use saas_backend_fastapi.Org.Invites.{
  Acceptable, with_status, granted, accept_invitation_sound, accept_invitation_once,
}
use saas_backend_fastapi.Org.Expiry.{expired_invitation_blocks}
use saas_backend_fastapi.Org.RoundTrip.{invited, accept-invite}
use saas_backend_fastapi.Policy.{ensure_role}
use saas_backend_fastapi.Security.{hash_token, generate_secure_token}
use saas_backend_fastapi.Org.Lifecycle.{new_organization, created, create_makes_owner, in_org}
use saas_backend_fastapi.Org.Deletion.{subscribes, delete_iff}
use saas_backend_fastapi.Text.{size, decimal, lower, normalize_email}

office_slugs : SlugsAreUnique office
unfolding select
office_slugs s = ground (arith, eq_iff "acme" s)

office_ids : IdsAreUnique office
unfolding select
office_ids i = ground (arith, eq_iff "m1" i, eq_iff "m2" i, eq_iff "m1" "m2")

bob_row : IsMember "bob" "acme" office (joins "m2" "bob" admin)
unfolding select
bob_row = refl

ann_row : IsMember "ann" "acme" office (joins "m1" "ann" owner)
unfolding select
ann_row = refl

bob-Holds : Holds "bob" "acme" admin office
unfolding rank
bob-Holds = record { membership = joins "m2" "bob" admin; single = bob_row; ranked = omega arith }

ann-Holds : Holds "ann" "acme" owner office
unfolding rank
ann-Holds = record { membership = joins "m1" "ann" owner; single = ann_row; ranked = omega arith }

unique_slug_total_example :
    (s : String) × (unique_slug "acme" office ≡ ok s)
    × (select (Organizations.by_slug s) office.organizations ≡ [])
unique_slug_total_example = unique_slug_total "acme" office office_slugs

acme_taken : unique_slug "acme" office ≡ ok "acme-1"
unfolding unique_slug Organizations.get_by_slug select scalar_one_or_none decimal
acme_taken = refl

abbrev promoted : World
promoted = record (at_time 10 office) { db = with_saved_role "m2" owner office }

update_member_role_iff_example :
    (update_member_role acme "bob" owner bob (at_time 10 office)
      ≡ (ok (with_role owner (joins "m2" "bob" admin)), promoted))
    ↔ (Holds "bob" "acme" admin office
        × (m : Membership) × IsMember "bob" "acme" office m
        × (m.role ≡ owner → Holds "bob" "acme" owner office)
        × (with_role owner (joins "m2" "bob" admin) ≡ with_role owner m)
        × (promoted ≡ record (at_time 10 office) { db = with_saved_role m.id owner office }))
update_member_role_iff_example =
    update_member_role_iff acme "bob" owner bob (at_time 10 office)
      (with_role owner (joins "m2" "bob" admin)) promoted

abbrev without_ann : World
without_ann = record (at_time 10 office) { db = without_member "ann" "acme" office }

remove_member_iff_example :
    ((remove_member acme "ann" bob (at_time 10 office) ≡ (ok tt, without_ann)) ↔ (
      ((bob.id ≡ "ann") ⊎ Holds "bob" "acme" admin office)
      × (without_ann ≡ record (at_time 10 office) { db = without_member "ann" "acme" office })))
    × (select
          (Memberships.of_user_in_org "ann" "acme")
          (without_member "ann" "acme" office).memberships
        ≡ [])
    × ((u o : String)
        → (u ≢ "ann") ⊎ (o ≢ "acme")
        → select (Memberships.of_user_in_org u o) (without_member "ann" "acme" office).memberships
          ≡ select (Memberships.of_user_in_org u o) office.memberships)
remove_member_iff_example = remove_member_iff acme "ann" bob (at_time 10 office) without_ann

create_makes_owner_example :
    (slug : String) × (select (Organizations.by_slug slug) office.organizations ≡ [])
    × (create platform "acme" eve (at_time 10 office) ≡ (
        if leb (size "acme") 255 && leb (size slug) 255
        then (
          ok (new_organization platform "acme" slug (at_time 10 office)),
          created platform "acme" eve (at_time 10 office) slug,
        )
        else (err data_error, record (at_time 10 office) { drawn = suc 0 })))
    × SlugsAreUnique (created platform "acme" eve (at_time 10 office) slug).db
    × Holds "eve" "new" owner (created platform "acme" eve (at_time 10 office) slug).db
unfolding Users.exists any
create_makes_owner_example =
    create_makes_owner platform "acme" eve (at_time 10 office) office_slugs refl refl refl refl

delete_iff_example :
    ((delete acme ann (at_time 10 office)
        ≡ (ok tt, record (at_time 10 office) { db = Organizations.purge "acme" office }))
      ↔ (Holds "ann" "acme" owner office
          × (any (subscribes "acme") office.subscriptions ≡ false)
          × (record (at_time 10 office) { db = Organizations.purge "acme" office }
              ≡ record (at_time 10 office) { db = Organizations.purge "acme" office })))
    × (select (Organizations.by_id "acme") (Organizations.purge "acme" office).organizations ≡ [])
    × (select (in_org "acme") (Organizations.purge "acme" office).memberships ≡ [])
    × (select
          (λ (i : Invitation). i.organization_id == "acme")
          (Organizations.purge "acme" office).invitations
        ≡ [])
delete_iff_example =
    delete_iff acme ann (at_time 10 office)
      (record (at_time 10 office) { db = Organizations.purge "acme" office })

-- Acme has cancelled its subscription.
abbrev cancelled : Subscription
cancelled = record {
  id = "sub";
  organization_id = "acme";
  paystack_sub_code = "SUB_1";
  paystack_plan_code = "PLN_pro";
  status = canceled;
  current_period_start = 0;
  current_period_end = 5;
  cancel_at_period_end = false;
  canceled_at = some 4;
}

abbrev once_subscribed : Database
once_subscribed = record office { subscriptions = cancelled ∷ [] }

ann-Holds_still : Holds "ann" "acme" owner once_subscribed
unfolding rank select
ann-Holds_still = record {
  membership = joins "m1" "ann" owner;
  single = refl;
  ranked = omega arith;
}

abbrev at_10 : World
at_10 = at_time 10 office

eve_fits : Acceptable platform "invite" eve at_10 for_eve
unfolding select hash_token
eve_fits = record { found = refl; open_yet = refl; in_time = omega arith; addressed = refl }

-- Eve joins.
eve_accepts :
    accept_invitation platform "invite" eve at_10
    ≡ (ok (some acme), (accept_invitation platform "invite" eve at_10).1)
unfolding accept_invitation accept_checks accept_writes Invitations.get_by_token
    Invitations.save_status Memberships.create Users.exists Organizations.exists
    Organizations.get_by_id insert_row any insert select update_where scalar_one_or_none hash_token
    membership_clash
eve_accepts = refl

accept_invitation_sound_example :
    (i : Invitation) × Acceptable platform "invite" eve at_10 i
    × ((accept_invitation platform "invite" eve at_10).1.db.invitations
        ≡ update_where (Invitations.by_id i.id) (with_status accepted) office.invitations)
    × (insert_row membership_clash (granted platform eve i at_10) office.memberships
        ≡ ok (accept_invitation platform "invite" eve at_10).1.db.memberships)
accept_invitation_sound_example =
    accept_invitation_sound platform "invite" eve at_10
      (accept_invitation platform "invite" eve at_10).1 eve_accepts

accept_invitation_once_example :
    accept_invitation platform "invite" bob (accept_invitation platform "invite" eve at_10).1 ≡ (
      err (app (bad_request "Invitation is accepted.")),
      (accept_invitation platform "invite" eve at_10).1,
    )
accept_invitation_once_example =
    accept_invitation_once platform "invite" eve bob at_10
      (accept_invitation platform "invite" eve at_10).1
      (accept_invitation platform "invite" eve at_10).1 eve_accepts refl

abbrev at_60 : World
at_60 = at_time 60 office

eve_found :
    select (Invitations.by_token (hash_token platform "invite")) office.invitations ≡ for_eve ∷ []
unfolding select hash_token
eve_found = refl

expired_invitation_blocks_example :
    let w' = (get_db (accept_invitation platform "invite" eve) at_60).1 in
    invite_member platform acme " EVE@x.io" member bob w'
    ≡ (err (app (conflict "A pending invitation already exists for this email.")), w')
unfolding select lower normalize_email
expired_invitation_blocks_example =
    expired_invitation_blocks platform "invite" " EVE@x.io" member acme eve bob at_60 for_eve
      eve_found refl (omega arith) refl bob-Holds

-- Bob invites Dan, who has an account.
abbrev with_dan : World
with_dan = at_time 10 (record office { users = person "dan" "dan@x.io" ∷ bob ∷ [] })

dan_invited : invite_member platform acme "Dan@X.io " viewer bob with_dan ≡ (
  ok (invited platform acme "dan@x.io" viewer bob with_dan, "fresh"),
  (invite_member platform acme "Dan@X.io " viewer bob with_dan).1,
)
unfolding invite_member invite_checks invite_writes require_role refuse_member ensure_role
    Memberships.get_by_user_and_org Invitations.get_pending_by_email_and_org Invitations.create
    Users.get_by_email Users.refers Organizations.exists insert_row any insert select
    scalar_one_or_none hash_token generate_secure_token invitation_clash lower normalize_email
dan_invited = refl

abbrev dan_later : World
dan_later = record (invite_member platform acme "Dan@X.io " viewer bob with_dan).1 { now = 20 }

accept-invite_example :
    let (r, after) = accept_invitation platform "fresh" (person "dan" "dan@x.io") dan_later in
    (r ≡ ok (some acme))
    × IsMember "dan" "acme" after.db (
        granted platform
          (person "dan" "dan@x.io")
          (invited platform acme "dan@x.io" viewer bob with_dan)
          dan_later)
    × (viewer ≡ viewer)
unfolding invite_member invite_checks invite_writes require_role refuse_member ensure_role
    Memberships.get_by_user_and_org Invitations.get_pending_by_email_and_org Invitations.create
    Users.get_by_email Users.refers Users.exists Organizations.exists Organizations.get_by_id
    insert_row any insert select scalar_one_or_none hash_token generate_secure_token
    invitation_clash membership_clash lower normalize_email
accept-invite_example =
    accept-invite platform acme acme "Dan@X.io " "fresh" viewer bob (person "dan" "dan@x.io")
      (invited platform acme "dan@x.io" viewer bob with_dan) with_dan
      (invite_member platform acme "Dan@X.io " viewer bob with_dan).1 dan_later dan_invited refl
      (omega arith) refl refl refl refl refl
