-- ===== src/Org.antt =====
-- app/services/org_service.py: organizations, their members and invitations. Each method of
-- `OrganizationService` is an action; the proofs are in the modules below.
mod Examples
mod SpecExamples
pub mod Slug
pub mod Roles
pub mod Members
pub mod Effects
pub mod Removal
pub mod Invites
pub mod Expiry
pub mod RoundTrip
pub mod Lifecycle
pub mod Deletion
pub mod Spec
pub mod Consistency
pub mod View
pub mod Requests
pub mod Permits
pub mod Refinement
pub mod Outsiders
pub mod Handover
use saas_backend_fastapi.Prelude.{
  ℕ, zero, suc, ◌+◌, String, ◌++◌, ◌==◌, Bool, not, Option, none, some, List, [], ◌∷◌, ltb, is_some,
  if◌then◌else◌,
}
use mathlib.Core.List.{◌++◌ as append}
use saas_backend_fastapi.Prelude.Rows.{select, length}
use saas_backend_fastapi.Errors.{
  Result, ok, err, diverges, AppError, app, bad_request, conflict, forbidden, not_found,
}
use saas_backend_fastapi.Models.{
  User, Organization, Membership, Invitation, MemberRole, owner, admin, member, is_owner, free,
  InvitationStatus, pending, accepted, expired, revoked, is_pending, invitation_status_value,
}
use saas_backend_fastapi.Config.{invitation_seconds}
use saas_backend_fastapi.Text.{decimal, normalize_email}
use saas_backend_fastapi.Platform.{Platform}
use saas_backend_fastapi.World.{
  Database, World, Exec, pure, raise, throw, query, lift, or_raise, raise_if, draw, get_now, ◌>>=◌,
  ◌>>◌,
}
use saas_backend_fastapi.Policy.{ensure_role}
use saas_backend_fastapi.Security.{generate_secure_token, hash_token}
use saas_backend_fastapi.Repositories.Users
use saas_backend_fastapi.Repositories.Organizations
use saas_backend_fastapi.Repositories.Memberships
use saas_backend_fastapi.Repositories.Invitations

-- the `while` loop of `_unique_slug`
unfoldable pub unique_slug_loop : ℕ → Database → String → String → ℕ → Result String
unique_slug_loop zero db base slug counter = err diverges
unique_slug_loop (suc fuel) db base slug counter =
    let next = unique_slug_loop fuel db base (base ++ ("-" ++ decimal counter)) (counter + 1) in
    elim (Organizations.get_by_slug slug db) [
      | err e ↦ err e
      | ok none ↦ ok slug
      | ok (some found) ↦ next
    ]

-- fuel: one round more than there are organizations
unfoldable pub unique_slug : String → Database → Result String
unfolding unique_slug_loop
unique_slug base db = unique_slug_loop (suc (length db.organizations)) db base base 1

unfoldable pub require_role : String → String → MemberRole → Exec Membership
require_role user_id org_id min_role = do
  found ← query (Memberships.get_by_user_and_org user_id org_id)
  membership ← or_raise (forbidden "You are not a member of this organization.") found
  lift (ensure_role membership min_role)
  pure membership

abbrev set_name : Option String → Organization → Organization
set_name none o = o
set_name (some n) o = record o { name = n }

abbrev set_logo : Option String → Organization → Organization
set_logo none o = o
set_logo (some url) o = record o { logo_url = some url }

unfoldable pub update : Organization → Option String → Option String → User → Exec Organization
update org name logo_url actor = do
  require_role actor.id org.id admin
  let change : Organization → Organization = λ o. set_logo logo_url (set_name name o)
  Organizations.save_checked org change
  pure (change org)

unfoldable pub delete : Organization → User → Exec (Unit {0})
delete org actor = do require_role actor.id org.id owner; Organizations.delete org.id

-- SELECT memberships JOIN users
unfoldable pub pair : Membership → List User → List (Membership × User)
pair m [] = []
pair m (u ∷ us) = (m, u) ∷ pair m us

unfoldable pub join_users : List User → List Membership → List (Membership × User)
unfolding pair
join_users users [] = []
join_users users (m ∷ ms) =
    append (pair m (select (Users.by_id m.user_id) users)) (join_users users ms)

unfoldable pub list_members : Organization → User → Exec (List (Membership × User))
list_members org actor = do
  require_role actor.id org.id member
  query (λ db. ok (join_users db.users (select (λ m. m.organization_id == org.id) db.memberships)))

-- `if membership.role == OWNER: await self._require_role(..., OWNER)`
unfoldable pub guard_owner : MemberRole → String → String → Exec (Unit {0})
guard_owner owner actor_id org_id = do require_role actor_id org_id owner; pure tt
guard_owner _ actor_id org_id = pure tt

unfoldable pub update_member_role : Organization → String → MemberRole → User → Exec Membership
update_member_role org target_user_id new_role actor = do
  require_role actor.id org.id admin
  found ← query (Memberships.get_by_user_and_org target_user_id org.id)
  membership ← or_raise (not_found "Member") found
  guard_owner membership.role actor.id org.id
  Memberships.save_role membership.id new_role
  pure (record membership { role = new_role })

unfoldable pub remove_member : Organization → String → User → Exec (Unit {0})
remove_member org target_user_id actor = do
  if actor.id == target_user_id then pure tt else (do require_role actor.id org.id admin; pure tt)
  Memberships.delete target_user_id org.id

unfoldable pub list_invitations : Organization → User → Exec (List Invitation)
list_invitations org actor = do
  require_role actor.id org.id admin
  query (λ db. ok (Invitations.list_by_org org.id db))

-- `if existing_user:` the check that the user is no member yet
unfoldable pub refuse_member : Option User → String → Exec (Unit {0})
refuse_member none org_id = pure tt
refuse_member (some existing_user) org_id = do
  found ← query (Memberships.get_by_user_and_org existing_user.id org_id)
  raise_if (is_some found) (conflict "This user is already a member of the organization.")

unfoldable pub revoke_invitation : Organization → String → User → Exec Invitation
revoke_invitation org invitation_id actor = do
  require_role actor.id org.id admin
  found ← query (Invitations.get_by_id invitation_id)
  invitation ← or_raise (not_found "Invitation") found
  raise_if (not (invitation.organization_id == org.id)) (not_found "Invitation")
  raise_if (not (is_pending invitation.status)) (
      bad_request (
        "Cannot revoke an invitation that is " ++ invitation_status_value invitation.status ++ "."))
  Invitations.save_status invitation.id revoked
  pure (record invitation { status = revoked })

-- `if invitation.expires_at < now:` the expired status is written, then the error is raised
unfoldable pub expire : Invitation → ℕ → Exec (Unit {0})
expire invitation now =
    if ltb invitation.expires_at now
    then (do
      Invitations.save_status invitation.id expired
      raise (bad_request "Invitation has expired."))
    else pure tt

-- `invite_member` up to the last of its checks: the address that it goes on with
unfoldable pub invite_checks : Organization → String → User → Exec String
unfolding refuse_member
invite_checks org email actor = do
  require_role actor.id org.id admin
  let address = normalize_email email
  existing ← query (Invitations.get_pending_by_email_and_org address org.id)
  raise_if (is_some existing) (conflict "A pending invitation already exists for this email.")
  existing_user ← query (Users.get_by_email address)
  refuse_member existing_user org.id
  pure address

module _ (p : Platform) where
  unfoldable pub create : String → User → Exec Organization
  create name creator = do
    slug ← query (unique_slug (p.slugify name))
    org_id ← draw p.ulid
    now ← get_now
    let org : Organization = record {
      id = org_id;
      name = name;
      slug = slug;
      logo_url = none;
      plan = free;
      paystack_customer_id = none;
      created_at = now;
    }
    Organizations.create org
    membership_id ← draw p.ulid
    Memberships.create (record {
      id = membership_id;
      user_id = creator.id;
      organization_id = org.id;
      role = owner;
      created_at = now;
    })
    pure org

  -- what `invite_member` writes after its checks
  unfoldable pub invite_writes :
      Organization → String → MemberRole → User → Exec (Invitation × String)
  invite_writes org address role actor = do
    raw_token ← generate_secure_token p
    invitation_id ← draw p.ulid
    now ← get_now
    let invitation : Invitation = record {
      id = invitation_id;
      organization_id = org.id;
      email = address;
      role = role;
      token = hash_token p raw_token;
      invited_by_id = some actor.id;
      status = pending;
      expires_at = now + invitation_seconds;
      created_at = now;
    }
    Invitations.create invitation
    pure (invitation, raw_token)

  unfoldable pub invite_member :
      Organization → String → MemberRole → User → Exec (Invitation × String)
  invite_member org email role actor = do
    address ← invite_checks org email actor
    invite_writes org address role actor

  -- `accept_invitation` up to the last of its checks
  unfoldable pub accept_checks : String → User → Exec Invitation
  unfolding expire
  accept_checks token user = do
    found ← query (Invitations.get_by_token (hash_token p token))
    invitation ← or_raise (bad_request "Invalid or expired invitation.") found
    raise_if (not (is_pending invitation.status))
        (bad_request ("Invitation is " ++ invitation_status_value invitation.status ++ "."))
    now ← get_now
    expire invitation now
    raise_if (not (invitation.email == user.email))
        (forbidden "This invitation was sent to a different email address.")
    pure invitation

  -- and what it writes
  unfoldable pub accept_writes : User → Invitation → Exec (Option Organization)
  accept_writes user invitation = do
    membership_id ← draw p.ulid
    now ← get_now
    Memberships.create (record {
      id = membership_id;
      user_id = user.id;
      organization_id = invitation.organization_id;
      role = invitation.role;
      created_at = now;
    })
    Invitations.save_status invitation.id accepted
    query (Organizations.get_by_id invitation.organization_id)

  unfoldable pub accept_invitation : String → User → Exec (Option Organization)
  accept_invitation token user = do
    invitation ← accept_checks token user
    accept_writes user invitation
