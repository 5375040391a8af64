-- ===== src/Routes.antt =====
-- app/api/v1/endpoints/organizations.py: the handlers of the routes, after the dependency that finds
-- the current user. A handler returns what its response is made of. The background task of
-- `invite_member`, which mails the token, runs at its end.
mod Examples
pub mod Outsiders
pub mod Sessions
pub mod Payments
pub mod Providers
pub mod Mailing
pub mod Addresses
use saas_backend_fastapi.Prelude.{String, Option, none, some, List, or_default}
use saas_backend_fastapi.Errors.{ok, not_found, value_error}
use saas_backend_fastapi.Models.{User, Organization, Membership, Invitation, MemberRole}
use saas_backend_fastapi.Platform.{Platform}
use saas_backend_fastapi.World.{Exec, pure, throw, query, or_raise, ◌>>=◌, ◌>>◌}
use saas_backend_fastapi.Deps.{get_verified_user}
use saas_backend_fastapi.Mailer.{send_invitation_email}
use saas_backend_fastapi.Repositories.Users
use saas_backend_fastapi.Repositories.Organizations
use saas_backend_fastapi.Org

-- `org = await OrganizationRepository(db).get_by_id(org_id)`, or 404
unfoldable pub with_org : {A : Type 0} → String → (Organization → Exec A) → Exec A
with_org org_id f = do
  found ← query (Organizations.get_by_id org_id)
  org ← or_raise (not_found "Organization") found
  f org

unfoldable pub list_orgs : User → Exec (List Organization)
list_orgs current_user = query (λ db. ok (Organizations.list_for_user current_user.id db))

unfoldable pub get_org : String → User → Exec Organization
unfolding with_org
get_org org_id current_user = with_org org_id pure

unfoldable pub update_org : String → Option String → Option String → User → Exec Organization
unfolding with_org
update_org org_id name logo_url current_user =
    with_org org_id (λ org. Org.update org name logo_url current_user)

unfoldable pub delete_org : String → User → Exec (Unit {0})
unfolding with_org
delete_org org_id current_user = with_org org_id (λ org. Org.delete org current_user)

unfoldable pub list_invitations : String → User → Exec (List Invitation)
unfolding with_org
list_invitations org_id current_user =
    with_org org_id (λ org. Org.list_invitations org current_user)

unfoldable pub revoke_invitation : String → String → User → Exec Invitation
unfolding with_org
revoke_invitation org_id invitation_id current_user =
    with_org org_id (λ org. Org.revoke_invitation org invitation_id current_user)

unfoldable pub list_members : String → User → Exec (List (Membership × User))
unfolding with_org
list_members org_id current_user = with_org org_id (λ org. Org.list_members org current_user)

-- The membership, with the user that `db.refresh` loads for the response.
unfoldable pub update_member_role :
    String → String → MemberRole → User → Exec (Membership × Option User)
unfolding with_org
update_member_role org_id user_id role current_user = with_org org_id (λ org. do
  membership ← Org.update_member_role org user_id role current_user
  user ← query (Users.get_by_id membership.user_id)
  pure (membership, user))

unfoldable pub remove_member : String → String → User → Exec (Unit {0})
unfolding with_org
remove_member org_id user_id current_user =
    with_org org_id (λ org. Org.remove_member org user_id current_user)

module _ (p : Platform) where
  unfoldable pub create_org : String → User → Exec Organization
  create_org name current_user = do user ← get_verified_user current_user; Org.create p name user

  unfoldable pub invite_member : String → String → MemberRole → User → Exec (Unit {0})
  unfolding with_org
  invite_member org_id email role current_user = with_org org_id (λ org. do
    sent ← Org.invite_member p org email role current_user
    send_invitation_email p email (or_default current_user.full_name current_user.email) org.name
        sent.1 role)

  -- the response of a missing organization cannot be built
  unfoldable pub accept_invitation : String → User → Exec Organization
  accept_invitation token current_user = do
    joined ← Org.accept_invitation p token current_user
    elim joined [ none ↦ throw value_error | some org ↦ pure org ]
