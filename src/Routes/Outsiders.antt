-- ===== src/Routes/Outsiders.antt =====
-- The routes of app/api/v1/endpoints/organizations.py for somebody who is no member.
use saas_backend_fastapi.Prelude.{String, ◌==◌, ◌≡◌, refl, ◌∙◌, false, Option, some, []}
use saas_backend_fastapi.Prelude.Rows.{select}
use saas_backend_fastapi.Errors.{ok, err, app, forbidden}
use saas_backend_fastapi.Models.{User, Organization, MemberRole, owner, admin, member}
use saas_backend_fastapi.Platform.{Platform}
use saas_backend_fastapi.World.{World, Exec, scalar_one_or_none, pure, ◌>>=◌}
use saas_backend_fastapi.World.Laws.{bind_err}
use saas_backend_fastapi.Repositories.Organizations
use saas_backend_fastapi.Repositories.Memberships
use saas_backend_fastapi.Org
use saas_backend_fastapi.Routes.{
  with_org, get_org, update_org, delete_org, list_invitations, invite_member, revoke_invitation,
  list_members, update_member_role, remove_member,
}

abbrev pub Refused : {A : Type 0} → Exec A → World → Type 0
Refused m w = m w ≡ (err (app (forbidden "You are not a member of this organization.")), w)

with_org_found :
    {A : Type 0} (org_id : String) (org : Organization) (f : Organization → Exec A) (w : World)
    → Organizations.get_by_id org_id w.db ≡ ok (some org)
    → with_org org_id f w ≡ f org w
unfolding with_org
with_org_found org_id org f w e = rw e refl

Refused-bind :
    {A B : Type 0} (m : Exec A) (f : A → Exec B) (w : World) → Refused m w → Refused (m >>= f) w
Refused-bind m f w h = bind_err m f w w h

module _ (org : Organization) (user : User) (w : World)
    (outside : select (Memberships.of_user_in_org user.id org.id) w.db.memberships ≡ []) where
  require_role-Refused : (r : MemberRole) → Refused (Org.require_role user.id org.id r) w
  unfolding Org.require_role Memberships.get_by_user_and_org scalar_one_or_none
  require_role-Refused r = rw outside refl

  removal-Refused :
      (target : String)
      → (user.id == target) ≡ false
      → Refused (Org.remove_member org target user) w
  unfolding Org.remove_member
  removal-Refused target other = rw (other, require_role-Refused admin) refl

  -- Somebody who is no member of an organization can neither change it, nor delete it, nor see its
  -- members and invitations, nor invite, nor revoke, nor change a role, nor remove another user:
  -- each of these routes answers "You are not a member of this organization." and changes nothing,
  -- mail included. The organization itself is shown to anybody who is logged in.
  pub outsider-Refused :
      (p : Platform) (org_id : String)
      → Organizations.get_by_id org_id w.db ≡ ok (some org)
      → (name logo_url : Option String) (email invitation_id target : String) (role : MemberRole)
      → (user.id == target) ≡ false
      → Refused (update_org org_id name logo_url user) w
        × Refused (delete_org org_id user) w
        × Refused (list_members org_id user) w
        × Refused (list_invitations org_id user) w
        × Refused (invite_member p org_id email role user) w
        × Refused (revoke_invitation org_id invitation_id user) w
        × Refused (update_member_role org_id target role user) w
        × Refused (remove_member org_id target user) w
        × (get_org org_id user w ≡ (ok org, w))
  unfolding update_org delete_org list_members list_invitations invite_member revoke_invitation
      update_member_role remove_member get_org Org.update Org.delete Org.list_members
      Org.list_invitations Org.invite_member Org.invite_checks Org.revoke_invitation
      Org.update_member_role
  outsider-Refused p org_id found name logo_url email invitation_id target role other = (
    with_org_found org_id org _ w found
        ∙ Refused-bind (Org.require_role user.id org.id admin) _ w (require_role-Refused admin),
    with_org_found org_id org _ w found
        ∙ Refused-bind (Org.require_role user.id org.id owner) _ w (require_role-Refused owner),
    with_org_found org_id org _ w found
        ∙ Refused-bind (Org.require_role user.id org.id member) _ w (require_role-Refused member),
    with_org_found org_id org _ w found
        ∙ Refused-bind (Org.require_role user.id org.id admin) _ w (require_role-Refused admin),
    with_org_found org_id org _ w found
        ∙ Refused-bind (Org.invite_member p org email role user) _ w (
            Refused-bind (Org.invite_checks org email user) _ w (
              Refused-bind (Org.require_role user.id org.id admin) _ w
                (require_role-Refused admin))),
    with_org_found org_id org _ w found
        ∙ Refused-bind (Org.require_role user.id org.id admin) _ w (require_role-Refused admin),
    with_org_found org_id org _ w found
        ∙ Refused-bind (Org.update_member_role org target role user) _ w
            (Refused-bind (Org.require_role user.id org.id admin) _ w (require_role-Refused admin)),
    with_org_found org_id org _ w found ∙ removal-Refused target other,
    with_org_found org_id org pure w found,
  )
