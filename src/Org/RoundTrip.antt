-- ===== src/Org/RoundTrip.antt =====
-- From an invitation to a membership: `invite_member`, then `accept_invitation` of
-- app/services/org_service.py.
use saas_backend_fastapi.Prelude.{
  suc, ◌+◌, ◌≤◌, String, ◌≡◌, sym, ap, ◌∙◌, true, false, arith, some, [], ◌∷◌, eq_refl,
}
use saas_backend_fastapi.Prelude.Rows.{select, insert, any, select_none_of_any, select-insert_alone}
use saas_backend_fastapi.Errors.{ok}
use saas_backend_fastapi.Models.{
  Invitation, Membership, User, Organization, MemberRole, pending, admin, invitation_clash,
  membership_clash,
}
use saas_backend_fastapi.Config.{invitation_seconds}
use saas_backend_fastapi.Text.{normalize_email}
use saas_backend_fastapi.Platform.{Platform}
use saas_backend_fastapi.World.{World, insert_row}
use saas_backend_fastapi.World.Laws.{bind_ok, bind_step}
use saas_backend_fastapi.Security.{hash_token, generate_secure_token}
use saas_backend_fastapi.Repositories.Users
use saas_backend_fastapi.Repositories.Organizations
use saas_backend_fastapi.Repositories.Memberships
use saas_backend_fastapi.Repositories.Invitations
use saas_backend_fastapi.Org.{
  refuse_member, invite_checks, invite_writes, invite_member, accept_checks, accept_writes,
  accept_invitation,
}
use saas_backend_fastapi.Org.Roles.{IsMember, require_role_pure}
use saas_backend_fastapi.Org.Invites.{Acceptable, accept_checks_complete, granted}

-- the row that `invite_member` writes
abbrev pub invited : Platform → Organization → String → MemberRole → User → World → Invitation
invited p org address role actor w = record {
  id = p.ulid (suc w.drawn);
  organization_id = org.id;
  email = address;
  role = role;
  token = hash_token p (p.token_urlsafe w.drawn);
  invited_by_id = some actor.id;
  status = pending;
  expires_at = w.now + invitation_seconds;
  created_at = w.now;
}

module _ (p : Platform) (org : Organization) (role : MemberRole) (actor : User) (w : World) where
  pub invite_writes_lem :
      (address token : String) (i : Invitation) (w' : World)
      → invite_writes p org address role actor w ≡ (ok (i, token), w')
      → (i ≡ invited p org address role actor w)
        × (token ≡ p.token_urlsafe w.drawn)
        × (w'.db ≡ record w.db {
          invitations = insert (invited p org address role actor w) w.db.invitations;
        })
        × (w'.drawn ≡ suc (suc w.drawn))
        × (w'.now ≡ w.now)
        × (any (invitation_clash (invited p org address role actor w)) w.db.invitations ≡ false)
  unfolding invite_writes generate_secure_token Invitations.create insert_row
  invite_writes_lem address token i w' h =
      (ground arith, ground arith, ground arith, ground arith, ground arith, ground arith)

  pub invite_checks_sound :
      (email address : String) (w' : World)
      → invite_checks org email actor w ≡ (ok address, w')
      → (address ≡ normalize_email email) × (w' ≡ w)
  unfolding invite_checks refuse_member
  invite_checks_sound email address w' h =
      let same = require_role_pure actor.id org.id admin w in (ground arith, ground arith)

token_clashes :
    (p : Platform) (new : Invitation) (old : Invitation)
    → Invitations.by_token new.token old ≡ true
    → invitation_clash new old ≡ true
unfolding invitation_clash
token_clashes p new old h = ground arith

invite-Acceptable :
    (p : Platform) (org : Organization) (email token : String) (role : MemberRole)
    (actor user : User) (i : Invitation) (w w' later : World)
    → invite_member p org email role actor w ≡ (ok (i, token), w')
    → later.db.invitations ≡ w'.db.invitations
    → later.now ≤ w.now + invitation_seconds
    → user.email ≡ normalize_email email
    → Acceptable p token user later i × (i.role ≡ role) × (i.organization_id ≡ org.id)
unfolding invite_member
invite-Acceptable p org email token role actor user i w w' later sent kept in_time addressed =
    let (address, checked, wrote) =
      bind_ok (invite_checks org email actor) (λ a. invite_writes p org a role actor) w sent in
    let (normal, same) = invite_checks_sound p org role actor w email address _ checked in
    let (is_new, is_token, db, drawn, now, fresh) =
      invite_writes_lem p org role actor w address token i w' (rw same at wrote) in
    let new = invited p org address role actor w in
    let absent =
      select_none_of_any (invitation_clash new) (Invitations.by_token new.token) w.db.invitations
        (token_clashes p new) fresh in
    (
      record {
        found =
            ap (select (Invitations.by_token (hash_token p token)))
              (kept ∙ ap (λ d. d.invitations) db)
            ∙ ap (λ t. select (Invitations.by_token (hash_token p t)) (insert new w.db.invitations))
                is_token
            ∙ select-insert_alone (Invitations.by_token new.token) new w.db.invitations
                (eq_refl new.token) absent
            ∙ ap (λ x. x ∷ []) (sym is_new);
        open_yet = ap (λ x. x.status) is_new;
        in_time = omega (arith, ap (λ x. x.expires_at) is_new);
        addressed = ap (λ x. x.email) is_new ∙ normal ∙ sym addressed;
      },
      ap (λ x. x.role) is_new,
      ap (λ x. x.organization_id) is_new,
    )

-- An invitation that was sent leaves the memberships as they were.
pub invite_keeps_memberships :
    (p : Platform) (org : Organization) (email : String) (role : MemberRole) (actor : User)
    (w w' : World) (sent : Invitation × String)
    → invite_member p org email role actor w ≡ (ok sent, w')
    → w'.db.memberships ≡ w.db.memberships
unfolding invite_member
invite_keeps_memberships p org email role actor w w' (i, token) h =
    let (address, checked, wrote) =
      bind_ok (invite_checks org email actor) (λ a. invite_writes p org a role actor) w h in
    let (normal, same) = invite_checks_sound p org role actor w email address _ checked in
    let (_, _, db, _, _, _) =
      invite_writes_lem p org role actor w address token i w' (rw same at wrote) in
    ap (λ d. d.memberships) db

accept_writes_complete :
    (p : Platform) (user : User) (i : Invitation) (w : World) (joined : Organization)
    → Users.exists user.id w.db ≡ true
    → Organizations.exists i.organization_id w.db ≡ true
    → Organizations.get_by_id i.organization_id w.db ≡ ok (some joined)
    → any (membership_clash (granted p user i w)) w.db.memberships ≡ false
    → ((accept_writes p user i w).0 ≡ ok (some joined))
      × ((accept_writes p user i w).1.db.memberships ≡ insert (granted p user i w) w.db.memberships)
unfolding accept_writes Memberships.create Invitations.save_status insert_row
    Organizations.get_by_id Users.exists Organizations.exists
accept_writes_complete p user i w joined known org_known there free = (ground arith, ground arith)

pair_clashes :
    (new old : Membership)
    → Memberships.of_user_in_org new.user_id new.organization_id old ≡ true
    → membership_clash new old ≡ true
unfolding membership_clash
pair_clashes new old h = ground arith

-- An invitation that was sent lets its addressee in: the token that `invite_member` returns, while
-- the table of invitations is as it left it and for seven days, makes a user with the normalised
-- address, who exists and clashes with no membership, a member of the organization with the role of
-- the invitation.
pub accept-invite :
    (p : Platform) (org joined : Organization) (email token : String) (role : MemberRole)
    (actor user : User) (i : Invitation) (w w' later : World)
    → invite_member p org email role actor w ≡ (ok (i, token), w')
    → later.db.invitations ≡ w'.db.invitations
    → later.now ≤ w.now + invitation_seconds
    → user.email ≡ normalize_email email
    → Users.exists user.id later.db ≡ true
    → Organizations.exists org.id later.db ≡ true
    → Organizations.get_by_id org.id later.db ≡ ok (some joined)
    → any (membership_clash (granted p user i later)) later.db.memberships ≡ false
    → let (r, after) = accept_invitation p token user later in
      (r ≡ ok (some joined))
      × IsMember user.id org.id after.db (granted p user i later)
      × ((granted p user i later).role ≡ role)
unfolding accept_invitation
accept-invite p org joined email token role actor user i w w' later sent kept in_time addressed
      known org_known there free =
    let (fits, its_role, its_org) =
      invite-Acceptable p org email token role actor user i w w' later sent kept in_time
        addressed in
    let step =
      bind_step (accept_checks p token user) (accept_writes p user) later later
        (accept_checks_complete p token user later i fits) in
    let (result, memberships) =
      accept_writes_complete p user i later joined known (rw its_org org_known) (rw its_org there)
        free in
    let new = granted p user i later in
    (
      ap (λ x. x.0) step ∙ result,
      ap (select (Memberships.of_user_in_org user.id org.id))
            (ap (λ x. x.1.db.memberships) step ∙ memberships)
          ∙ ap
              (λ o. select (Memberships.of_user_in_org user.id o) (insert new later.db.memberships))
              (sym its_org)
          ∙ select-insert_alone (Memberships.of_user_in_org user.id i.organization_id) new
              later.db.memberships (ground (arith, eq_refl user.id, eq_refl i.organization_id))
              (select_none_of_any (membership_clash new)
                (Memberships.of_user_in_org user.id i.organization_id) later.db.memberships
                (pair_clashes new) free),
      its_role,
    )
