-- ===== src/Org/Invites.antt =====
-- `accept_invitation` of app/services/org_service.py: what an accepted invitation needs, and what
-- it writes.
use saas_backend_fastapi.Prelude.{
  ◌≤◌, String, ◌++◌, ◌≡◌, refl, sym, ap, ◌∙◌, inl, inr, false, arith, Option, [], ◌∷◌, eq_iff,
  eq_refl,
}
use saas_backend_fastapi.Prelude.Rows.{
  select, insert, update_where, select-update_where, update_where_one,
}
use saas_backend_fastapi.Errors.{ok, err, app, bad_request}
use saas_backend_fastapi.Models.{
  Invitation, Membership, User, Organization, pending, accepted, is_pending, InvitationStatus,
  invitation_status_value, membership_clash,
}
use saas_backend_fastapi.Platform.{Platform}
use saas_backend_fastapi.World.{World, scalar_one_or_none, insert_row}
use saas_backend_fastapi.World.Laws.{scalar-cases, bind_ok, bind_err}
use saas_backend_fastapi.Security.{hash_token}
use saas_backend_fastapi.Repositories.Memberships
use saas_backend_fastapi.Repositories.Invitations
use saas_backend_fastapi.Org.{accept_checks, accept_writes, accept_invitation}

abbrev pub with_status : InvitationStatus → Invitation → Invitation
with_status s i = record i { status = s }

-- the membership that an invitation grants
abbrev pub granted : Platform → User → Invitation → World → Membership
granted p user i w = record {
  id = p.ulid w.drawn;
  user_id = user.id;
  organization_id = i.organization_id;
  role = i.role;
  created_at = w.now;
}

-- The checks of `accept_invitation` pass for `i`.
pub record Acceptable (p : Platform) (token : String) (user : User) (w : World) (i : Invitation)
    : Type 0 where
  pub found : select (Invitations.by_token (hash_token p token)) w.db.invitations ≡ i ∷ []
  pub open_yet : i.status ≡ pending
  pub in_time : w.now ≤ i.expires_at
  pub addressed : i.email ≡ user.email

module _ (p : Platform) (token : String) (user : User) (w : World) where
  pub accept_checks_sound :
      {i : Invitation} {w' : World}
      → accept_checks p token user w ≡ (ok i, w')
      → Acceptable p token user w i × (w' ≡ w)
  unfolding accept_checks Invitations.get_by_token
  accept_checks_sound {i} {w'} h =
      elim (scalar-cases (select (Invitations.by_token (hash_token p token)) w.db.invitations)) [
        | inl (e, s) ↦ absurd (ground arith)
        | inr (inl (j, e, s)) ↦ (
          record {
            found = e ∙ ap (λ x. x ∷ []) (ground arith);
            open_yet = ground arith;
            in_time = ground arith;
            addressed = ground (arith, eq_iff i.email user.email);
          },
          ground arith,
        )
        | inr (inr s) ↦ absurd (ground arith)
      ]

  pub accept_checks_complete :
      (i : Invitation) → Acceptable p token user w i → accept_checks p token user w ≡ (ok i, w)
  unfolding accept_checks Invitations.get_by_token scalar_one_or_none
  accept_checks_complete i h =
      ground (arith, h.found, h.open_yet, h.in_time, h.addressed, eq_iff i.email user.email)

  pub accept_writes_lem :
      (i : Invitation) {o : Option Organization} {w' : World}
      → accept_writes p user i w ≡ (ok o, w')
      → (w'.db.invitations
          ≡ update_where (Invitations.by_id i.id) (with_status accepted) w.db.invitations)
        × (w'.db.memberships ≡ insert (granted p user i w) w.db.memberships)
        × (w'.now ≡ w.now)
        × (insert_row membership_clash (granted p user i w) w.db.memberships
            ≡ ok (insert (granted p user i w) w.db.memberships))
  unfolding accept_writes Memberships.create Invitations.save_status insert_row
  accept_writes_lem i h = ground arith

-- An acceptance that succeeds found one invitation for the token, pending, not expired and sent to
-- the user's address. It marks the invitation as accepted and adds a membership in the invitation's
-- organization, with the invitation's role, under the UNIQUE constraints of the table.
pub accept_invitation_sound :
    (p : Platform) (token : String) (user : User) (w w' : World) {o : Option Organization}
    → accept_invitation p token user w ≡ (ok o, w')
    → (i : Invitation) × Acceptable p token user w i
      × (w'.db.invitations
          ≡ update_where (Invitations.by_id i.id) (with_status accepted) w.db.invitations)
      × (insert_row membership_clash (granted p user i w) w.db.memberships ≡ ok w'.db.memberships)
unfolding accept_invitation
accept_invitation_sound p token user w w' h =
    let (i, checked, wrote) = bind_ok (accept_checks p token user) (accept_writes p user) w h in
    let (fits, same) = accept_checks_sound p token user w checked in
    let (invitations, memberships, now, inserted) =
      accept_writes_lem p token user w i (rw same at wrote) in
    (i, fits, invitations, inserted ∙ ap ok (sym memberships))

accept_checks_closed :
    (p : Platform) (token : String) (user : User) (w : World) (i : Invitation)
    → select (Invitations.by_token (hash_token p token)) w.db.invitations ≡ i ∷ []
    → is_pending i.status ≡ false
    → accept_checks p token user w
      ≡ (err (app (bad_request ("Invitation is " ++ invitation_status_value i.status ++ "."))), w)
unfolding accept_checks Invitations.get_by_token scalar_one_or_none
accept_checks_closed p token user w i e s = ground arith

-- An invitation serves once: after a successful acceptance every other attempt with the token, by
-- whatever user and at whatever later time, as long as the table of invitations is the same, is
-- refused with "Invitation is accepted." and changes nothing.
pub accept_invitation_once :
    (p : Platform) (token : String) (user other : User) (w w' later : World)
    {o : Option Organization}
    → accept_invitation p token user w ≡ (ok o, w')
    → later.db.invitations ≡ w'.db.invitations
    → accept_invitation p token other later
      ≡ (err (app (bad_request "Invitation is accepted.")), later)
unfolding accept_invitation invitation_status_value
accept_invitation_once p token user other w w' later h kept =
    let (i, fits, invitations, _) = accept_invitation_sound p token user w w' h in
    bind_err (accept_checks p token other) (accept_writes p other) later later (
      accept_checks_closed p token other later (with_status accepted i)
        (ap (select (Invitations.by_token (hash_token p token))) (kept ∙ invitations)
          ∙ select-update_where (Invitations.by_token (hash_token p token)) (Invitations.by_id i.id)
              (with_status accepted) (λ x. refl) w.db.invitations
          ∙ ap (update_where (Invitations.by_id i.id) (with_status accepted)) fits.found
          ∙ update_where_one (Invitations.by_id i.id) (with_status accepted) i (eq_refl i.id))
        refl)
