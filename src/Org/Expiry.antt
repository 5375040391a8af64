-- ===== src/Org/Expiry.antt =====
-- Expired invitations of app/services/org_service.py, under the rollback of app/db/session.py.
use saas_backend_fastapi.Prelude.{◌<◌, String, ◌≡◌, ap, ◌∙◌, arith, [], ◌∷◌}
use saas_backend_fastapi.Prelude.Rows.{select}
use saas_backend_fastapi.Errors.{Exception, err, app, bad_request, conflict}
use saas_backend_fastapi.Models.{Invitation, User, Organization, MemberRole, admin, pending}
use saas_backend_fastapi.Text.{normalize_email}
use saas_backend_fastapi.Platform.{Platform}
use saas_backend_fastapi.World.{World, Exec, scalar_one_or_none, get_db}
use saas_backend_fastapi.World.Laws.{bind_err}
use saas_backend_fastapi.Security.{hash_token}
use saas_backend_fastapi.Repositories.Invitations
use saas_backend_fastapi.Org.{
  accept_checks, accept_writes, accept_invitation, invite_checks, invite_writes, invite_member,
}
use saas_backend_fastapi.Org.Roles.{Holds, require_role_complete}

module _ (p : Platform) (token : String) (user : User) (w : World) (i : Invitation) where
  expired_checks :
      select (Invitations.by_token (hash_token p token)) w.db.invitations ≡ i ∷ []
      → i.status ≡ pending
      → i.expires_at < w.now
      → (accept_checks p token user w).0 ≡ err (app (bad_request "Invitation has expired."))
  unfolding accept_checks Invitations.get_by_token Invitations.save_status scalar_one_or_none
  expired_checks found open_yet late = ground arith

  expired_world :
      select (Invitations.by_token (hash_token p token)) w.db.invitations ≡ i ∷ []
      → i.status ≡ pending
      → i.expires_at < w.now
      → record (accept_checks p token user w).1 { db = w.db } ≡ w
  unfolding accept_checks Invitations.get_by_token Invitations.save_status scalar_one_or_none
  expired_world found open_yet late = ground arith

-- A request that raises has the error for its result, and the database as it was.
get_db_err :
    {A : Type 0} (m : Exec A) (w : World) {e : Exception}
    → (m w).0 ≡ err e
    → get_db m w ≡ (err e, record (m w).1 { db = w.db })
unfolding get_db
get_db_err m w h = ground arith

-- An attempt to accept a pending invitation after its expiry is refused, and the session that
-- serves it rolls the write of EXPIRED back: the world is as before and the invitation pending.
pub expired_acceptance_rolled_back :
    (p : Platform) (token : String) (user : User) (w : World) (i : Invitation)
    → select (Invitations.by_token (hash_token p token)) w.db.invitations ≡ i ∷ []
    → i.status ≡ pending
    → i.expires_at < w.now
    → get_db (accept_invitation p token user) w
      ≡ (err (app (bad_request "Invitation has expired.")), w)
unfolding accept_invitation
expired_acceptance_rolled_back p token user w i found open_yet late =
    let failed = expired_checks p token user w i found open_yet late in
    let both =
      bind_err (accept_checks p token user) (accept_writes p user) w
        (accept_checks p token user w).1 (λ k. (failed k, (accept_checks p token user w).1)) in
    get_db_err (accept_invitation p token user) w (ap (λ x. x.0) both)
    ∙ ap (λ x. (err (app (bad_request "Invitation has expired.")), record x.1 { db = w.db })) both
    ∙ ap (λ x. (err (app (bad_request "Invitation has expired.")), x))
        (expired_world p token user w i found open_yet late)

invite_conflict :
    (org : Organization) (email : String) (actor : User) (w : World) (i : Invitation)
    → Holds actor.id org.id admin w.db
    → select (Invitations.pending_for (normalize_email email) org.id) w.db.invitations ≡ i ∷ []
    → invite_checks org email actor w
      ≡ (err (app (conflict "A pending invitation already exists for this email.")), w)
unfolding invite_checks Invitations.get_pending_by_email_and_org scalar_one_or_none
invite_conflict org email actor w i h found =
    let passed = require_role_complete actor.id org.id admin w h.membership h.single h.ranked in
    ground arith

-- After an invitation has expired, and after an attempt to accept it, its address cannot be invited
-- to the organization again: the invitation counts as pending still, whatever its expiry.
pub expired_invitation_blocks :
    (p : Platform) (token email : String) (role : MemberRole) (org : Organization)
    (user actor : User) (w : World) (i : Invitation)
    → select (Invitations.by_token (hash_token p token)) w.db.invitations ≡ i ∷ []
    → i.status ≡ pending
    → i.expires_at < w.now
    → select (Invitations.pending_for (normalize_email email) org.id) w.db.invitations ≡ i ∷ []
    → Holds actor.id org.id admin w.db
    → let w' = (get_db (accept_invitation p token user) w).1 in
      invite_member p org email role actor w'
      ≡ (err (app (conflict "A pending invitation already exists for this email.")), w')
unfolding invite_member
expired_invitation_blocks p token email role org user actor w i found open_yet late blocks holds =
    rw (expired_acceptance_rolled_back p token user w i found open_yet late) (
      bind_err (invite_checks org email actor) (λ address. invite_writes p org address role actor) w
        w (invite_conflict org email actor w i holds blocks))
