-- ===== src/Org/Refinement.antt =====
-- app/services/org_service.py implements the roles of `Spec`: each request, in its session.
use saas_backend_fastapi.Prelude.{
  String, false, ◌||◌, none, some, List, [], ◌∷◌, ◌==◌, ◌≡◌, refl, ap, ◌∙◌, inl, inr, arith,
  Bool-cases,
}
use saas_backend_fastapi.Prelude.Rows.{any, insert}
use saas_backend_fastapi.Errors.{ok}
use saas_backend_fastapi.Models.{MemberRole, owner, admin, Organization, User, membership_clash}
use saas_backend_fastapi.Platform.{Platform}
use saas_backend_fastapi.World.{Database, World, insert_row, get_db}
use saas_backend_fastapi.World.Laws.{session-cases}
use saas_backend_fastapi.Repositories.Memberships
use saas_backend_fastapi.Repositories.Organizations
use saas_backend_fastapi.Org.Lifecycle.{in_org, new_owner}
use saas_backend_fastapi.Org.Deletion.{delete_iff}
use saas_backend_fastapi.Org.Invites.{granted, accept_invitation_sound}
use saas_backend_fastapi.Org
use saas_backend_fastapi.Org.Members.{update_member_role_iff, update_member_role_complete}
use saas_backend_fastapi.Org.Effects.{update_member_role_effect}
use saas_backend_fastapi.Org.RoundTrip.{invite_keeps_memberships}
use saas_backend_fastapi.Org.Removal.{remove_member_iff, without_member}
use saas_backend_fastapi.Org.Spec.{
  Call, Step, Run, done, step, create, update_member_role, remove_member, invite_member,
  accept_invitation, delete, roles_of, holds_at, may_change, IsConsistent, role_in,
}
use saas_backend_fastapi.Org.View.{
  role_of_member, holds_at_iff, roles_assign, roles_unchanged, roles_inserted, roles_dissolved,
}
use saas_backend_fastapi.Org.Consistency.{
  IsConsistent-unchanged, IsConsistent-updated, IsConsistent-deleted, IsConsistent-inserted,
}
use saas_backend_fastapi.Org.Requests.{perform, serve}
use saas_backend_fastapi.Org.Permits.{may_change_iff, may_remove_iff}

create_writes :
    (p : Platform) (name : String) (creator : User) (w w' : World) (org : Organization)
    → Org.create p name creator w ≡ (ok org, w')
    → (any (membership_clash (new_owner p creator org w)) w.db.memberships ≡ false)
      × (w'.db.memberships ≡ insert (new_owner p creator org w) w.db.memberships)
unfolding Org.create Organizations.create Memberships.create insert_row
create_writes p name creator w w' org h = (ground arith, ground arith)

-- What a request is to show: the step of its call, and the constraints kept.
abbrev Refines : Call → Database → Database → Type 0
Refines c db db' = Step c (roles_of db) (roles_of db') × IsConsistent db'

module _ (p : Platform) (w : World) (known : IsConsistent w.db) where
  update_member_role-Refines :
      (org : Organization) (target : String) (new_role : MemberRole) (actor : User)
      → Refines
          (update_member_role org target new_role actor)
          w.db
          (get_db (perform p (update_member_role org target new_role actor)) w).1.db
  unfolding perform
  update_member_role-Refines org target new_role actor =
      let decided = may_change_iff w.db known org target actor in
      elim (session-cases (Org.update_member_role org target new_role actor) w) [
        | inl (m', w', e, after) ↦
            let (holds, m, here, over, result, saved) =
              (update_member_role_iff org target new_role actor w m' w').0 e in
            let (there, its_role, others) =
              update_member_role_effect org target new_role actor w w' m' known.ids e in
            rw (after, decided.1 (holds, m, here, over))
              (
                roles_assign target org.id (some new_role) (roles_of w.db) (roles_of w'.db)
                    (role_of_member w'.db target org.id m' there ∙ ap some its_role)
                    (λ u o other. ap role_in (others u o other)),
                IsConsistent-updated w.db known m.id new_role w'.db
                    (ap (λ x. x.db.memberships) saved),
              )
        | inr (x, failed, same) ↦
            elim (Bool-cases
              (may_change (roles_of w.db org.id actor.id) (roles_of w.db org.id target))) [
                | inl may ↦
                    let (holds, m, here, over) = decided.0 may in
                    let passed =
                      update_member_role_complete org target new_role actor w m holds here over in
                    absurd (ground arith)
                | inr may_not ↦ rw (same, may_not) (refl, known)
              ]
      ]

  remove_member-Refines :
      (org : Organization) (target : String) (actor : User)
      → Refines
          (remove_member org target actor)
          w.db
          (get_db (perform p (remove_member org target actor)) w).1.db
  unfolding perform
  remove_member-Refines org target actor =
      let decided = may_remove_iff w.db known org target actor in
      let exact = remove_member_iff org target actor w in
      elim (session-cases (Org.remove_member org target actor) w) [
        | inl (a, w', e, after) ↦
            let ((passes, _), none_left, others) = exact w' in
            let (by, removed) = passes e in
            rw (after, decided.1 by, removed)
              (
                roles_assign target org.id none (roles_of w.db)
                    (roles_of (without_member target org.id w.db)) (ap role_in none_left)
                    (λ u o other. ap role_in (others u o other)),
                IsConsistent-deleted w.db known (Memberships.of_user_in_org target org.id)
                    (without_member target org.id w.db) refl,
              )
        | inr (x, failed, same) ↦
            elim (Bool-cases
              (actor.id == target || holds_at admin (roles_of w.db org.id actor.id))) [
                | inl may ↦
                    let w' = record w { db = without_member target org.id w.db } in
                    let passed = (exact w').0.1 (decided.0 may, refl) in absurd (ground arith)
                | inr may_not ↦ rw (same, may_not) (refl, known)
              ]
      ]

  delete-Refines :
      (org : Organization) (actor : User)
      → Refines (delete org actor) w.db (get_db (perform p (delete org actor)) w).1.db
  unfolding perform Organizations.purge
  delete-Refines org actor = elim (session-cases (Org.delete org actor) w) [
    | inl (a, w', e, after) ↦
        let (holds, unused, purged) = (delete_iff org actor w w').0.0 e in
        let as_owner = holds_at_iff w.db actor.id org.id owner known.pairs in
        rw (after, purged)
          (
            inr (
              as_owner.1 holds,
              roles_dissolved w.db (Organizations.purge org.id w.db) org.id refl,
            ),
            IsConsistent-deleted w.db known (in_org org.id) (Organizations.purge org.id w.db) refl,
          )
    | inr (x, failed, same) ↦ rw same (inl refl, known)
  ]

  accept_invitation-Refines :
      (token : String) (user : User)
      → Refines
          (accept_invitation token user)
          w.db
          (get_db (perform p (accept_invitation token user)) w).1.db
  unfolding perform insert_row
  accept_invitation-Refines token user =
      elim (session-cases (Org.accept_invitation p token user) w) [
        | inl (a, w', e, after) ↦
            let (i, fits, _, inserted) = accept_invitation_sound p token user w w' e in
            let new = granted p user i w in
            let fresh : any (membership_clash new) w.db.memberships ≡ false = ground arith in
            let rows : w'.db.memberships ≡ insert new w.db.memberships = ground arith in
            let (nobody, joined) = roles_inserted w.db w'.db new fresh rows in
            rw after (
              inr (i.organization_id, i.role, nobody, joined),
              IsConsistent-inserted w.db known new w'.db fresh rows,
            )
        | inr (x, failed, same) ↦ rw same (inl refl, known)
      ]

  create-Refines :
      (name : String) (creator : User)
      → Refines (create name creator) w.db (get_db (perform p (create name creator)) w).1.db
  unfolding perform
  create-Refines name creator = elim (session-cases (Org.create p name creator) w) [
    | inl (org, w', e, after) ↦
        let (fresh, rows) = create_writes p name creator w w' org e in
        let new = new_owner p creator org w in
        let (nobody, founded) = roles_inserted w.db w'.db new fresh rows in
        rw after
          (inr (org.id, nobody, founded), IsConsistent-inserted w.db known new w'.db fresh rows)
    | inr (x, failed, same) ↦ rw same (inl refl, known)
  ]

  invite_member-Refines :
      (org : Organization) (email : String) (role : MemberRole) (actor : User)
      → Refines
          (invite_member org email role actor)
          w.db
          (get_db (perform p (invite_member org email role actor)) w).1.db
  unfolding perform
  invite_member-Refines org email role actor =
      elim (session-cases (Org.invite_member p org email role actor) w) [
        | inl (sent, w', e, after) ↦
            let rows = invite_keeps_memberships p org email role actor w w' sent e in
            rw after (roles_unchanged w.db w'.db rows, IsConsistent-unchanged w.db known w'.db rows)
        | inr (x, failed, same) ↦ rw same (refl, known)
      ]

  step-Refines : (c : Call) → Refines c w.db (get_db (perform p c) w).1.db
  step-Refines (create name creator) = create-Refines name creator
  step-Refines (update_member_role org target role actor) =
      update_member_role-Refines org target role actor
  step-Refines (remove_member org target actor) = remove_member-Refines org target actor
  step-Refines (invite_member org email role actor) = invite_member-Refines org email role actor
  step-Refines (accept_invitation token user) = accept_invitation-Refines token user
  step-Refines (delete org actor) = delete-Refines org actor

-- Any sequence of requests for organizations, each in its own session, does to the roles of the
-- members what the abstract steps of its calls do, refusals and failures included, and keeps ids
-- and pairs of user and organization unique; in the first database they are.
pub serve_refines :
    (p : Platform) (cs : List Call) (w : World)
    → IsConsistent w.db
    → Run cs (roles_of w.db) (roles_of (serve p cs w).db) × IsConsistent (serve p cs w).db
unfolding serve
serve_refines p [] w known = (done, known)
serve_refines p (c ∷ cs) w known =
    let (first, kept) = step-Refines p w known c in
    let (rest, last) = serve_refines p cs (get_db (perform p c) w).1 kept in (step first rest, last)
