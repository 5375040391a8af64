-- ===== src/Org/Handover.antt =====
-- How an organization of app/services/org_service.py changes hands.
use saas_backend_fastapi.Prelude.{
  String, true, none, some, List, [], ◌∷◌, ◌≡◌, ◌≢◌, refl, ap, ◌∙◌, ◌⊎◌, arith, eq_iff, eq_refl,
}
use saas_backend_fastapi.Models.{MemberRole, owner, admin, member, viewer, Organization, User}
use saas_backend_fastapi.Policy.{rank}
use saas_backend_fastapi.Platform.{Platform}
use saas_backend_fastapi.World.{World}
use saas_backend_fastapi.Org.Spec.{
  Call, Run, done, step, update_member_role, remove_member, Roles, roles_of, assign, may_change,
  holds_at, IsConsistent,
}
use saas_backend_fastapi.Org.Requests.{serve}
use saas_backend_fastapi.Org.Refinement.{serve_refines}

-- An OWNER may change every role.
owner_may_change : (t : MemberRole) → may_change (some owner) (some t) ≡ true
unfolding may_change holds_at rank
owner_may_change owner = refl
owner_may_change admin = refl
owner_may_change member = refl
owner_may_change viewer = refl

-- the two requests: the new OWNER, then the leave of the old one
abbrev pub handover : Organization → String → User → List Call
handover org heir_id actor =
    update_member_role org heir_id owner actor ∷ remove_member org actor.id actor ∷ []

handed_over :
    (org : Organization) (heir_id : String) (actor : User) (t : MemberRole) {r r' : Roles}
    → Run (handover org heir_id actor) r r'
    → r org.id actor.id ≡ some owner
    → r org.id heir_id ≡ some t
    → r' ≡ assign org.id actor.id none (assign org.id heir_id (some owner) r)
handed_over org heir_id actor t {r} {r'} (step {r' = r1} first (step {r' = r2} second done)) rules
      there =
    second
    ∙ rw (eq_refl actor.id)
        (ap (assign org.id actor.id none) (first ∙ rw (rules, there, owner_may_change t) refl))

-- An OWNER can always hand its organization over to another member and leave: after a change of the
-- member's role to OWNER and a removal of itself, in two sessions, the member is an OWNER, the
-- actor has no role, and no other role has changed; in the first database ids and pairs of user and
-- organization are unique, and the member is not the actor.
pub handover_reached :
    (p : Platform) (org : Organization) (heir_id : String) (actor : User) (t : MemberRole)
    (w : World)
    → IsConsistent w.db
    → heir_id ≢ actor.id
    → roles_of w.db org.id actor.id ≡ some owner
    → roles_of w.db org.id heir_id ≡ some t
    → let r = roles_of (serve p (handover org heir_id actor) w).db in
      (r org.id heir_id ≡ some owner)
      × (r org.id actor.id ≡ none)
      × ((u o : String)
          → ((u ≢ heir_id) × (u ≢ actor.id)) ⊎ (o ≢ org.id)
          → r o u ≡ roles_of w.db o u)
handover_reached p org heir_id actor t w known other rules there =
    let run = (serve_refines p (handover org heir_id actor) w known).0 in
    let whole = handed_over org heir_id actor t run rules there in
    (
      ap (λ r. r org.id heir_id) whole
          ∙ ground (arith, eq_iff heir_id actor.id, eq_refl heir_id, eq_refl org.id),
      ap (λ r. r org.id actor.id) whole ∙ ground (arith, eq_refl actor.id, eq_refl org.id),
      λ u o apart.
          ap (λ r. r o u) whole
          ∙ ground (arith, eq_iff u actor.id, eq_iff u heir_id, eq_iff o org.id),
    )
