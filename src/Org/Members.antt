-- ===== src/Org/Members.antt =====
-- `update_member_role` of app/services/org_service.py: who may call it, and what it writes.
use saas_backend_fastapi.Prelude.{String, ◌==◌, ◌≡◌, refl, sym, ap, ◌∙◌, ◌↔◌, inl, inr, arith}
use saas_backend_fastapi.Prelude.Rows.{select, update_where}
use saas_backend_fastapi.Errors.{ok}
use saas_backend_fastapi.Models.{MemberRole, owner, admin, Membership, Organization, User}
use saas_backend_fastapi.World.{Database, World, scalar_one_or_none}
use saas_backend_fastapi.World.Laws.{Result-cases, scalar-cases}
use saas_backend_fastapi.Repositories.Memberships
use saas_backend_fastapi.Org.{require_role, update_member_role, guard_owner}
use saas_backend_fastapi.Org.Roles.{
  IsMember, Holds, require_role_pure, require_role-Holds, require_role_complete,
}

abbrev pub with_role : MemberRole → Membership → Membership
with_role role m = record m { role = role }

-- the database after `save_role`
abbrev pub with_saved_role : String → MemberRole → Database → Database
with_saved_role id role db = record db {
  memberships = update_where (λ m. m.id == id) (with_role role) db.memberships;
}

guard_owner_pure : (r : MemberRole) (u o : String) (w : World) → (guard_owner r u o w).1 ≡ w
unfolding guard_owner
guard_owner_pure owner u o w = ground (arith, require_role_pure u o owner w)
guard_owner_pure _ u o w = refl

guard_owner-Holds :
    (r : MemberRole) (u o : String) (w : World)
    → (guard_owner r u o w).0 ≡ ok tt
    → r ≡ owner
    → Holds u o owner w.db
unfolding guard_owner
guard_owner-Holds owner u o w h e = elim (Result-cases (require_role u o owner w).0) [
  | inl (a, s) ↦ require_role-Holds u o owner w a s
  | inr (x, s) ↦ absurd (ground arith)
]
guard_owner-Holds _ u o w h e = absurd (cc)

guard_owner_complete :
    (r : MemberRole) (u o : String) (w : World)
    → (r ≡ owner → Holds u o owner w.db)
    → guard_owner r u o w ≡ (ok tt, w)
unfolding guard_owner
guard_owner_complete owner u o w over =
    let h = over refl in
    let passed = require_role_complete u o owner w h.membership h.single h.ranked in ground arith
guard_owner_complete _ u o w over = refl

module _ (org : Organization) (target_user_id : String) (new_role : MemberRole) (actor : User)
    (w : World) where
  update_check :
      (m' : Membership)
      → (update_member_role org target_user_id new_role actor w).0 ≡ ok m'
      → (a : Membership) × ((require_role actor.id org.id admin w).0 ≡ ok a)
  unfolding update_member_role
  update_check m' h = ground (arith)

  update_rest :
      (m' : Membership)
      → (update_member_role org target_user_id new_role actor w).0 ≡ ok m'
      → (m : Membership) × IsMember target_user_id org.id w.db m
        × ((guard_owner m.role actor.id org.id w).0 ≡ ok tt)
        × (m' ≡ with_role new_role m)
        × ((update_member_role org target_user_id new_role actor w).1
            ≡ record w { db = with_saved_role m.id new_role w.db })
  unfolding update_member_role Memberships.get_by_user_and_org Memberships.save_role
  update_rest m' h =
      let pure_check = require_role_pure actor.id org.id admin w in
      elim (scalar-cases
        (select (Memberships.of_user_in_org target_user_id org.id) w.db.memberships)) [
          | inl (e, s) ↦ absurd (ground arith)
          | inr (inl (m, e, s)) ↦
              let same = guard_owner_pure m.role actor.id org.id w in
              (m, e, ground arith, ground arith, ground arith)
          | inr (inr s) ↦ absurd (ground arith)
        ]

  pub update_member_role_complete :
      (m : Membership)
      → Holds actor.id org.id admin w.db
      → IsMember target_user_id org.id w.db m
      → (m.role ≡ owner → Holds actor.id org.id owner w.db)
      → update_member_role org target_user_id new_role actor w
        ≡ (ok (with_role new_role m), record w { db = with_saved_role m.id new_role w.db })
  unfolding update_member_role Memberships.get_by_user_and_org Memberships.save_role
      scalar_one_or_none
  update_member_role_complete m h e over =
      let passed = require_role_complete actor.id org.id admin w h.membership h.single h.ranked in
      let allowed = guard_owner_complete m.role actor.id org.id w over in ground arith

-- A change of role goes through exactly when the actor's role is ADMIN or higher, the target is a
-- member, and, where the target is an OWNER, the actor is one too. It then returns the membership
-- with the new role and writes that role, and nothing else, to the rows with the membership's id.
pub update_member_role_iff :
    (org : Organization) (target_user_id : String) (new_role : MemberRole) (actor : User)
    (w : World) (m' : Membership) (w' : World)
    → (update_member_role org target_user_id new_role actor w ≡ (ok m', w')) ↔ (
        Holds actor.id org.id admin w.db
        × (m : Membership) × IsMember target_user_id org.id w.db m
        × (m.role ≡ owner → Holds actor.id org.id owner w.db)
        × (m' ≡ with_role new_role m)
        × (w' ≡ record w { db = with_saved_role m.id new_role w.db }))
update_member_role_iff org target_user_id new_role actor w m' w' = (
  λ h.
      let done = ap (λ x. x.0) h in
      let (a, passed) = update_check org target_user_id new_role actor w m' done in
      let (m, e, allowed, result, after) =
        update_rest org target_user_id new_role actor w m' done in
      (
        require_role-Holds actor.id org.id admin w a passed,
        m,
        e,
        guard_owner-Holds m.role actor.id org.id w allowed,
        result,
        sym (ap (λ x. x.1) h) ∙ after,
      ),
  λ (holds, m, e, over, result, after).
      rw (result, after)
        (update_member_role_complete org target_user_id new_role actor w m holds e over),
)
