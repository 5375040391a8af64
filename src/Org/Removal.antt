-- ===== src/Org/Removal.antt =====
-- `remove_member` of app/services/org_service.py.
use saas_backend_fastapi.Prelude.{
  String, ◌==◌, ◌≡◌, ◌≢◌, sym, ap, ◌∙◌, ◌↔◌, ◌⊎◌, inl, inr, true, false, arith, [], eq_iff,
  Bool-cases,
}
use saas_backend_fastapi.Prelude.Rows.{
  select, delete_where, select-delete_self, select-delete_other,
}
use saas_backend_fastapi.Errors.{ok}
use saas_backend_fastapi.Models.{owner, admin, Membership, Organization, User}
use saas_backend_fastapi.World.{Database, World}
use saas_backend_fastapi.World.Laws.{Result-cases}
use saas_backend_fastapi.Policy.{rank}
use saas_backend_fastapi.Repositories.Memberships
use saas_backend_fastapi.Org.{require_role, remove_member}
use saas_backend_fastapi.Org.Roles.{IsMember, Holds, require_role-Holds, require_role_complete}

-- the database without the membership
abbrev pub without_member : String → String → Database → Database
without_member user_id org_id db = record db {
  memberships = delete_where (Memberships.of_user_in_org user_id org_id) db.memberships;
}

module _ (org : Organization) (target_user_id : String) (actor : User) (w : World) where
  removed_by_self :
      actor.id ≡ target_user_id
      → remove_member org target_user_id actor w
        ≡ (ok tt, record w { db = without_member target_user_id org.id w.db })
  unfolding remove_member Memberships.delete
  removed_by_self e = ground (arith, eq_iff actor.id target_user_id)

  removed_by_admin :
      Holds actor.id org.id admin w.db
      → remove_member org target_user_id actor w
        ≡ (ok tt, record w { db = without_member target_user_id org.id w.db })
  unfolding remove_member Memberships.delete
  removed_by_admin h =
      let passed = require_role_complete actor.id org.id admin w h.membership h.single h.ranked in
      ground arith

  remove_cases :
      (w' : World)
      → remove_member org target_user_id actor w ≡ (ok tt, w')
      → (actor.id ≡ target_user_id) ⊎ Holds actor.id org.id admin w.db
  unfolding remove_member
  remove_cases w' h = elim (Bool-cases (actor.id == target_user_id)) [
    | inl e ↦ inl ((eq_iff actor.id target_user_id).0 e)
    | inr e ↦ elim (Result-cases (require_role actor.id org.id admin w).0) [
      | inl (a, s) ↦ inr (require_role-Holds actor.id org.id admin w a s)
      | inr (x, s) ↦ absurd (ground arith)
    ]
  ]

apart :
    (u o u' o' : String)
    → (u' ≢ u) ⊎ (o' ≢ o)
    → (m : Membership) → Memberships.of_user_in_org u' o' m ≡ true
    → Memberships.of_user_in_org u o m ≡ false
apart u o u' o' other m h = ground (
  arith,
  eq_iff m.user_id u,
  eq_iff m.organization_id o,
  eq_iff m.user_id u',
  eq_iff m.organization_id o',
)

-- A removal goes through exactly when the actor is the target or holds ADMIN or higher, whatever
-- the role of the target. It then deletes the rows of the target in the organization: none is left,
-- and the memberships of every other pair of user and organization are found as before.
pub remove_member_iff :
    (org : Organization) (target_user_id : String) (actor : User) (w w' : World)
    → ((remove_member org target_user_id actor w ≡ (ok tt, w')) ↔ (
        ((actor.id ≡ target_user_id) ⊎ Holds actor.id org.id admin w.db)
        × (w' ≡ record w { db = without_member target_user_id org.id w.db })))
      × (select
            (Memberships.of_user_in_org target_user_id org.id)
            (without_member target_user_id org.id w.db).memberships
          ≡ [])
      × ((u o : String)
          → (u ≢ target_user_id) ⊎ (o ≢ org.id)
          → select
              (Memberships.of_user_in_org u o)
              (without_member target_user_id org.id w.db).memberships
            ≡ select (Memberships.of_user_in_org u o) w.db.memberships)
remove_member_iff org target actor w w' = (
  (
    λ h. let by = remove_cases org target actor w w' h in (by, sym (ap (λ x. x.1) h) ∙ after by),
    λ (by, e). done by ∙ ap (λ x. (ok tt, x)) (sym e),
  ),
  select-delete_self (Memberships.of_user_in_org target org.id) w.db.memberships,
  λ u o other.
      select-delete_other (Memberships.of_user_in_org u o)
        (Memberships.of_user_in_org target org.id) (apart target org.id u o other) w.db.memberships,
)
  where
    done :
        (actor.id ≡ target) ⊎ Holds actor.id org.id admin w.db
        → remove_member org target actor w
          ≡ (ok tt, record w { db = without_member target org.id w.db })
    done (inl e) = removed_by_self org target actor w e
    done (inr h) = removed_by_admin org target actor w h

    after :
        (actor.id ≡ target) ⊎ Holds actor.id org.id admin w.db
        → (remove_member org target actor w).1 ≡ record w { db = without_member target org.id w.db }
    after by = ap (λ x. x.1) (done by)

-- A member whose role is ADMIN can remove an OWNER, the last one too: no membership of the owner is
-- left in the organization.
pub admin_removes_owner :
    (org : Organization) (target_user_id : String) (actor : User) (w : World) (a o : Membership)
    → IsMember actor.id org.id w.db a
    → a.role ≡ admin
    → IsMember target_user_id org.id w.db o
    → o.role ≡ owner
    → let (r, w') = remove_member org target_user_id actor w in
      (r ≡ ok tt)
      × (select (Memberships.of_user_in_org target_user_id org.id) w'.db.memberships ≡ [])
admin_removes_owner org target actor w a o here is_admin there is_owner =
    let done =
      removed_by_admin org target actor w
        (record { membership = a; single = here; ranked = omega (arith, ap rank is_admin) }) in
    (
      ap (λ x. x.0) done,
      ap (λ x. select (Memberships.of_user_in_org target org.id) x.1.db.memberships) done
          ∙ select-delete_self (Memberships.of_user_in_org target org.id) w.db.memberships,
    )
