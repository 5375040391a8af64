-- ===== src/Org/Effects.antt =====
-- What a change of role in app/services/org_service.py does to the table of memberships, and how
-- far an ADMIN can go with it.
use saas_backend_fastapi.Prelude.{
  ◌≤◌, String, ◌==◌, ◌≡◌, ◌≢◌, refl, ap, ◌∙◌, ◌⊎◌, true, false, arith, [], ◌∷◌, eq_iff, eq_refl,
}
use saas_backend_fastapi.Prelude.Rows.{
  select, length, update_where, select-update_where, select_single, select_unique, select_comm,
  update_where_none, select_one_not,
}
use saas_backend_fastapi.Errors.{ok}
use saas_backend_fastapi.Models.{MemberRole, owner, admin, Membership, Organization, User}
use saas_backend_fastapi.World.{Database, World}
use saas_backend_fastapi.Policy.{rank}
use saas_backend_fastapi.Repositories.Memberships
use saas_backend_fastapi.Org.{update_member_role}
use saas_backend_fastapi.Org.Roles.{IsMember}
use saas_backend_fastapi.Org.Members.{
  with_role, with_saved_role, update_member_role_complete, update_member_role_iff,
}

-- the primary key of `memberships`
abbrev pub IdsAreUnique : Database → Type 0
IdsAreUnique db = (i : String) → length (select (λ (m : Membership). m.id == i) db.memberships) ≤ 1

of_test :
    (u o : String) (m : Membership)
    → Memberships.of_user_in_org u o m ≡ true
    → (m.user_id ≡ u) × (m.organization_id ≡ o)
of_test u o m h = ground (arith, eq_iff m.user_id u, eq_iff m.organization_id o)

module _ (db : Database) (u o : String) (m : Membership) (role : MemberRole)
    (unique : IdsAreUnique db) (here : IsMember u o db m) where
  rows_of_id : select (λ x. x.id == m.id) db.memberships ≡ m ∷ []
  rows_of_id =
      select_unique (Memberships.of_user_in_org u o) (λ x. x.id == m.id) db.memberships
        (unique m.id) here (eq_refl m.id)

  -- The row of the target has the new role.
  saved_self : IsMember u o (with_saved_role m.id role db) (with_role role m)
  unfolding update_where
  saved_self =
      select-update_where (Memberships.of_user_in_org u o) (λ x. x.id == m.id) (with_role role)
        (λ x. refl) db.memberships
      ∙ rw (here, eq_refl) refl

  elsewhere : (u' o' : String) → (u' ≢ u) ⊎ (o' ≢ o) → Memberships.of_user_in_org u' o' m ≡ false
  elsewhere u' o' other = ground (
    arith,
    of_test u o m (select_single (Memberships.of_user_in_org u o) db.memberships here),
    eq_iff m.user_id u',
    eq_iff m.organization_id o',
  )

  -- The rows of any other pair of user and organization are as they were.
  saved_other :
      (u' o' : String)
      → (u' ≢ u) ⊎ (o' ≢ o)
      → select (Memberships.of_user_in_org u' o') (with_saved_role m.id role db).memberships
        ≡ select (Memberships.of_user_in_org u' o') db.memberships
  saved_other u' o' other =
      select-update_where (Memberships.of_user_in_org u' o') (λ x. x.id == m.id) (with_role role)
        (λ x. refl) db.memberships
      ∙ update_where_none (λ x. x.id == m.id) (with_role role)
          (select (Memberships.of_user_in_org u' o') db.memberships)
          (select_comm (λ x. x.id == m.id) (Memberships.of_user_in_org u' o') db.memberships
            ∙ ap (select (Memberships.of_user_in_org u' o')) rows_of_id
            ∙ select_one_not (Memberships.of_user_in_org u' o') m (elsewhere u' o' other))

-- After a change of role that the code accepts, the target holds the new role, and every other
-- membership, of the target elsewhere or of others, is found as before; ids are unique.
pub update_member_role_effect :
    (org : Organization) (target_user_id : String) (new_role : MemberRole) (actor : User)
    (w w' : World) (m' : Membership)
    → IdsAreUnique w.db
    → update_member_role org target_user_id new_role actor w ≡ (ok m', w')
    → IsMember target_user_id org.id w'.db m'
      × (m'.role ≡ new_role)
      × ((u o : String)
          → (u ≢ target_user_id) ⊎ (o ≢ org.id)
          → select (Memberships.of_user_in_org u o) w'.db.memberships
            ≡ select (Memberships.of_user_in_org u o) w.db.memberships)
update_member_role_effect org target role actor w w' m' unique done =
    let (holds, m, here, over, result, after) =
      (update_member_role_iff org target role actor w m' w').0 done in
    (
      rw (result, after) (saved_self w.db target org.id m role unique here),
      ap (λ x. x.role) result,
      λ u o other. rw after (saved_other w.db target org.id m role unique here u o other),
    )

-- A member whose role is ADMIN can give itself the role OWNER: the new role is never compared with
-- the role of the actor.
pub admin_makes_itself_owner :
    (org : Organization) (actor : User) (w : World) (m : Membership)
    → IsMember actor.id org.id w.db m
    → m.role ≡ admin
    → update_member_role org actor.id owner actor w
      ≡ (ok (with_role owner m), record w { db = with_saved_role m.id owner w.db })
admin_makes_itself_owner org actor w m here is_admin =
    update_member_role_complete org actor.id owner actor w m
      (record { membership = m; single = here; ranked = omega (arith, ap rank is_admin) }) here
      (λ e. absurd (cc))
