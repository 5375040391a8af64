-- ===== src/Repositories/Memberships.antt =====
-- The queries on `memberships` that app/services/org_service.py and app/api/deps.py write out.
use saas_backend_fastapi.Prelude.{String, Bool, ◌&&◌, Option, ◌==◌, if◌then◌else◌}
use saas_backend_fastapi.Prelude.Rows.{select, update_where, delete_where}
use saas_backend_fastapi.Errors.{Result, integrity_error}
use saas_backend_fastapi.Models.{Membership, MemberRole, membership_clash}
use saas_backend_fastapi.World.{
  Database, Exec, scalar_one_or_none, insert_row, store, modify, throw,
}
use saas_backend_fastapi.Repositories.Users
use saas_backend_fastapi.Repositories.Organizations

abbrev pub of_user_in_org : String → String → Membership → Bool
of_user_in_org user_id org_id m = m.user_id == user_id && m.organization_id == org_id

unfoldable pub get_by_user_and_org : String → String → Database → Result (Option Membership)
get_by_user_and_org user_id org_id db =
    scalar_one_or_none (select (of_user_in_org user_id org_id) db.memberships)

-- `db.add(membership)`, `db.flush()`: the two foreign keys, then the UNIQUE constraints
unfoldable pub create : Membership → Exec (Unit {0})
create m w =
    if Users.exists m.user_id w.db && Organizations.exists m.organization_id w.db
    then store (insert_row membership_clash m w.db.memberships)
        (λ rows db. record db { memberships = rows }) w
    else throw integrity_error w

-- `membership.role = new_role`, `db.flush()`
unfoldable pub save_role : String → MemberRole → Exec (Unit {0})
save_role membership_id role = modify (λ db. record db {
  memberships =
      update_where (λ m. m.id == membership_id) (λ m. record m { role = role }) db.memberships;
})

-- `delete(Membership).where(...)`
unfoldable pub delete : String → String → Exec (Unit {0})
delete user_id org_id =
    modify (λ db. record db {
      memberships = delete_where (of_user_in_org user_id org_id) db.memberships;
    })
