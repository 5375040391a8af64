-- ===== src/Repositories/Organizations.antt =====
-- app/repositories/org_repo.py
use mathlib.Core.List.{◌++◌}
use saas_backend_fastapi.Prelude.{
  String, Bool, true, not, ◌&&◌, Option, none, some, List, [], ◌∷◌, ◌==◌, column_eq, leb,
  if◌then◌else◌,
}
use saas_backend_fastapi.Prelude.Rows.{select, any, update_where, delete_where}
use saas_backend_fastapi.Errors.{Result, integrity_error, data_error}
use saas_backend_fastapi.Text.{size}
use saas_backend_fastapi.Models.{Organization, Membership, organization_clash}
use saas_backend_fastapi.World.{
  Database, Exec, scalar_one_or_none, insert_row, store, modify, throw,
}

abbrev pub by_id : String → Organization → Bool
by_id org_id o = o.id == org_id

abbrev pub by_slug : String → Organization → Bool
by_slug slug o = o.slug == slug

unfoldable pub get_by_id : String → Database → Result (Option Organization)
get_by_id org_id db = scalar_one_or_none (select (by_id org_id) db.organizations)

unfoldable pub get_by_slug : String → Database → Result (Option Organization)
get_by_slug slug db = scalar_one_or_none (select (by_slug slug) db.organizations)

unfoldable pub get_by_paystack_customer_id : String → Database → Result (Option Organization)
get_by_paystack_customer_id customer_code db =
    scalar_one_or_none
      (select (λ o. column_eq o.paystack_customer_id customer_code) db.organizations)

-- SELECT organizations JOIN memberships: one row for each membership of the user
unfoldable pub join_memberships : List Organization → List Membership → List Organization
join_memberships orgs [] = []
join_memberships orgs (m ∷ ms) = select (by_id m.organization_id) orgs ++ join_memberships orgs ms

unfoldable pub list_for_user : String → Database → List Organization
unfolding join_memberships
list_for_user user_id db =
    join_memberships db.organizations (select (λ m. m.user_id == user_id) db.memberships)

abbrev fits_logo : Option String → Bool
fits_logo none = true
fits_logo (some url) = leb (size url) 512

-- the columns `name` and `slug` are `String(255)`, `logo_url` is `String(512)`: the database refuses
-- a longer text
abbrev pub fits : Organization → Bool
fits org = leb (size org.name) 255 && leb (size org.slug) 255 && fits_logo org.logo_url

unfoldable pub create : Organization → Exec (Unit {0})
create org w =
    if fits org
    then store (insert_row organization_clash org w.db.organizations)
        (λ rows db. record db { organizations = rows }) w
    else throw data_error w

-- The assignments to a loaded organization, written by `db.flush()`.
unfoldable pub save : String → (Organization → Organization) → Exec (Unit {0})
save org_id f =
    modify (λ db. record db { organizations = update_where (by_id org_id) f db.organizations })

-- the assignments of an update: the lengths are checked again
unfoldable pub save_checked : Organization → (Organization → Organization) → Exec (Unit {0})
unfolding save
save_checked org f w = if fits (f org) then save org.id f w else throw data_error w

-- the row and what `cascade="all, delete-orphan"` takes along; audit logs lose their reference
unfoldable pub purge : String → Database → Database
purge org_id db = record db {
  organizations = delete_where (by_id org_id) db.organizations;
  memberships = delete_where (λ m. m.organization_id == org_id) db.memberships;
  invitations = delete_where (λ i. i.organization_id == org_id) db.invitations;
  audit_logs =
      update_where (λ l. column_eq l.organization_id org_id)
        (λ l. record l { organization_id = none }) db.audit_logs;
}

-- `subscription` has no delete cascade, so the ORM sets the NOT NULL `organization_id` of the
-- organization's subscription to NULL: the flush fails where there is one.
unfoldable pub delete : String → Exec (Unit {0})
unfolding purge
delete org_id w =
    if any (λ s. s.organization_id == org_id) w.db.subscriptions
    then throw integrity_error w
    else modify (purge org_id) w

-- a foreign key to `organizations`
unfoldable pub exists : String → Database → Bool
exists org_id db = any (by_id org_id) db.organizations

-- a nullable foreign key to `organizations`
unfoldable pub refers : Option String → Database → Bool
unfolding exists
refers none db = true
refers (some org_id) db = exists org_id db

-- The assignments of a payment: `paystack_customer_id` is UNIQUE.
unfoldable pub save_customer : String → String → (Organization → Organization) → Exec (Unit {0})
unfolding save
save_customer org_id code f w =
    if any (λ o. not (by_id org_id o) && column_eq o.paystack_customer_id code) w.db.organizations
    then throw integrity_error w
    else save org_id f w
