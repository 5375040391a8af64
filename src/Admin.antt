-- ===== src/Admin.antt =====
-- app/api/v1/endpoints/admin.py: the statistics and the lists of the superuser, after the dependency
-- that lets only superusers in. What changes users is in `Account`.
-- The lists are ordered by the time of creation alone: in which order the database comes to the rows
-- of one second is a parameter.
use saas_backend_fastapi.Prelude.{ℕ, List}
use saas_backend_fastapi.Prelude.Rows.{length, select, order_desc, take, drop}
use saas_backend_fastapi.Errors.{Result, ok, err, data_error}
use saas_backend_fastapi.Models.{User, Organization}
use saas_backend_fastapi.World.{Database}

pub record Stats : Type 0 where
  pub users_total : ℕ
  pub users_verified : ℕ
  pub organizations_total : ℕ

unfoldable pub platform_stats : Database → Stats
platform_stats db = record {
  users_total = length db.users;
  users_verified = length (select (λ u. u.is_verified) db.users);
  organizations_total = length db.organizations;
}

pub data ℤ : Type 0 where
  pos negsuc : ℕ → ℤ  -- n, and - n - 1

abbrev newest {ℓ} : {A : Type ℓ} → (A → ℕ) → ℕ → ℕ → List A → List A
newest created_at limit offset rows = take limit (drop offset (order_desc created_at rows))

-- The database refuses a negative limit or offset.
unfoldable pub list_all_users : (List User → List User) → ℤ → ℤ → Database → Result (List User)  -- scan, limit, offset
list_all_users scan (pos limit) (pos offset) db =
    ok (newest (λ u. u.created_at) limit offset (scan db.users))
list_all_users scan (pos limit) (negsuc n) db = err data_error
list_all_users scan (negsuc n) offset db = err data_error

unfoldable pub list_all_orgs :
    (List Organization → List Organization) → ℤ → ℤ → Database → Result (List Organization)
list_all_orgs scan (pos limit) (pos offset) db =
    ok (newest (λ o. o.created_at) limit offset (scan db.organizations))
list_all_orgs scan (pos limit) (negsuc n) db = err data_error
list_all_orgs scan (negsuc n) offset db = err data_error
