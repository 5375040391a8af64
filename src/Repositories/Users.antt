-- ===== src/Repositories/Users.antt =====
-- app/repositories/user_repo.py
use saas_backend_fastapi.Prelude.{String, Bool, true, ◌&&◌, Option, none, some, ◌==◌, column_eq}
use saas_backend_fastapi.Prelude.Rows.{select, any, update_where, delete_where}
use saas_backend_fastapi.Errors.{Result}
use saas_backend_fastapi.Models.{User, OAuthProvider, same_provider, user_clash}
use saas_backend_fastapi.Text.{normalize_email}
use saas_backend_fastapi.World.{Database, Exec, scalar_one_or_none, insert_row, store, modify}

abbrev pub by_id : String → User → Bool
by_id user_id u = u.id == user_id

abbrev pub by_email : String → User → Bool
by_email email u = u.email == normalize_email email

-- `get_by_id` and `get_by_id_with_orgs`
unfoldable pub get_by_id : String → Database → Result (Option User)
get_by_id user_id db = scalar_one_or_none (select (by_id user_id) db.users)

unfoldable pub get_by_email : String → Database → Result (Option User)
get_by_email email db = scalar_one_or_none (select (by_email email) db.users)

unfoldable pub get_by_oauth : OAuthProvider → String → Database → Result (Option User)
get_by_oauth provider provider_id db = scalar_one_or_none (
    select
      (λ u. same_provider u.oauth_provider provider && column_eq u.oauth_provider_id provider_id)
      db.users)

unfoldable pub get_by_verification_token : String → Database → Result (Option User)
get_by_verification_token hashed db =
    scalar_one_or_none (select (λ u. column_eq u.verification_token hashed) db.users)

unfoldable pub get_by_reset_token : String → Database → Result (Option User)
get_by_reset_token hashed db =
    scalar_one_or_none (select (λ u. column_eq u.reset_token hashed) db.users)

-- `db.add(user)`, `db.flush()`
unfoldable pub create : User → Exec (Unit {0})
create user w =
    store (insert_row user_clash user w.db.users) (λ rows db. record db { users = rows }) w

-- The assignments to a loaded user, written by `db.flush()`: UPDATE ... WHERE id.
unfoldable pub save : String → (User → User) → Exec (Unit {0})
save user_id f = modify (λ db. record db { users = update_where (by_id user_id) f db.users })

-- a foreign key to `users`
unfoldable pub exists : String → Database → Bool
exists user_id db = any (by_id user_id) db.users

-- a nullable foreign key to `users`
unfoldable pub refers : Option String → Database → Bool
unfolding exists
refers none db = true
refers (some user_id) db = exists user_id db

-- the row and what its relationships and foreign keys take along: memberships and notifications go,
-- invitations and audit logs lose their reference
unfoldable pub purge : String → Database → Database
purge user_id db = record db {
  users = delete_where (by_id user_id) db.users;
  memberships = delete_where (λ m. m.user_id == user_id) db.memberships;
  notifications = delete_where (λ n. n.user_id == user_id) db.notifications;
  invitations =
      update_where (λ i. column_eq i.invited_by_id user_id) (λ i. record i { invited_by_id = none })
        db.invitations;
  audit_logs =
      update_where (λ l. column_eq l.user_id user_id) (λ l. record l { user_id = none })
        db.audit_logs;
}

-- `db.delete(user)`, `db.flush()`
unfoldable pub delete : String → Exec (Unit {0})
unfolding purge
delete user_id = modify (purge user_id)
