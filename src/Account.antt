-- ===== src/Account.antt =====
-- app/api/v1/endpoints/users.py, and the two handlers of app/api/v1/endpoints/admin.py that change
-- users.
use saas_backend_fastapi.Prelude.{String, Bool, true, false, not, Option, none, some, truthy}
use saas_backend_fastapi.Errors.{unauthorized, not_found}
use saas_backend_fastapi.Models.{User}
use saas_backend_fastapi.Platform.{Platform}
use saas_backend_fastapi.World.{Exec, pure, query, or_raise, raise, raise_if, ◌>>=◌, ◌>>◌}
use saas_backend_fastapi.Security.{hash_password, verify_password}
use saas_backend_fastapi.Repositories.Users

abbrev pub set_full_name : Option String → User → User
set_full_name none u = u
set_full_name (some name) u = record u { full_name = some name }

abbrev pub set_avatar : Option String → User → User
set_avatar none u = u
set_avatar (some url) u = record u { avatar_url = some url }

abbrev pub set_active : Bool → User → User
set_active active u = record u { is_active = active }

abbrev pub set_password : String → User → User
set_password hashed u = record u { hashed_password = some hashed }

unfoldable pub update_profile : Option String → Option String → User → Exec User
update_profile full_name avatar_url current_user = do
  let change : User → User = λ u. set_avatar avatar_url (set_full_name full_name u)
  Users.save current_user.id change
  pure (change current_user)

unfoldable pub change_password : Platform → String → String → User → Exec (Unit {0})
change_password p current_password new_password current_user = elim current_user.hashed_password [
  | none ↦ raise (unauthorized "OAuth accounts cannot change passwords directly.")
  | some stored ↦ do
    raise_if (not (truthy (some stored)))
        (unauthorized "OAuth accounts cannot change passwords directly.")
    raise_if (not (verify_password p current_password stored))
        (unauthorized "Current password is incorrect.")
    hashed ← hash_password p new_password
    Users.save current_user.id (set_password hashed)
]

-- a soft delete
unfoldable pub delete_account : User → Exec (Unit {0})
delete_account current_user = Users.save current_user.id (set_active false)

-- `deactivate_user` and `activate_user`
unfoldable pub switch_user : Bool → String → Exec User
switch_user active user_id = do
  found ← query (Users.get_by_id user_id)
  user ← or_raise (not_found "User") found
  Users.save user.id (set_active active)
  pure (set_active active user)

unfoldable pub deactivate_user : String → Exec User
deactivate_user = switch_user false

unfoldable pub activate_user : String → Exec User
activate_user = switch_user true
