-- ===== src/Accounts.antt =====
-- The requests on accounts, each in its session: app/services/auth_service.py, the handlers of
-- app/api/v1/endpoints/users.py, admin.py and mfa.py, and the seed of scripts/seed.py.
pub mod Keeps
pub mod Settings
pub mod Requests
pub mod Unique
pub mod Addresses
mod Examples
use saas_backend_fastapi.Prelude.{String, Bool, Option, List, [], ◌∷◌}
use saas_backend_fastapi.Models.{User, OAuthProvider}
use saas_backend_fastapi.Platform.{Platform}
use saas_backend_fastapi.Schemas.{RegisterRequest}
use saas_backend_fastapi.World.{World, Exec, pure, get_db, ◌>>=◌, ◌>>◌}
use saas_backend_fastapi.Auth
use saas_backend_fastapi.Account
use saas_backend_fastapi.Mfa
use saas_backend_fastapi.Seed

pub data Request : Type 0 where
  register : RegisterRequest → Request
  login : String → String → Request  -- email, password
  refresh logout verify_email request_password_reset : String → Request
  reset_password : String → String → Request  -- token, new password
  oauth : OAuthProvider → String → String → Option String → Option String → Request
  update_profile : Option String → Option String → User → Request
  change_password : String → String → User → Request
  delete_account : User → Request
  switch_user : Bool → String → Request
  setup_mfa : User → Request
  verify_mfa disable_mfa validate_mfa : String → User → Request
  seed : Request

module _ (p : Platform) where
  unfoldable pub handle : Request → Exec (Unit {0})
  handle (register payload) = do Auth.register p payload; pure tt
  handle (login email password) = do Auth.login p email password; pure tt
  handle (refresh token) = do Auth.refresh p token; pure tt
  handle (logout token) = do Auth.logout p token; pure tt
  handle (verify_email token) = do Auth.verify_email p token; pure tt
  handle (request_password_reset email) = do Auth.request_password_reset p email; pure tt
  handle (reset_password token new_password) = do Auth.reset_password p token new_password; pure tt
  handle (oauth provider provider_id email full_name avatar_url) = do
    Auth.oauth_login_or_register p provider provider_id email full_name avatar_url
    pure tt
  handle (update_profile full_name avatar_url user) = do
    Account.update_profile full_name avatar_url user
    pure tt
  handle (change_password current_password new_password user) = do
    Account.change_password p current_password new_password user
    pure tt
  handle (delete_account user) = do Account.delete_account user; pure tt
  handle (switch_user active user_id) = do Account.switch_user active user_id; pure tt
  handle (setup_mfa user) = do Mfa.setup_mfa p user; pure tt
  handle (verify_mfa code user) = do Mfa.verify_mfa p code user; pure tt
  handle (disable_mfa code user) = do Mfa.disable_mfa p code user; pure tt
  handle (validate_mfa code user) = do Mfa.validate_mfa_code p code user; pure tt
  handle seed = do Seed.seed p; pure tt

  unfoldable pub handle_all : List Request → World → World
  unfolding get_db handle
  handle_all [] w = w
  handle_all (r ∷ rs) w = handle_all rs (get_db (handle r) w).1
