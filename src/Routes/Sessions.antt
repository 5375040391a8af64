-- ===== src/Routes/Sessions.antt =====
-- app/api/v1/endpoints/auth.py and health.py: the handlers of the routes. The task that `register`
-- leaves in the background runs at its end, and its failure is caught.
use saas_backend_fastapi.Prelude.{String, Option, or_default}
use saas_backend_fastapi.Models.{User}
use saas_backend_fastapi.Schemas.{RegisterRequest, TokenPair, LoginResult}
use saas_backend_fastapi.Platform.{Platform}
use saas_backend_fastapi.World.{Exec, pure, ◌>>=◌, ◌>>◌}
use saas_backend_fastapi.Security.{except}
use saas_backend_fastapi.Mailer
use saas_backend_fastapi.Auth

module _ (p : Platform) where
  -- `_send_verification_email`
  unfoldable pub send_verification_email : String → Option String → String → Exec (Unit {0})
  send_verification_email to full_name token =
      except (Mailer.send_verification_email p to (or_default full_name "") token) (pure tt)

  unfoldable pub register : RegisterRequest → Exec (User × TokenPair)
  unfolding send_verification_email
  register payload = do
    (user, tokens, verification_token) ← Auth.register p payload
    send_verification_email user.email user.full_name verification_token
    pure (user, tokens)

  unfoldable pub login : String → String → Exec LoginResult
  login email password = Auth.login p email password

  unfoldable pub logout : String → Exec String
  logout refresh_token = do Auth.logout p refresh_token; pure "Successfully logged out."

  unfoldable pub refresh : String → Exec TokenPair
  refresh refresh_token = Auth.refresh p refresh_token

  unfoldable pub verify_email : String → Exec User
  verify_email token = Auth.verify_email p token

  unfoldable pub forgot_password : String → Exec String
  forgot_password email = do
    Auth.request_password_reset p email
    pure "If an account with that email exists, a reset link has been sent."

  unfoldable pub reset_password : String → String → Exec User
  reset_password token new_password = Auth.reset_password p token new_password

  unfoldable pub health : Exec (String × String)
  health = pure ("ok", p.settings.app_name)

abbrev pub get_me : User → Exec User
get_me current_user = pure current_user
