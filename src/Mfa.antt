-- ===== src/Mfa.antt =====
-- app/api/v1/endpoints/mfa.py: the second factor. The handlers take the user that the dependency
-- found; `setup_mfa` returns the secret, of which the rest of its answer is made.
mod Examples
pub mod Invariant
use saas_backend_fastapi.Prelude.{
  String, Bool, true, false, not, ◌||◌, Option, none, some, if◌then◌else◌, truthy, or_default,
}
use saas_backend_fastapi.Errors.{bad_request, unauthorized}
use saas_backend_fastapi.Models.{User}
use saas_backend_fastapi.Platform.{Platform}
use saas_backend_fastapi.World.{Exec, pure, raise_if, draw, get_now, ◌>>=◌, ◌>>◌}
use saas_backend_fastapi.Auth.{issue_tokens}
use saas_backend_fastapi.Schemas.{TokenPair}
use saas_backend_fastapi.Repositories.Users

abbrev pub with_secret : String → User → User
with_secret secret u = record u { mfa_secret = some secret }

abbrev pub with_mfa : User → User
with_mfa u = record u { mfa_enabled = true }

abbrev pub without_mfa : User → User
without_mfa u = record u { mfa_enabled = false; mfa_secret = none }

module _ (p : Platform) where
  unfoldable pub setup_mfa : User → Exec String
  setup_mfa current_user = do
    raise_if current_user.mfa_enabled (bad_request "MFA is already enabled on your account.")
    secret ← draw p.random_base32
    Users.save current_user.id (with_secret secret)
    pure secret

  unfoldable pub verify_mfa : String → User → Exec (Unit {0})
  verify_mfa code current_user = do
    raise_if (not (truthy current_user.mfa_secret)) (bad_request "Call /mfa/setup first.")
    raise_if current_user.mfa_enabled (bad_request "MFA is already enabled.")
    now ← get_now
    raise_if (not (p.totp_verify (or_default current_user.mfa_secret "") code now))
        (bad_request "Invalid or expired TOTP code.")
    Users.save current_user.id with_mfa

  unfoldable pub disable_mfa : String → User → Exec (Unit {0})
  disable_mfa code current_user = do
    raise_if (not current_user.mfa_enabled || not (truthy current_user.mfa_secret))
        (bad_request "MFA is not enabled on your account.")
    now ← get_now
    raise_if (not (p.totp_verify (or_default current_user.mfa_secret "") code now))
        (unauthorized "Invalid TOTP code.")
    Users.save current_user.id without_mfa

  unfoldable pub validate_mfa_code : String → User → Exec TokenPair
  validate_mfa_code code user = do
    raise_if (not user.mfa_enabled || not (truthy user.mfa_secret))
        (bad_request "MFA is not enabled on your account.")
    now ← get_now
    raise_if (not (p.totp_verify (or_default user.mfa_secret "") code now))
        (unauthorized "Invalid or expired TOTP code.")
    issue_tokens p user.id
