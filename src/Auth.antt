-- ===== src/Auth.antt =====
-- app/services/auth_service.py: registration, login, refresh, logout, verification of the address,
-- password reset and OAuth. Each method of `AuthService` is an action; the proofs are below.
mod Examples
pub mod Registration
pub mod Login
pub mod Reset
pub mod OAuth
pub mod Mailing
use saas_backend_fastapi.Prelude.{
  ℕ, String, Bool, true, false, not, Option, none, some, if◌then◌else◌, or_default, truthy,
}
use saas_backend_fastapi.Errors.{
  Exception, AppError, app, jwt_error, Result, ok, err, conflict, unauthorized, bad_request,
}
use saas_backend_fastapi.Models.{User, OAuthProvider, local}
use saas_backend_fastapi.Config.{pending_expires_in_seconds, token_type}
use saas_backend_fastapi.Text.{normalize_email}
use saas_backend_fastapi.Platform.{Platform}
use saas_backend_fastapi.World.{
  World, Exec, pure, raise, query, raise_if, draw, get_now, ◌>>=◌, ◌>>◌,
}
use saas_backend_fastapi.Security.{
  except, jwt_errors_as, hash_password, verify_password, create_access_token, create_refresh_token,
  create_mfa_pending_token, verify_refresh_token, revoke_refresh_token, generate_secure_token,
  hash_token,
}
use saas_backend_fastapi.Schemas.{
  RegisterRequest, TokenPair, LoginResult, login_success, mfa_pending_response,
}
use saas_backend_fastapi.Mailer.{send_welcome_email, send_password_reset_email}
use saas_backend_fastapi.Repositories.Users

-- the assignments of the methods below to a loaded user
abbrev pub with_verified : User → User
with_verified u = record u { is_verified = true; verification_token = none }

abbrev pub with_reset_token : String → User → User
with_reset_token hashed u = record u { reset_token = some hashed }

abbrev pub with_new_password : String → User → User
with_new_password hashed u = record u { hashed_password = some hashed; reset_token = none }

abbrev pub with_oauth : OAuthProvider → String → User → User
with_oauth provider provider_id u = record u {
  oauth_provider = provider;
  oauth_provider_id = some provider_id;
  is_verified = true;
}

module _ (p : Platform) where
  -- `_issue_tokens`
  unfoldable pub issue_tokens : String → Exec TokenPair
  issue_tokens user_id = do
    access ← create_access_token p user_id
    refresh ← create_refresh_token p user_id
    pure (record { access_token = access; refresh_token = refresh; token_type = token_type })

  unfoldable pub register : RegisterRequest → Exec (User × TokenPair × String)
  register payload = do
    existing ← query (Users.get_by_email payload.email)
    elim existing [
      | some u ↦ raise (conflict "An account with this email already exists.")
      | none ↦ do
        verification_token ← generate_secure_token p
        id ← draw p.ulid
        hashed ← hash_password p payload.password
        now ← get_now
        let user : User = record {
          id = id;
          email = normalize_email payload.email;
          hashed_password = some hashed;
          full_name = payload.full_name;
          avatar_url = none;
          is_active = true;
          is_superuser = false;
          is_verified = false;
          verification_token = some (hash_token p verification_token);
          reset_token = none;
          oauth_provider = local;
          oauth_provider_id = none;
          mfa_enabled = false;
          mfa_secret = none;
          created_at = now;
        }
        Users.create user
        tokens ← issue_tokens user.id
        pure (user, tokens, verification_token)
    ]

  -- `if not user.hashed_password: raise`, then the check of the password
  unfoldable pub password_matches : Option String → String → Bool
  password_matches none password = false
  password_matches (some hashed) password =
      if truthy (some hashed) then verify_password p password hashed else false

  unfoldable pub admit : User → Exec LoginResult
  admit user =
      if user.mfa_enabled
      then (do
        pending ← create_mfa_pending_token p user.id
        pure (mfa_pending_response pending pending_expires_in_seconds))
      else (do
        user_with_orgs ← query (Users.get_by_id user.id)
        tokens ← issue_tokens user.id
        pure (login_success tokens user_with_orgs))

  unfoldable pub login : String → String → Exec LoginResult
  unfolding password_matches
  login email password = do
    found ← query (Users.get_by_email email)
    elim found [
      | none ↦ raise (unauthorized "Invalid email or password.")
      | some user ↦ do
        raise_if (not (password_matches user.hashed_password password))
            (unauthorized "Invalid email or password.")
        raise_if (not user.is_active) (unauthorized "Your account has been deactivated.")
        admit user
    ]

  unfoldable pub refresh : String → Exec TokenPair
  refresh refresh_token = do
    user_id ←
        jwt_errors_as (unauthorized "Invalid or expired refresh token.")
          (verify_refresh_token p refresh_token)
    found ← query (Users.get_by_id user_id)
    elim found [
      | none ↦ raise (unauthorized "User not found or inactive.")
      | some user ↦ do
        raise_if (not user.is_active) (unauthorized "User not found or inactive.")
        issue_tokens user.id
    ]

  -- every exception is caught
  unfoldable pub logout : String → Exec (Unit {0})
  logout refresh_token =
      except (do verify_refresh_token p refresh_token; revoke_refresh_token p refresh_token)
        (pure tt)

  unfoldable pub verify_email : String → Exec User
  verify_email token = do
    found ← query (Users.get_by_verification_token (hash_token p token))
    elim found [
      | none ↦ raise (bad_request "Invalid or expired verification token.")
      | some user ↦ do
        Users.save user.id with_verified
        send_welcome_email p user.email (or_default user.full_name "")
        pure (with_verified user)
    ]

  unfoldable pub request_password_reset : String → Exec (Unit {0})
  request_password_reset email = do
    found ← query (Users.get_by_email email)
    elim found [
      | none ↦ pure tt
      | some user ↦ do
        reset_token ← generate_secure_token p
        Users.save user.id (with_reset_token (hash_token p reset_token))
        send_password_reset_email p user.email reset_token
    ]

  unfoldable pub reset_password : String → String → Exec User
  reset_password token new_password = do
    found ← query (Users.get_by_reset_token (hash_token p token))
    elim found [
      | none ↦ raise (bad_request "Invalid or expired reset token.")
      | some user ↦ do
        hashed ← hash_password p new_password
        Users.save user.id (with_new_password hashed)
        pure (with_new_password hashed user)
    ]

  -- the account of the address is linked to the provider, or a new one is created
  unfoldable pub link_or_create :
      OAuthProvider → String → String → Option String → Option String → Exec String
  link_or_create provider provider_id email full_name avatar_url = do
    found ← query (Users.get_by_email email)
    elim found [
      | some user ↦ do Users.save user.id (with_oauth provider provider_id); pure user.id
      | none ↦ do
        id ← draw p.ulid
        now ← get_now
        let user : User = record {
          id = id;
          email = normalize_email email;
          hashed_password = none;
          full_name = full_name;
          avatar_url = avatar_url;
          is_active = true;
          is_superuser = false;
          is_verified = true;
          verification_token = none;
          reset_token = none;
          oauth_provider = provider;
          oauth_provider_id = some provider_id;
          mfa_enabled = false;
          mfa_secret = none;
          created_at = now;
        }
        Users.create user
        pure user.id
    ]

  unfoldable pub oauth_login_or_register :
      OAuthProvider → String → String → Option String → Option String → Exec TokenPair
  oauth_login_or_register provider provider_id email full_name avatar_url = do
    found ← query (Users.get_by_oauth provider provider_id)
    elim found [
      | some user ↦ issue_tokens user.id
      | none ↦ do
        user_id ← link_or_create provider provider_id email full_name avatar_url
        issue_tokens user_id
    ]
