-- ===== src/Accounts/Keeps.antt =====
-- Invariants of the accounts under the methods of app/services/auth_service.py.
use saas_backend_fastapi.Prelude.{sym, String, Option, ◌≡◌, refl, not}
use saas_backend_fastapi.Errors.{unauthorized}
use saas_backend_fastapi.Models.{User, OAuthProvider}
use saas_backend_fastapi.Platform.{Platform}
use saas_backend_fastapi.World.{Database}
use saas_backend_fastapi.World.Keeps.{
  Keeps, Keeps-found, Keeps-throw, Keeps-pure, Keeps-if, Keeps-bind, Keeps-query, Keeps-raise_if,
  Keeps-except, Keeps-jwt_errors_as,
}
use saas_backend_fastapi.Repositories.Users
use saas_backend_fastapi.Auth
use saas_backend_fastapi.Auth.Registration.{new_user}
use saas_backend_fastapi.Auth.OAuth.{oauth_user}
use saas_backend_fastapi.Security.Keeps.{
  Keeps-verify_refresh_token, Keeps-revoke_refresh_token, Keeps-hash_password,
  Keeps-generate_secure_token, Keeps-create_mfa_pending_token, Keeps-send_password_reset_email,
  Keeps-send_welcome_email,
}
use saas_backend_fastapi.Schemas.{RegisterRequest}
use saas_backend_fastapi.Security.{
  hash_token, create_access_token, create_refresh_token, create_token, generate_secure_token,
  hash_password,
}
use saas_backend_fastapi.Text.{normalize_email}
use saas_backend_fastapi.Text.Normal.{normalize_email_idem}

-- What an invariant of the accounts has to allow: a new row under an address in its normal form, and
-- an update that leaves ids and addresses alone. It reads no other table.
pub record IsOfUsers (P : Database → Type 0) : Type 0 where
  pub created : (u : User) → u.email ≡ normalize_email u.email → Keeps P (Users.create u)
  pub saved :
      (id : String) (f : User → User)
      → ((x : User) → ((f x).id ≡ x.id) × ((f x).email ≡ x.email))
      → Keeps P (Users.save id f)
  pub others : (db db' : Database) → db'.users ≡ db.users → P db → P db'

module _ {P : Database → Type 0} (inv : IsOfUsers P) (p : Platform) where
  pub Keeps-issue_tokens : (user_id : String) → Keeps P (Auth.issue_tokens p user_id)
  unfolding Auth.issue_tokens create_access_token create_refresh_token create_token
  Keeps-issue_tokens user_id = record { at = λ w h. h }

  pub Keeps-register : (payload : RegisterRequest) → Keeps P (Auth.register p payload)
  unfolding Auth.register generate_secure_token hash_password
  Keeps-register payload = Keeps-query (Users.get_by_email payload.email) (
      Keeps-found _
        (record {
          at = λ w h.
              (Keeps-bind
                  (inv.created (new_user p payload w) (sym (normalize_email_idem payload.email)))
                  λ _. Keeps-bind (Keeps-issue_tokens _) λ t. Keeps-pure _).at
                _ h;
        })
        λ u. Keeps-throw _)

  Keeps-admit : (user : User) → Keeps P (Auth.admit p user)
  unfolding Auth.admit
  Keeps-admit user =
      Keeps-if user.mfa_enabled
        (Keeps-bind (Keeps-create_mfa_pending_token p user.id) λ t. Keeps-pure _)
        (Keeps-query (Users.get_by_id user.id)
          λ u. Keeps-bind (Keeps-issue_tokens user.id) λ tokens. Keeps-pure _)

  pub Keeps-login : (email password : String) → Keeps P (Auth.login p email password)
  unfolding Auth.login
  Keeps-login email password = Keeps-query (Users.get_by_email email) (
      Keeps-found _ (Keeps-throw _) λ user.
        Keeps-bind
          (Keeps-raise_if (not (Auth.password_matches p user.hashed_password password))
            (unauthorized "Invalid email or password."))
          λ _.
            Keeps-bind
              (Keeps-raise_if (not user.is_active)
                (unauthorized "Your account has been deactivated."))
              λ _. Keeps-admit user)

  pub Keeps-refresh : (token : String) → Keeps P (Auth.refresh p token)
  unfolding Auth.refresh
  Keeps-refresh token =
      Keeps-bind (Keeps-jwt_errors_as _ (Keeps-verify_refresh_token p token)) λ user_id.
        Keeps-query (Users.get_by_id user_id) (
          Keeps-found _ (Keeps-throw _) λ user.
            Keeps-bind
              (Keeps-raise_if (not user.is_active) (unauthorized "User not found or inactive."))
              λ _. Keeps-issue_tokens user.id)

  pub Keeps-logout : (token : String) → Keeps P (Auth.logout p token)
  unfolding Auth.logout
  Keeps-logout token =
      Keeps-except
        (Keeps-bind (Keeps-verify_refresh_token p token) λ _. Keeps-revoke_refresh_token p token)
        (Keeps-pure _)

  pub Keeps-verify_email : (token : String) → Keeps P (Auth.verify_email p token)
  unfolding Auth.verify_email
  Keeps-verify_email token = Keeps-query (Users.get_by_verification_token (hash_token p token)) (
      Keeps-found _ (Keeps-throw _) λ user.
        Keeps-bind (inv.saved user.id Auth.with_verified (λ x. (refl, refl)))
          λ _. Keeps-bind (Keeps-send_welcome_email p _ _) λ _. Keeps-pure _)

  pub Keeps-request_password_reset :
      (email : String) → Keeps P (Auth.request_password_reset p email)
  unfolding Auth.request_password_reset
  Keeps-request_password_reset email = Keeps-query (Users.get_by_email email) (
      Keeps-found _ (Keeps-pure tt) λ user. Keeps-bind (Keeps-generate_secure_token p) λ token.
        Keeps-bind
          (inv.saved user.id (Auth.with_reset_token (hash_token p token)) (λ x. (refl, refl)))
          λ _. Keeps-send_password_reset_email p user.email token)

  pub Keeps-reset_password :
      (token new_password : String) → Keeps P (Auth.reset_password p token new_password)
  unfolding Auth.reset_password
  Keeps-reset_password token new_password =
      Keeps-query (Users.get_by_reset_token (hash_token p token)) (
        Keeps-found _ (Keeps-throw _) λ user.
          Keeps-bind (Keeps-hash_password p new_password) λ hashed.
            Keeps-bind (inv.saved user.id (Auth.with_new_password hashed) (λ x. (refl, refl)))
              λ _. Keeps-pure _)

  Keeps-link_or_create :
      (provider : OAuthProvider) (provider_id email : String) (full_name avatar_url : Option String)
      → Keeps P (Auth.link_or_create p provider provider_id email full_name avatar_url)
  unfolding Auth.link_or_create
  Keeps-link_or_create provider provider_id email full_name avatar_url =
      Keeps-query (Users.get_by_email email) (
        Keeps-found _
          (record {
            at = λ w h.
                (Keeps-bind
                    (inv.created (oauth_user p provider provider_id email full_name avatar_url w)
                      (sym (normalize_email_idem email)))
                    λ _. Keeps-pure (p.ulid w.drawn)).at
                  _ h;
          })
          λ user.
            Keeps-bind
              (inv.saved user.id (Auth.with_oauth provider provider_id) (λ x. (refl, refl)))
              λ _. Keeps-pure _)

  pub Keeps-oauth_login_or_register :
      (provider : OAuthProvider) (provider_id email : String) (full_name avatar_url : Option String)
      → Keeps P (Auth.oauth_login_or_register p provider provider_id email full_name avatar_url)
  unfolding Auth.oauth_login_or_register
  Keeps-oauth_login_or_register provider provider_id email full_name avatar_url =
      Keeps-query (Users.get_by_oauth provider provider_id) (
        Keeps-found _
          (Keeps-bind (Keeps-link_or_create provider provider_id email full_name avatar_url)
            λ user_id. Keeps-issue_tokens user_id)
          λ user. Keeps-issue_tokens user.id)
