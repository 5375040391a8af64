-- ===== src/Accounts/Settings.antt =====
-- Invariants of the accounts under the handlers of app/api/v1/endpoints/users.py, admin.py and mfa.py.
use saas_backend_fastapi.Prelude.{
  truthy, Option-cases, or_default, ◌||◌, inl, inr, String, Bool, false, Option, none, some, ◌≡◌,
  refl, not,
}
use saas_backend_fastapi.Errors.{bad_request, unauthorized}
use saas_backend_fastapi.Models.{User}
use saas_backend_fastapi.Platform.{Platform}
use saas_backend_fastapi.World.{Database}
use saas_backend_fastapi.World.Keeps.{
  Keeps, Keeps-throw, Keeps-pure, Keeps-draw, Keeps-get_now, Keeps-bind, Keeps-query,
  Keeps-raise_if, Keeps-or_raise,
}
use saas_backend_fastapi.Repositories.Users
use saas_backend_fastapi.Security.Keeps.{Keeps-hash_password}
use saas_backend_fastapi.Security.{verify_password}
use saas_backend_fastapi.Account
use saas_backend_fastapi.Mfa
use saas_backend_fastapi.Accounts.Keeps.{IsOfUsers, Keeps-issue_tokens}

kept :
    (full_name avatar_url : Option String) (x : User)
    → ((Account.set_avatar avatar_url (Account.set_full_name full_name x)).id ≡ x.id)
      × ((Account.set_avatar avatar_url (Account.set_full_name full_name x)).email ≡ x.email)
kept none none x = (refl, refl)
kept none (some a) x = (refl, refl)
kept (some f) none x = (refl, refl)
kept (some f) (some a) x = (refl, refl)

module _ {P : Database → Type 0} (inv : IsOfUsers P) where
  pub Keeps-update_profile :
      (full_name avatar_url : Option String) (user : User)
      → Keeps P (Account.update_profile full_name avatar_url user)
  unfolding Account.update_profile
  Keeps-update_profile full_name avatar_url user =
      Keeps-bind
        (inv.saved user.id (λ u. Account.set_avatar avatar_url (Account.set_full_name full_name u))
          (λ x. kept full_name avatar_url x))
        λ _. Keeps-pure _

  pub Keeps-delete_account : (user : User) → Keeps P (Account.delete_account user)
  unfolding Account.delete_account
  Keeps-delete_account user = inv.saved user.id (Account.set_active false) (λ x. (refl, refl))

  pub Keeps-switch_user :
      (active : Bool) (user_id : String) → Keeps P (Account.switch_user active user_id)
  unfolding Account.switch_user
  Keeps-switch_user active user_id = Keeps-query (Users.get_by_id user_id) λ found.
      Keeps-bind (Keeps-or_raise _ found) λ user.
        Keeps-bind (inv.saved user.id (Account.set_active active) (λ x. (refl, refl)))
          λ _. Keeps-pure _

module _ {P : Database → Type 0} (inv : IsOfUsers P) (p : Platform) where
  pub Keeps-change_password :
      (current_password new_password : String) (user : User)
      → Keeps P (Account.change_password p current_password new_password user)
  unfolding Account.change_password
  Keeps-change_password current_password new_password user =
      elim (Option-cases user.hashed_password) [
        | inl e ↦ rw (e, Account.change_password) (Keeps-throw _)
        | inr (stored, e) ↦
            rw (e, Account.change_password)
              (Keeps-bind
                (Keeps-raise_if (not (truthy (some stored)))
                  (unauthorized "OAuth accounts cannot change passwords directly."))
                λ _.
                  Keeps-bind
                    (Keeps-raise_if (not (verify_password p current_password stored))
                      (unauthorized "Current password is incorrect."))
                    λ _.
                      Keeps-bind (Keeps-hash_password p new_password) λ hashed.
                        inv.saved user.id (Account.set_password hashed) (λ x. (refl, refl)))
      ]

  pub Keeps-setup_mfa : (user : User) → Keeps P (Mfa.setup_mfa p user)
  unfolding Mfa.setup_mfa
  Keeps-setup_mfa user =
      Keeps-bind
        (Keeps-raise_if user.mfa_enabled (bad_request "MFA is already enabled on your account."))
        λ _. Keeps-bind (Keeps-draw p.random_base32) λ secret.
          Keeps-bind (inv.saved user.id (Mfa.with_secret secret) (λ x. (refl, refl)))
            λ _. Keeps-pure secret

  pub Keeps-verify_mfa : (code : String) (user : User) → Keeps P (Mfa.verify_mfa p code user)
  unfolding Mfa.verify_mfa
  Keeps-verify_mfa code user =
      Keeps-bind
        (Keeps-raise_if (not (truthy user.mfa_secret)) (bad_request "Call /mfa/setup first."))
        λ _.
          Keeps-bind (Keeps-raise_if (user.mfa_enabled) (bad_request "MFA is already enabled."))
            λ _. Keeps-bind Keeps-get_now λ now.
              Keeps-bind
                (Keeps-raise_if (not (p.totp_verify (or_default user.mfa_secret "") code now))
                  (bad_request "Invalid or expired TOTP code."))
                λ _. inv.saved user.id Mfa.with_mfa (λ x. (refl, refl))

  pub Keeps-disable_mfa : (code : String) (user : User) → Keeps P (Mfa.disable_mfa p code user)
  unfolding Mfa.disable_mfa
  Keeps-disable_mfa code user =
      Keeps-bind
        (Keeps-raise_if (not user.mfa_enabled || not (truthy user.mfa_secret))
          (bad_request "MFA is not enabled on your account."))
        λ _. Keeps-bind Keeps-get_now λ now.
          Keeps-bind
            (Keeps-raise_if (not (p.totp_verify (or_default user.mfa_secret "") code now))
              (unauthorized "Invalid TOTP code."))
            λ _. inv.saved user.id Mfa.without_mfa (λ x. (refl, refl))

  pub Keeps-validate_mfa_code :
      (code : String) (user : User) → Keeps P (Mfa.validate_mfa_code p code user)
  unfolding Mfa.validate_mfa_code
  Keeps-validate_mfa_code code user =
      Keeps-bind
        (Keeps-raise_if (not user.mfa_enabled || not (truthy user.mfa_secret))
          (bad_request "MFA is not enabled on your account."))
        λ _. Keeps-bind Keeps-get_now λ now.
          Keeps-bind
            (Keeps-raise_if (not (p.totp_verify (or_default user.mfa_secret "") code now))
              (unauthorized "Invalid or expired TOTP code."))
            λ _. Keeps-issue_tokens inv p user.id
