-- ===== src/Accounts/Requests.antt =====
-- Invariants of the accounts under every request on accounts, its session around it.
use saas_backend_fastapi.Prelude.{suc, String, Bool, true, false, List, [], ◌∷◌, ◌≡◌, refl, arith}
use saas_backend_fastapi.Models.{MemberRole, owner, member}
use saas_backend_fastapi.Platform.{Platform}
use saas_backend_fastapi.World.{Database, World, insert_row}
use saas_backend_fastapi.World.Keeps.{Keeps, Keeps-pure, Keeps-bind, Keeps-get_db}
use saas_backend_fastapi.Repositories.Organizations
use saas_backend_fastapi.Repositories.Memberships
use saas_backend_fastapi.Security.{hash_password, prehash}
use saas_backend_fastapi.Seed
use saas_backend_fastapi.Accounts.Keeps.{
  IsOfUsers, Keeps-register, Keeps-login, Keeps-refresh, Keeps-logout, Keeps-verify_email,
  Keeps-request_password_reset, Keeps-reset_password, Keeps-oauth_login_or_register,
}
use saas_backend_fastapi.Accounts.{
  Request, register, login, refresh, logout, verify_email, request_password_reset, reset_password,
  oauth, update_profile, change_password, delete_account, switch_user, setup_mfa, verify_mfa,
  disable_mfa, validate_mfa, seed, handle, handle_all,
}
use saas_backend_fastapi.Text.{normalize_email}
use saas_backend_fastapi.Accounts.Settings.{
  Keeps-update_profile, Keeps-delete_account, Keeps-switch_user, Keeps-change_password,
  Keeps-setup_mfa, Keeps-verify_mfa, Keeps-disable_mfa, Keeps-validate_mfa_code,
}

module _ {P : Database → Type 0} (inv : IsOfUsers P) (p : Platform) where
  Keeps-add_user :
      (email password full_name : String) (is_superuser : Bool)
      → email ≡ normalize_email email
      → Keeps P (Seed.add_user p email password full_name is_superuser)
  unfolding Seed.add_user hash_password
  Keeps-add_user email password full_name is_superuser normal = record {
    at = λ w h.
        (Keeps-bind
            (inv.created
              (Seed.seeded_user (p.ulid w.drawn) email
                (p.hashpw (prehash p password) (p.gensalt (suc w.drawn))) full_name is_superuser
                w.now)
              normal)
            λ _. Keeps-pure _).at
          _ h;
  }

  Keeps-add_organization : (name slug : String) → Keeps P (Seed.add_organization p name slug)
  Keeps-add_organization name slug = record {
    at = λ w h.
        inv.others w.db (Seed.add_organization p name slug w).1.db
          (unfold Seed.add_organization Organizations.create insert_row in ground arith) h;
  }

  Keeps-add_membership :
      (user_id organization_id : String) (role : MemberRole)
      → Keeps P (Seed.add_membership p user_id organization_id role)
  Keeps-add_membership user_id organization_id role = record {
    at = λ w h.
        inv.others w.db (Seed.add_membership p user_id organization_id role w).1.db
          (unfold Seed.add_membership Memberships.create insert_row in ground arith) h;
  }

  Keeps-seed : Keeps P (Seed.seed p)
  unfolding Seed.seed
  Keeps-seed =
      Keeps-bind
        (Keeps-add_user "admin@example.com" "Admin1234!" "Admin User" true
          (unfold normalize_email in refl))
        λ administrator.
          Keeps-bind
            (Keeps-add_user "member@example.com" "Member1234!" "Regular Member" false
              (unfold normalize_email in refl))
            λ regular. Keeps-bind (Keeps-add_organization "Acme Corp" "acme-corp") λ org.
              Keeps-bind (Keeps-add_membership administrator.id org.id owner)
                λ _. Keeps-add_membership regular.id org.id member

  Keeps-handle : (r : Request) → Keeps P (handle p r)
  unfolding handle
  Keeps-handle (register payload) = Keeps-bind (Keeps-register inv p payload) λ _. Keeps-pure tt
  Keeps-handle (login email password) =
      Keeps-bind (Keeps-login inv p email password) λ _. Keeps-pure tt
  Keeps-handle (refresh token) = Keeps-bind (Keeps-refresh inv p token) λ _. Keeps-pure tt
  Keeps-handle (logout token) = Keeps-bind (Keeps-logout inv p token) λ _. Keeps-pure tt
  Keeps-handle (verify_email token) = Keeps-bind (Keeps-verify_email inv p token) λ _. Keeps-pure tt
  Keeps-handle (request_password_reset email) =
      Keeps-bind (Keeps-request_password_reset inv p email) λ _. Keeps-pure tt
  Keeps-handle (reset_password token new_password) =
      Keeps-bind (Keeps-reset_password inv p token new_password) λ _. Keeps-pure tt
  Keeps-handle (oauth provider provider_id email full_name avatar_url) =
      Keeps-bind
        (Keeps-oauth_login_or_register inv p provider provider_id email full_name avatar_url)
        λ _. Keeps-pure tt
  Keeps-handle (update_profile full_name avatar_url user) =
      Keeps-bind (Keeps-update_profile inv full_name avatar_url user) λ _. Keeps-pure tt
  Keeps-handle (change_password current_password new_password user) =
      Keeps-bind (Keeps-change_password inv p current_password new_password user) λ _. Keeps-pure tt
  Keeps-handle (delete_account user) = Keeps-bind (Keeps-delete_account inv user) λ _. Keeps-pure tt
  Keeps-handle (switch_user active user_id) =
      Keeps-bind (Keeps-switch_user inv active user_id) λ _. Keeps-pure tt
  Keeps-handle (setup_mfa user) = Keeps-bind (Keeps-setup_mfa inv p user) λ _. Keeps-pure tt
  Keeps-handle (verify_mfa code user) =
      Keeps-bind (Keeps-verify_mfa inv p code user) λ _. Keeps-pure tt
  Keeps-handle (disable_mfa code user) =
      Keeps-bind (Keeps-disable_mfa inv p code user) λ _. Keeps-pure tt
  Keeps-handle (validate_mfa code user) =
      Keeps-bind (Keeps-validate_mfa_code inv p code user) λ _. Keeps-pure tt
  Keeps-handle seed = Keeps-bind Keeps-seed λ _. Keeps-pure tt

  pub handle_all_keeps :
      (requests : List Request) (w : World) → P w.db → P (handle_all p requests w).db
  unfolding handle_all
  handle_all_keeps [] w h = h
  handle_all_keeps (r ∷ rs) w h = handle_all_keeps rs _ ((Keeps-get_db (Keeps-handle r)).at w h)
