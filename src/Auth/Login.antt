-- ===== src/Auth/Login.antt =====
-- `login` of app/services/auth_service.py: who gets in, and with what.
use saas_backend_fastapi.Prelude.{
  suc, String, ◌≡◌, refl, sym, ap, ◌∙◌, true, false, Option, some, [], ◌∷◌, arith, eq_refl,
  Bool-cases, inl, inr,
}
use saas_backend_fastapi.Prelude.Rows.{select, any, select-insert_alone, select_none_of_any}
use saas_backend_fastapi.Errors.{ok}
use saas_backend_fastapi.Models.{User, user_clash}
use saas_backend_fastapi.Config.{pending_expires_in_seconds}
use saas_backend_fastapi.Text.{normalize_email}
use saas_backend_fastapi.Platform.{Platform, ChecksPasswords}
use saas_backend_fastapi.World.{World, scalar_one_or_none}
use saas_backend_fastapi.World.Laws.{scalar-cases, Result-cases}
use saas_backend_fastapi.Security.{prehash, verify_password, create_mfa_pending_token, create_token}
use saas_backend_fastapi.Security.Tokens.{mfa_pending, claims}
use saas_backend_fastapi.Repositories.Users
use saas_backend_fastapi.Auth.{register, login, admit, password_matches}
use saas_backend_fastapi.Schemas.{
  RegisterRequest, LoginResult, login_success, mfa_pending_response, TokenPair,
}
use saas_backend_fastapi.Auth.Registration.{
  new_user, tokens_for, registered, issue_tokens_lem, register_sound, registered_by_email,
}

module _ (p : Platform) where
  -- the account of the address, with its password, and active
  pub record Admits (email password : String) (w : World) (u : User) : Type 0 where
    pub found : select (Users.by_email email) w.db.users ≡ u ∷ []
    pub matches : password_matches p u.hashed_password password ≡ true
    pub active : u.is_active ≡ true

  abbrev pub pending_token : String → World → String
  pending_token user_id w =
      p.jwt_encode (claims p mfa_pending user_id w.now) p.settings.app_secret_key

  pub admit_plain :
      (u : User) (w : World) (o : Option User)
      → u.mfa_enabled ≡ false
      → Users.get_by_id u.id w.db ≡ ok o
      → admit p u w ≡ (ok (login_success (tokens_for p u.id w) o), w)
  unfolding admit
  admit_plain u w o plain found = rw (plain, found, issue_tokens_lem p u.id w) refl

  pub admit_mfa :
      (u : User) (w : World)
      → u.mfa_enabled ≡ true
      → admit p u w
        ≡ (ok (mfa_pending_response (pending_token u.id w) pending_expires_in_seconds), w)
  unfolding admit create_mfa_pending_token create_token
  admit_mfa u w on = rw on refl

  pub login-Admits :
      (email password : String) (w : World) (u : User)
      → Admits email password w u
      → login p email password w ≡ admit p u w
  unfolding login Users.get_by_email scalar_one_or_none
  login-Admits email password w u h = rw (h.found, h.matches, h.active) refl

  login_sound :
      (email password : String) (w : World) (r : LoginResult)
      → (login p email password w).0 ≡ ok r
      → (u : User) × Admits email password w u
  unfolding login Users.get_by_email
  login_sound email password w r h =
      elim (scalar-cases (select (Users.by_email email) w.db.users)) [
        | inl (e, s) ↦ absurd (ground arith)
        | inr (inl (u, e, s)) ↦
            (u, record { found = e; matches = ground arith; active = ground arith })
        | inr (inr s) ↦ absurd (ground arith)
      ]

  admit_outcome :
      (u : User) (w w' : World) (r : LoginResult)
      → admit p u w ≡ (ok r, w')
      → (w' ≡ w)
        × (u.mfa_enabled ≡ true
            → r ≡ mfa_pending_response (pending_token u.id w) pending_expires_in_seconds)
        × (u.mfa_enabled ≡ false → (o : Option User) × (r ≡ login_success (tokens_for p u.id w) o))
  unfolding admit
  admit_outcome u w w' r h = elim (Bool-cases u.mfa_enabled) [
    | inl on ↦
        let done = sym (admit_mfa u w on) ∙ h in
        (sym (ap (λ x. x.1) done), λ on'. ground arith, λ off. absurd (ground arith))
    | inr off ↦ elim (Result-cases (Users.get_by_id u.id w.db)) [
      | inl (o, found) ↦
          let done = sym (admit_plain u w o off found) ∙ h in
          (sym (ap (λ x. x.1) done), λ on. absurd (ground arith), λ off'. (o, ground arith))
      | inr (e, failed) ↦ absurd (ground arith)
    ]
  ]

  -- A login that succeeds was with the one account of the address, its password, and the account
  -- active. With MFA enabled the answer is a pending token alone, valid for 300 seconds; without,
  -- it is a pair of tokens for the account. The world is as before.
  pub login_outcome :
      (email password : String) (w w' : World) (r : LoginResult)
      → login p email password w ≡ (ok r, w')
      → (u : User) × Admits email password w u
        × (w' ≡ w)
        × (u.mfa_enabled ≡ true
            → r ≡ mfa_pending_response (pending_token u.id w) pending_expires_in_seconds)
        × (u.mfa_enabled ≡ false → (o : Option User) × (r ≡ login_success (tokens_for p u.id w) o))
  login_outcome email password w w' r h =
      let (u, admits) = login_sound email password w r (ap (λ x. x.0) h) in
      let (same, on, off) =
        admit_outcome u w w' r (sym (login-Admits email password w u admits) ∙ h) in
      (u, admits, same, on, off)

  pub matches_own_hash :
      ChecksPasswords p
      → (password salt : String)
      → password_matches p (some (p.hashpw (prehash p password) salt)) password ≡ true
  unfolding password_matches verify_password
  matches_own_hash passwords password salt =
      rw (passwords.nonempty (prehash p password) salt) (passwords.checks (prehash p password) salt)

  -- the row of a new account, by its id
  registered_by_id :
      (payload : RegisterRequest) (w : World)
      → any (user_clash (new_user p payload w)) w.db.users ≡ false
      → Users.get_by_id (new_user p payload w).id (registered p payload w).db
        ≡ ok (some (new_user p payload w))
  unfolding Users.get_by_id user_clash scalar_one_or_none
  registered_by_id payload w free =
      rw
        (select-insert_alone (Users.by_id (new_user p payload w).id) (new_user p payload w)
          w.db.users (eq_refl (new_user p payload w).id)
          (select_none_of_any (user_clash (new_user p payload w))
            (Users.by_id (new_user p payload w).id) w.db.users (λ x e. ground arith) free))
        refl

  -- A new account logs in: after a successful registration the same password, with the address in
  -- any spelling that normalises to the same, gives the account and a pair of tokens for it, as long
  -- as the table of users is the same. No identifier needs to be assumed new.
  pub login-register :
      ChecksPasswords p
      → (payload : RegisterRequest) (email : String) (w w' later : World)
      → {result : User × TokenPair × String} → register p payload w ≡ (ok result, w')
      → later.db.users ≡ w'.db.users
      → normalize_email email ≡ normalize_email payload.email
      → login p email payload.password later
        ≡ (ok (login_success (tokens_for p result.0.id later) (some result.0)), later)
  unfolding Users.get_by_id
  login-register passwords payload email w w' later h kept same =
      let (free, none_yet, user, after) = register_sound p payload w w' h in
      let rows = kept ∙ ap (λ x. x.db.users) after in
      rw user (
        login-Admits email payload.password later (new_user p payload w) (record {
          found =
              ap (select (Users.by_email email)) rows
              ∙ registered_by_email p payload email w same none_yet;
          matches = matches_own_hash passwords payload.password (p.gensalt (suc (suc w.drawn)));
          active = refl;
        })
        ∙ admit_plain (new_user p payload w) later (some (new_user p payload w)) refl (
            ap (λ us. scalar_one_or_none (select (Users.by_id (new_user p payload w).id) us)) rows
            ∙ registered_by_id payload w free))
