-- ===== src/Deps/Sessions.antt =====
-- What a session rests on: the tokens that a login gives, at the gates of app/api/deps.py, and the
-- refresh token after `logout` of app/services/auth_service.py.
use saas_backend_fastapi.Prelude.{
  ℕ, suc, ◌+◌, ◌*◌, ◌≤◌, ◌<◌, String, ◌≡◌, ◌≢◌, refl, ap, ◌∙◌, true, Option, some, arith, [], ◌∷◌,
  Bool-cases, inl, inr,
}
use saas_backend_fastapi.Prelude.Rows.{select}
use saas_backend_fastapi.Errors.{AppError, ok, err, app, jwt_error, unauthorized}
use saas_backend_fastapi.Models.{User}
use saas_backend_fastapi.Config.{pending_expires_in_seconds}
use saas_backend_fastapi.Platform.{Platform, Claims, DecodesJwt}
use saas_backend_fastapi.World.{World, Exec, pure, ◌>>◌, scalar_one_or_none}
use saas_backend_fastapi.Security.{
  jwt_errors_as, verify_access_token, verify_mfa_pending_token, verify_refresh_token,
  revoke_refresh_token, blacklist_key, except,
}
use saas_backend_fastapi.Security.Tokens.{access, mfa_pending, claims}
use saas_backend_fastapi.Security.Blacklist.{entries_of, revoked_refused}
use saas_backend_fastapi.World.Laws.{Result-cases, bind_step, bind_err}
use saas_backend_fastapi.Repositories.Users
use saas_backend_fastapi.Auth.{login, refresh, logout}
use saas_backend_fastapi.Schemas.{TokenPair, login_success, mfa_pending_response}
use saas_backend_fastapi.Auth.Registration.{tokens_for}
use saas_backend_fastapi.Auth.Login.{Admits, login_outcome}
use saas_backend_fastapi.Deps.{get_current_user, get_mfa_pending_user, active_user}

abbrev refused : AppError
refused = unauthorized "Invalid or expired token."

abbrev refused_mfa : AppError
refused_mfa = unauthorized "Invalid or expired MFA pending token."

module _ {A : Type 0} where
  jwt_errors_as_ok :
      (e : AppError) (m : Exec A) (w : World) {a : A} {w' : World}
      → m w ≡ (ok a, w')
      → jwt_errors_as e m w ≡ (ok a, w')
  jwt_errors_as_ok e m w {a} h = rw (h, jwt_errors_as) (ap (λ x. (ok a, x.1)) h)

  jwt_errors_as_err :
      (e : AppError) (m : Exec A) (w : World) {s : String} {w' : World}
      → m w ≡ (err (jwt_error s), w')
      → jwt_errors_as e m w ≡ (err (app e), w')
  jwt_errors_as_err e m w h = rw (h, jwt_errors_as) (ap (λ x. (err (app e), x.1)) h)

-- What an action did stays where its exceptions are dropped.
except_keeps : (m : Exec (Unit {0})) (w : World) → (except m (pure tt) w).1 ≡ (m w).1
except_keeps m w = elim (Result-cases (m w).0) [
  | inl (a, e) ↦ rw (e, except) refl
  | inr (x, e) ↦ rw (e, except) refl
]

active_user_lem :
    (id : String) (w : World) (u : User)
    → select (Users.by_id id) w.db.users ≡ u ∷ []
    → u.is_active ≡ true
    → active_user id w ≡ (ok u, w)
unfolding active_user Users.get_by_id scalar_one_or_none
active_user_lem id w u e active = rw (e, active) refl

module _ (p : Platform) where
  -- a token of the key, at a gate
  module _ (t : String) (w : World) (s : String) (issued : ℕ) where
    access_verifies :
        p.jwt_decode w.now t p.settings.app_secret_key ≡ some (claims p access s issued)
        → verify_access_token p t w ≡ (ok s, w)
    unfolding verify_access_token
    access_verifies d = ground arith

    pending_is_no_access :
        p.jwt_decode w.now t p.settings.app_secret_key ≡ some (claims p mfa_pending s issued)
        → verify_access_token p t w ≡ (err (jwt_error "Not an access token"), w)
    unfolding verify_access_token
    pending_is_no_access d = ground arith

    pending_verifies :
        p.jwt_decode w.now t p.settings.app_secret_key ≡ some (claims p mfa_pending s issued)
        → verify_mfa_pending_token p t w ≡ (ok s, w)
    unfolding verify_mfa_pending_token
    pending_verifies d = ground arith

    access_passes :
        p.jwt_decode w.now t p.settings.app_secret_key ≡ some (claims p access s issued)
        → get_current_user p (some t) w ≡ active_user s w
    unfolding get_current_user
    access_passes d =
        bind_step (jwt_errors_as refused (verify_access_token p t)) active_user w w
          (jwt_errors_as_ok refused (verify_access_token p t) w (access_verifies d))

    pending_refused :
        p.jwt_decode w.now t p.settings.app_secret_key ≡ some (claims p mfa_pending s issued)
        → get_current_user p (some t) w ≡ (err (app (unauthorized "Invalid or expired token.")), w)
    unfolding get_current_user
    pending_refused d =
        bind_err (jwt_errors_as refused (verify_access_token p t)) active_user w w
          (jwt_errors_as_err refused (verify_access_token p t) w (pending_is_no_access d))

    pending_passes :
        p.jwt_decode w.now t p.settings.app_secret_key ≡ some (claims p mfa_pending s issued)
        → get_mfa_pending_user p (some t) w ≡ active_user s w
    unfolding get_mfa_pending_user
    pending_passes d =
        bind_step (jwt_errors_as refused_mfa (verify_mfa_pending_token p t)) active_user w w
          (jwt_errors_as_ok refused_mfa (verify_mfa_pending_token p t) w (pending_verifies d))

  -- The access token of a pair that is issued to a user identifies the user for as long as it lives:
  -- the user whose row has the id, and who is active.
  pub tokens_identify :
      DecodesJwt p
      → (w later : World) (u : User)
      → later.now ≤ w.now + p.settings.access_token_expire_minutes * 60
      → select (Users.by_id u.id) later.db.users ≡ u ∷ []
      → u.is_active ≡ true
      → get_current_user p (some (tokens_for p u.id w).access_token) later ≡ (ok u, later)
  tokens_identify jwt w later u alive row active =
      access_passes (tokens_for p u.id w).access_token later u.id w.now (
        jwt.valid later.now (w.now + p.settings.access_token_expire_minutes * 60)
          (claims p access u.id w.now) p.settings.app_secret_key refl alive)
      ∙ active_user_lem u.id later u row active

  -- A login that ends in a pending token is only half a login: for the 300 seconds that the token
  -- lives it is refused as an access token, and the gate of the second factor accepts it for the
  -- account of the login, as long as that is the one row with its id.
  pub mfa_gate :
      DecodesJwt p
      → (email password : String) (w w' later : World) (t : String) (expires_in : ℕ)
      → login p email password w ≡ (ok (mfa_pending_response t expires_in), w')
      → later.now ≤ w.now + pending_expires_in_seconds
      → (get_current_user p (some t) later
          ≡ (err (app (unauthorized "Invalid or expired token.")), later))
        × (u : User) × Admits p email password w u
        × (select (Users.by_id u.id) later.db.users ≡ u ∷ []
            → get_mfa_pending_user p (some t) later ≡ (ok u, later))
  mfa_gate jwt email password w w' later t expires_in h alive =
      let (u, admits, same, on, off) = login_outcome p email password w w' _ h in
      elim (Bool-cases u.mfa_enabled) [
        | inl enabled ↦
            let decodes =
              ap (λ s. p.jwt_decode later.now s p.settings.app_secret_key) (pending_is (on enabled))
              ∙ jwt.valid later.now (w.now + pending_expires_in_seconds)
                  (claims p mfa_pending u.id w.now) p.settings.app_secret_key refl alive in
            (
              pending_refused t later u.id w.now decodes,
              u,
              admits,
              λ row.
                  pending_passes t later u.id w.now decodes
                  ∙ active_user_lem u.id later u row admits.active,
            )
        | inr disabled ↦ absurd (is_no_success (off disabled).1)
      ]
    where
      pending_is :
          {t t' : String} {n n' : ℕ}
          → mfa_pending_response t n ≡ mfa_pending_response t' n'
          → t ≡ t'
      pending_is e = ground arith

      is_no_success :
          {t : String} {n : ℕ} {tokens : TokenPair} {o : Option User}
          → mfa_pending_response t n ≡ login_success tokens o
          → ⊥
      is_no_success e = ground arith

  module _ (t : String) where
    verify_refresh_token_pure : (w : World) → (verify_refresh_token p t w).1 ≡ w
    unfolding verify_refresh_token
    verify_refresh_token_pure w = ground arith

    refresh_verifies :
        (w : World) (pair : TokenPair)
        → (refresh p t w).0 ≡ ok pair
        → (u : String) × ((verify_refresh_token p t w).0 ≡ ok u)
    unfolding refresh
    refresh_verifies w pair h = elim (Result-cases (verify_refresh_token p t w).0) [
      | inl (u, e) ↦ (u, e)
      | inr (x, e) ↦ absurd (ground arith)
    ]

    logged_out :
        (w : World) (u : String)
        → verify_refresh_token p t w ≡ (ok u, w)
        → (logout p t w).1 ≡ (revoke_refresh_token p t w).1
    unfolding logout
    logged_out w u h =
        except_keeps (do verify_refresh_token p t; revoke_refresh_token p t) w
        ∙ ap (λ x. x.1) (bind_step (verify_refresh_token p t) (λ _. revoke_refresh_token p t) w w h)

    -- A session ends with its logout: a refresh token that is valid when `logout` is called, before
    -- the second of its `exp` and with Redis up then and later, gives no tokens afterwards at any
    -- other time than that very second, as long as Redis keeps its entry.
    pub logout_ends_session :
        DecodesJwt p
        → (w w' : World) (c : Claims) (n : ℕ) (user_id : String) (pair : TokenPair)
        → verify_refresh_token p t w ≡ (ok user_id, w)
        → w.redis.up ≡ true
        → p.jwt_decode w.now t p.settings.app_secret_key ≡ some c
        → c.exp ≡ some (suc n)
        → w.now < suc n
        → w'.redis.up ≡ true
        → entries_of (blacklist_key p t) w' ≡ entries_of (blacklist_key p t) (logout p t w).1
        → w'.now ≢ suc n
        → (refresh p t w').0 ≢ ok pair
    logout_ends_session jwt w w' c n user_id pair valid up d e early up' kept other done =
        let (u, passed) = refresh_verifies w' pair done in
        revoked_refused p t jwt w w' c n up d e early up'
          (kept ∙ ap (entries_of (blacklist_key p t)) (logged_out w user_id valid)) u other passed
