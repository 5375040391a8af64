-- ===== src/Auth/Registration.antt =====
-- `register` of app/services/auth_service.py, and the tokens that it issues.
use saas_backend_fastapi.Prelude.{
  eq_refl, ◌==◌, suc, String, ◌≡◌, refl, sym, ap, ◌∙◌, false, true, none, some, [], ◌∷◌, arith,
  Bool-cases, inl, inr,
}
use saas_backend_fastapi.Prelude.Rows.{
  select-insert_alone, select, any, insert, any-or, select-eq-nil_iff_any,
}
use saas_backend_fastapi.Errors.{
  Result, ok, err, Exception, app, conflict, integrity_error, multiple_results_found,
}
use saas_backend_fastapi.Models.{User, user_clash, local}
use saas_backend_fastapi.Config.{token_type}
use saas_backend_fastapi.Text.{normalize_email}
use saas_backend_fastapi.Platform.{Platform}
use saas_backend_fastapi.World.{World, scalar_one_or_none, insert_row}
use saas_backend_fastapi.World.Laws.{scalar-cases}
use saas_backend_fastapi.Security.{
  hash_password, prehash, hash_token, generate_secure_token, create_access_token,
  create_refresh_token, create_token,
}
use saas_backend_fastapi.Security.Tokens.{access, refresh, claims}
use saas_backend_fastapi.Repositories.Users
use saas_backend_fastapi.Auth.{register, issue_tokens}
use saas_backend_fastapi.Schemas.{RegisterRequest, TokenPair}

err_is_not_ok :
    {A : Type 0} {m : Result A × World} {x : Exception} {a : A} {w : World}
    → m.0 ≡ err x
    → m ≡ (ok a, w)
    → ⊥
err_is_not_ok failed done = ground arith

module _ (p : Platform) where
  -- the account that `register` makes in a world
  abbrev pub new_user : RegisterRequest → World → User
  new_user payload w = record {
    id = p.ulid (suc w.drawn);
    email = normalize_email payload.email;
    hashed_password = some (p.hashpw (prehash p payload.password) (p.gensalt (suc (suc w.drawn))));
    full_name = payload.full_name;
    avatar_url = none;
    is_active = true;
    is_superuser = false;
    is_verified = false;
    verification_token = some (hash_token p (p.token_urlsafe w.drawn));
    reset_token = none;
    oauth_provider = local;
    oauth_provider_id = none;
    mfa_enabled = false;
    mfa_secret = none;
    created_at = w.now;
  }

  -- the pair of tokens that is issued to a user at a time
  abbrev pub tokens_for : String → World → TokenPair
  tokens_for user_id w = record {
    access_token = p.jwt_encode (claims p access user_id w.now) p.settings.app_secret_key;
    refresh_token = p.jwt_encode (claims p refresh user_id w.now) p.settings.app_secret_key;
    token_type = token_type;
  }

  abbrev pub registered : RegisterRequest → World → World
  registered payload w = record w {
    db = record w.db { users = insert (new_user payload w) w.db.users };
    drawn = suc (suc (suc w.drawn));
  }

  pub issue_tokens_lem :
      (user_id : String) (w : World) → issue_tokens p user_id w ≡ (ok (tokens_for user_id w), w)
  unfolding issue_tokens create_access_token create_refresh_token create_token
  issue_tokens_lem user_id w = refl

  pub registered_if_free :
      (payload : RegisterRequest) (w : World)
      → select (Users.by_email payload.email) w.db.users ≡ []
      → any (Users.by_id (p.ulid (suc w.drawn))) w.db.users ≡ false
      → any (user_clash (new_user payload w)) w.db.users ≡ false
  unfolding user_clash
  registered_if_free payload w no_email no_id =
      any-or (Users.by_id (p.ulid (suc w.drawn))) (Users.by_email payload.email) w.db.users no_id
        ((select-eq-nil_iff_any (Users.by_email payload.email) w.db.users).1 no_email)

  register_free :
      (payload : RegisterRequest) (w : World)
      → select (Users.by_email payload.email) w.db.users ≡ []
      → any (user_clash (new_user payload w)) w.db.users ≡ false
      → register p payload w ≡ (
        ok (new_user payload w, tokens_for (p.ulid (suc w.drawn)) w, p.token_urlsafe w.drawn),
        registered payload w,
      )
  unfolding register Users.get_by_email scalar_one_or_none Users.create insert_row hash_password
      generate_secure_token
  register_free payload w e free = rw (e, free, issue_tokens_lem) refl

  register_clash :
      (payload : RegisterRequest) (w : World)
      → select (Users.by_email payload.email) w.db.users ≡ []
      → any (user_clash (new_user payload w)) w.db.users ≡ true
      → (register p payload w).0 ≡ err integrity_error
  unfolding register Users.get_by_email scalar_one_or_none Users.create insert_row hash_password
      generate_secure_token
  register_clash payload w e clash = rw (e, clash) refl

  register_taken :
      (payload : RegisterRequest) (w : World) (u : User)
      → select (Users.by_email payload.email) w.db.users ≡ u ∷ []
      → register p payload w
        ≡ (err (app (conflict "An account with this email already exists.")), w)
  unfolding register Users.get_by_email scalar_one_or_none
  register_taken payload w u e = rw e refl

  register_many :
      (payload : RegisterRequest) (w : World)
      → Users.get_by_email payload.email w.db ≡ err multiple_results_found
      → (register p payload w).0 ≡ err multiple_results_found
  unfolding register
  register_many payload w e = rw e refl

  -- what a registration that succeeds found and did
  pub register_sound :
      (payload : RegisterRequest) (w w' : World) {result : User × TokenPair × String}
      → register p payload w ≡ (ok result, w')
      → (any (user_clash (new_user payload w)) w.db.users ≡ false)
        × (select (Users.by_email payload.email) w.db.users ≡ [])
        × (result.0 ≡ new_user payload w)
        × (w' ≡ registered payload w)
  unfolding Users.get_by_email
  register_sound payload w w' {result} h =
      elim (scalar-cases (select (Users.by_email payload.email) w.db.users)) [
        | inl (e, s) ↦ elim (Bool-cases (any (user_clash (new_user payload w)) w.db.users)) [
          | inl clash ↦ absurd (err_is_not_ok (register_clash payload w e clash) h)
          | inr free ↦
              let done = sym (register_free payload w e free) ∙ h in
              (free, e, ap user_of (sym done), ap (λ x. x.1) (sym done))
        ]
        | inr (inl (u, e, s)) ↦
            absurd (err_is_not_ok (ap (λ x. x.0) (register_taken payload w u e)) h)
        | inr (inr s) ↦ absurd (err_is_not_ok (register_many payload w s) h)
      ]
    where
      user_of : Result (User × TokenPair × String) × World → User
      user_of (ok r, v) = r.0
      user_of (err x, v) = result.0

  -- Registration with an address that no account has, and a new identifier, hits no UNIQUE
  -- constraint: it adds the account, which is active and not verified, and returns it with its
  -- tokens.
  pub register_new :
      (payload : RegisterRequest) (w : World)
      → select (Users.by_email payload.email) w.db.users ≡ []
      → any (Users.by_id (p.ulid (suc w.drawn))) w.db.users ≡ false
      → register p payload w ≡ (
        ok (new_user payload w, tokens_for (p.ulid (suc w.drawn)) w, p.token_urlsafe w.drawn),
        registered payload w,
      )
  register_new payload w e fresh = register_free payload w e (registered_if_free payload w e fresh)

  -- the row of a new account, by its address
  pub registered_by_email :
      (payload : RegisterRequest) (email : String) (w : World)
      → normalize_email email ≡ normalize_email payload.email
      → select (Users.by_email payload.email) w.db.users ≡ []
      → select (Users.by_email email) (insert (new_user payload w) w.db.users)
        ≡ new_user payload w ∷ []
  registered_by_email payload email w same none_yet =
      select-insert_alone (Users.by_email email) (new_user payload w) w.db.users
        (ap (λ s. normalize_email payload.email == s) same
          ∙ eq_refl (normalize_email payload.email))
        (ap (λ s. select (λ (u : User). u.email == s) w.db.users) same ∙ none_yet)

  -- An address registers once: after a successful registration another one, with the address in any
  -- spelling that normalises to the same, is a conflict and changes nothing, as long as the table of
  -- users is the same.
  pub register_once :
      (payload other : RegisterRequest) (w w' later : World) {result : User × TokenPair × String}
      → register p payload w ≡ (ok result, w')
      → later.db.users ≡ w'.db.users
      → normalize_email other.email ≡ normalize_email payload.email
      → register p other later
        ≡ (err (app (conflict "An account with this email already exists.")), later)
  register_once payload other w w' later h kept same =
      let (free, none_yet, user, after) = register_sound payload w w' h in
      register_taken other later (new_user payload w) (
        ap (select (Users.by_email other.email)) (kept ∙ ap (λ x. x.db.users) after)
        ∙ registered_by_email payload other.email w same none_yet)
