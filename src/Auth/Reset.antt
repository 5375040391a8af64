-- ===== src/Auth/Reset.antt =====
-- `reset_password` of app/services/auth_service.py: the token, and the password after it.
use saas_backend_fastapi.Prelude.{
  suc, ◌≤◌, String, ◌==◌, ◌≡◌, refl, sym, ap, ◌∙◌, Bool, true, false, some, [], ◌∷◌, arith, eq_refl,
  column_eq, inl, inr, eq_iff,
}
use saas_backend_fastapi.Prelude.Rows.{
  select, length, update_where, select-update_where, select_unique, update_where_one,
  select-update_kill,
}
use saas_backend_fastapi.Errors.{ok, err, app, bad_request}
use saas_backend_fastapi.Models.{User}
use saas_backend_fastapi.Text.{normalize_email}
use saas_backend_fastapi.Platform.{Platform, ChecksPasswords}
use saas_backend_fastapi.World.{Database, World, scalar_one_or_none}
use saas_backend_fastapi.World.Laws.{scalar-cases}
use saas_backend_fastapi.Security.{prehash, hash_password, hash_token}
use saas_backend_fastapi.Repositories.Users
use saas_backend_fastapi.Auth.{login, reset_password, with_new_password}
use saas_backend_fastapi.Schemas.{login_success}
use saas_backend_fastapi.Auth.Registration.{tokens_for}
use saas_backend_fastapi.Auth.Login.{login-Admits, admit_plain, matches_own_hash}

-- No two accounts share an id or an address.
pub record UsersAreUnique (db : Database) : Type 0 where
  pub ids : (id : String) → length (select (Users.by_id id) db.users) ≤ 1
  pub emails : (s : String) → length (select (λ (u : User). u.email == s) db.users) ≤ 1

module _ (p : Platform) where
  abbrev pub by_reset : String → User → Bool
  by_reset token u = column_eq u.reset_token (hash_token p token)

  abbrev pub new_hash : String → World → String
  new_hash new_password w = p.hashpw (prehash p new_password) (p.gensalt w.drawn)

  abbrev pub after_reset : String → User → World → World
  after_reset new_password u w = record w {
    db = record w.db {
      users =
          update_where (Users.by_id u.id) (with_new_password (new_hash new_password w)) w.db.users;
    };
    drawn = suc w.drawn;
  }

  pub reset_found :
      (token new_password : String) (w : World) (u : User)
      → select (by_reset token) w.db.users ≡ u ∷ []
      → reset_password p token new_password w
        ≡ (ok (with_new_password (new_hash new_password w) u), after_reset new_password u w)
  unfolding reset_password Users.get_by_reset_token scalar_one_or_none hash_password Users.save
  reset_found token new_password w u e = rw e refl

  reset_unknown :
      (token new_password : String) (w : World)
      → select (by_reset token) w.db.users ≡ []
      → reset_password p token new_password w
        ≡ (err (app (bad_request "Invalid or expired reset token.")), w)
  unfolding reset_password Users.get_by_reset_token scalar_one_or_none
  reset_unknown token new_password w e = rw e refl

  reset_sound :
      (token new_password : String) (w w' : World) (u' : User)
      → reset_password p token new_password w ≡ (ok u', w')
      → (u : User) × (select (by_reset token) w.db.users ≡ u ∷ [])
        × (u' ≡ with_new_password (new_hash new_password w) u)
        × (w' ≡ after_reset new_password u w)
  unfolding reset_password Users.get_by_reset_token
  reset_sound token new_password w w' u' h =
      elim (scalar-cases (select (by_reset token) w.db.users)) [
        | inl (e, s) ↦ absurd (ground arith)
        | inr (inl (u, e, s)) ↦
            let done = sym (reset_found token new_password w u e) ∙ h in
            (u, e, ground arith, sym (ap (λ x. x.1) done))
        | inr (inr s) ↦ absurd (ground arith)
      ]

  -- A reset token serves once: after a successful reset the same token is refused, with whatever
  -- password, as long as the table of users is the same, and nothing changes.
  pub reset_password_once :
      (token new_password other : String) (w w' later : World) (u' : User)
      → reset_password p token new_password w ≡ (ok u', w')
      → later.db.users ≡ w'.db.users
      → reset_password p token other later
        ≡ (err (app (bad_request "Invalid or expired reset token.")), later)
  reset_password_once token new_password other w w' later u' h kept =
      let (u, e, result, after) = reset_sound token new_password w w' u' h in
      reset_unknown token other later (
        ap (select (by_reset token)) (kept ∙ ap (λ x. x.db.users) after)
        ∙ select-update_kill (by_reset token) (Users.by_id u.id)
            (with_new_password (new_hash new_password w)) w.db.users (λ y. refl) e (eq_refl u.id))

  -- a row of the account, before and after the reset
  pub row_after_reset :
      (q : User → Bool) (token new_password : String) (w : World) (u : User)
      → select (by_reset token) w.db.users ≡ u ∷ []
      → length (select q w.db.users) ≤ 1
      → q u ≡ true
      → ((x : User) → q (with_new_password (new_hash new_password w) x) ≡ q x)
      → select q (after_reset new_password u w).db.users
        ≡ with_new_password (new_hash new_password w) u ∷ []
  row_after_reset q token new_password w u e one hit keeps =
      select-update_where q (Users.by_id u.id) (with_new_password (new_hash new_password w)) keeps
        w.db.users
      ∙ rw (select_unique (by_reset token) q w.db.users one e hit) (
          update_where_one (Users.by_id u.id) (with_new_password (new_hash new_password w)) u
            (eq_refl u.id))

  -- After a reset the account logs in with the new password, where it is active and has no MFA, as
  -- long as the table of users is the same. Ids and addresses of accounts are unique.
  pub login-reset_password :
      ChecksPasswords p
      → (token new_password email : String) (w w' later : World) (u' : User) → UsersAreUnique w.db
      → reset_password p token new_password w ≡ (ok u', w')
      → later.db.users ≡ w'.db.users
      → u'.email ≡ normalize_email email
      → u'.is_active ≡ true
      → u'.mfa_enabled ≡ false
      → login p email new_password later
        ≡ (ok (login_success (tokens_for p u'.id later) (some u')), later)
  unfolding Users.get_by_id scalar_one_or_none
  login-reset_password passwords token new_password email w w' later u' unique h kept same active
        plain =
      let (u, e, result, after) = reset_sound token new_password w w' u' h in
      let rows = kept ∙ ap (λ x. x.db.users) after in
      let by_email =
        ap (select (Users.by_email email)) rows
        ∙ row_after_reset (Users.by_email email) token new_password w u e
            (unique.emails (normalize_email email))
            ((eq_iff u.email (normalize_email email)).1 (ap (λ x. x.email) (sym result) ∙ same))
            (λ x. refl) in
      let by_id =
        ap (select (Users.by_id u.id)) rows
        ∙ row_after_reset (Users.by_id u.id) token new_password w u e (unique.ids u.id)
            (eq_refl u.id) (λ x. refl) in
      login-Admits p email new_password later u' (record {
        found = by_email ∙ ap (λ x. x ∷ []) (sym result);
        matches = rw result (matches_own_hash p passwords new_password (p.gensalt w.drawn));
        active = active;
      })
      ∙ admit_plain p u' later (some u') plain (rw result (ap scalar_one_or_none by_id))
