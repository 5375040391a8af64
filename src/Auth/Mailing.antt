-- ===== src/Auth/Mailing.antt =====
-- The methods of app/services/auth_service.py that send mail: a forgotten password, and the
-- verification of an address. What happens when the mail cannot be sent is part of it.
use saas_backend_fastapi.Prelude.{
  suc, String, ◌==◌, ◌≡◌, refl, ap, ◌∙◌, Bool, true, false, [], ◌∷◌, arith, eq_refl, column_eq,
  or_default, ◌≤◌, if◌then◌else◌, inl, inr, ◌⊎◌,
}
use saas_backend_fastapi.Prelude.Rows.{
  length, one_updated, select, update_where, select_unique, update_where_one, select-update_make,
  select-update_kill,
}
use saas_backend_fastapi.Errors.{ok, err, app, bad_request, send_error}
use saas_backend_fastapi.Models.{User}
use saas_backend_fastapi.Platform.{Platform}
use saas_backend_fastapi.World.{
  World, Mail, password_reset_email, welcome_email, get_db, scalar_one_or_none, pure, ◌>>=◌,
}
use saas_backend_fastapi.World.Laws.{bind_step, bind_err, get_db_raises}
use saas_backend_fastapi.Security.{hash_token, generate_secure_token}
use saas_backend_fastapi.Mailer.{send, send_password_reset_email, send_welcome_email}
use saas_backend_fastapi.Repositories.Users
use saas_backend_fastapi.Auth.{
  request_password_reset, reset_password, verify_email, with_reset_token, with_new_password,
  with_verified,
}
use saas_backend_fastapi.Auth.Reset.{
  UsersAreUnique, by_reset, new_hash, reset_found, row_after_reset,
}

module _ (p : Platform) where
  -- Mail is sent, or only logged because there is no API key; or there is a key and sending fails.
  abbrev pub IsDelivered : World → Type 0
  IsDelivered w = ((p.settings.resend_api_key == "") ≡ true) ⊎ (w.mailer_up ≡ true)

  pub record IsLost (w : World) : Type 0 where
    pub keyed : (p.settings.resend_api_key == "") ≡ false
    pub down : w.mailer_up ≡ false

  send_passes : (m : Mail) (w : World) → IsDelivered w → (send p m w).0 ≡ ok tt
  send_passes m w (inl keyless) = unfold send in rw keyless refl
  send_passes m w (inr up) = unfold send in ground (arith, up)

  pub send_keeps : (m : Mail) (w : World) → (send p m w).1.db ≡ w.db
  unfolding send
  send_keeps m w = ground arith

  pub send_fails : (m : Mail) (w : World) → IsLost w → send p m w ≡ (err send_error, w)
  unfolding send
  send_fails m w lost = rw (lost.keyed, lost.down) refl

  -- The outbox after a mail: it is in front, or there is no API key.
  send_outbox :
      (m : Mail) (w : World)
      → IsDelivered w
      → (send p m w).1.outbox ≡ (if p.settings.resend_api_key == "" then w.outbox else m ∷ w.outbox)
  send_outbox m w (inl keyless) = unfold send in rw keyless refl
  send_outbox m w (inr up) = unfold send in ground (arith, up)

  abbrev pub reset_saved : User → World → World
  reset_saved u w = record w {
    db = record w.db {
      users =
          update_where (Users.by_id u.id)
            (with_reset_token (hash_token p (p.token_urlsafe w.drawn))) w.db.users;
    };
    drawn = suc w.drawn;
  }

  pub request_found :
      (email : String) (w : World) (u : User)
      → select (Users.by_email email) w.db.users ≡ u ∷ []
      → request_password_reset p email w
        ≡ send p (password_reset_email u.email (p.token_urlsafe w.drawn)) (reset_saved u w)
  unfolding request_password_reset Users.get_by_email scalar_one_or_none generate_secure_token
      Users.save send_password_reset_email
  request_found email w u e = rw e refl

  request_row :
      (email : String) (w : World) (u : User)
      → UsersAreUnique w.db
      → select (by_reset p (p.token_urlsafe w.drawn)) w.db.users ≡ []
      → select (Users.by_email email) w.db.users ≡ u ∷ []
      → select (by_reset p (p.token_urlsafe w.drawn)) (reset_saved u w).db.users
        ≡ with_reset_token (hash_token p (p.token_urlsafe w.drawn)) u ∷ []
  request_row email w u unique fresh e =
      let f : User → User = with_reset_token (hash_token p (p.token_urlsafe w.drawn)) in
      select-update_make (by_reset p (p.token_urlsafe w.drawn)) (Users.by_id u.id) f w.db.users
        (λ y. eq_refl (hash_token p (p.token_urlsafe w.drawn))) fresh
      ∙ ap (update_where (Users.by_id u.id) f) (
          select_unique (Users.by_email email) (Users.by_id u.id) w.db.users (unique.ids u.id) e
            (eq_refl u.id))
      ∙ update_where_one (Users.by_id u.id) f u (eq_refl u.id)

  -- the table of users after a request: the account has the hash of the drawn token
  request_users :
      (email : String) (w : World) (u : User)
      → select (Users.by_email email) w.db.users ≡ u ∷ []
      → (request_password_reset p email w).1.db.users ≡ (reset_saved u w).db.users
  request_users email w u e =
      ap (λ x. x.1.db.users) (request_found email w u e)
      ∙ ap (λ db. db.users)
          (send_keeps (password_reset_email u.email (p.token_urlsafe w.drawn)) (reset_saved u w))

  request_keeps_ids :
      (email : String) (w : World) (u : User)
      → UsersAreUnique w.db
      → select (Users.by_email email) w.db.users ≡ u ∷ []
      → length (select (Users.by_id u.id) (request_password_reset p email w).1.db.users) ≤ 1
  request_keeps_ids email w u unique e = rw (request_users email w u e) (
      one_updated (Users.by_id u.id) w.db.users (Users.by_id u.id)
        (with_reset_token (hash_token p (p.token_urlsafe w.drawn))) (λ x. refl) (unique.ids u.id))

  -- A forgotten password, where its mail is delivered: `request_password_reset` mails the drawn token
  -- to the address of the account, and nothing else (without an API key no mail is sent); the token
  -- then resets the password, as long as the table of users is the same, and the row of the account
  -- has the new hash and no reset token. The hash of the new token is nobody's yet, and ids and
  -- addresses are unique.
  pub reset_password-request_password_reset :
      (email new_password : String) (w later : World) (u : User)
      → UsersAreUnique w.db
      → select (by_reset p (p.token_urlsafe w.drawn)) w.db.users ≡ []
      → select (Users.by_email email) w.db.users ≡ u ∷ []
      → IsDelivered w
      → later.db.users ≡ (request_password_reset p email w).1.db.users
      → ((request_password_reset p email w).0 ≡ ok tt)
        × ((request_password_reset p email w).1.outbox ≡ (
            if p.settings.resend_api_key == ""
            then w.outbox
            else password_reset_email u.email (p.token_urlsafe w.drawn) ∷ w.outbox))
        × ((reset_password p (p.token_urlsafe w.drawn) new_password later).0
            ≡ ok (with_new_password (new_hash p new_password later) u))
        × (select
              (Users.by_id u.id)
              (reset_password p (p.token_urlsafe w.drawn) new_password later).1.db.users
            ≡ with_new_password (new_hash p new_password later) u ∷ [])
  reset_password-request_password_reset email new_password w later u unique fresh e delivered kept =
      let token : String = p.token_urlsafe w.drawn in
      let mail : Mail = password_reset_email u.email token in
      let asked : User = with_reset_token (hash_token p token) u in
      let row =
        ap (select (by_reset p token)) (kept ∙ request_users email w u e)
        ∙ request_row email w u unique fresh e in
      let done = reset_found p token new_password later asked row in
      (
        ap (λ x. x.0) (request_found email w u e) ∙ send_passes mail (reset_saved u w) delivered,
        ap (λ x. x.1.outbox) (request_found email w u e)
            ∙ send_outbox mail (reset_saved u w) delivered,
        ap (λ x. x.0) done,
        ap (λ x. select (Users.by_id u.id) x.1.db.users) done
            ∙ row_after_reset p (Users.by_id u.id) token new_password later asked row
                (rw kept (request_keeps_ids email w u unique e)) (eq_refl u.id) (λ x. refl),
      )

  -- the world after a verification, before the welcome
  abbrev verified : User → World → World
  verified u w = record w {
    db = record w.db { users = update_where (Users.by_id u.id) with_verified w.db.users };
  }

  abbrev by_verification : String → User → Bool
  by_verification token u = column_eq u.verification_token (hash_token p token)

  verify_found :
      (token : String) (w : World) (u : User)
      → select (by_verification token) w.db.users ≡ u ∷ []
      → verify_email p token w
        ≡ (send p (welcome_email u.email (or_default u.full_name "")) >>= λ _.
              pure (with_verified u))
            (verified u w)
  unfolding verify_email Users.get_by_verification_token scalar_one_or_none Users.save
      send_welcome_email
  verify_found token w u e = rw e refl

  verify_unknown :
      (token : String) (w : World)
      → select (by_verification token) w.db.users ≡ []
      → verify_email p token w
        ≡ (err (app (bad_request "Invalid or expired verification token.")), w)
  unfolding verify_email Users.get_by_verification_token scalar_one_or_none
  verify_unknown token w e = rw e refl

  module _ (token : String) (w : World) (u : User)
      (e : select (by_verification token) w.db.users ≡ u ∷ []) where
    abbrev welcome : Mail
    welcome = welcome_email u.email (or_default u.full_name "")

    verify_delivered :
        IsDelivered w
        → verify_email p token w ≡ (ok (with_verified u), (send p welcome (verified u w)).1)
    verify_delivered delivered =
        verify_found token w u e
        ∙ bind_step (send p welcome) (λ _. pure (with_verified u)) (verified u w)
            (send p welcome (verified u w)).1
            (λ i.
              (send_passes welcome (verified u w) delivered i, (send p welcome (verified u w)).1))

    -- With the verification token of one account, and its mail of welcome delivered, the account is
    -- verified, rows with other ids stay as they are, and the token is refused from then on, as long as the table
    -- of users is the same.
    pub verify_email_once :
        (later : World)
        → IsDelivered w
        → later.db.users ≡ (verify_email p token w).1.db.users
        → ((verify_email p token w).0 ≡ ok (with_verified u))
          × ((verify_email p token w).1.db.users
              ≡ update_where (Users.by_id u.id) with_verified w.db.users)
          × (verify_email p token later
              ≡ (err (app (bad_request "Invalid or expired verification token.")), later))
    verify_email_once later delivered same =
        let kept = ap (λ db. db.users) (send_keeps welcome (verified u w)) in
        let rows = ap (λ x. x.1.db.users) (verify_delivered delivered) ∙ kept in
        (
          ap (λ x. x.0) (verify_delivered delivered),
          rows,
          verify_unknown token later (
              ap (select (by_verification token)) (same ∙ rows)
              ∙ select-update_kill (by_verification token) (Users.by_id u.id) with_verified
                  w.db.users (λ y. refl) e (eq_refl u.id)),
        )

    -- Where the mail of welcome is lost the verification of an address fails, and its session rolls
    -- everything back: the account is not verified, and cannot be until mail is sent again.
    pub verify_email_rolled_back : IsLost w → get_db (verify_email p token) w ≡ (err send_error, w)
    verify_email_rolled_back lost = get_db_raises (verify_email p token) w (verified u w) (
        verify_found token w u e
        ∙ bind_err (send p welcome) (λ _. pure (with_verified u)) (verified u w) (verified u w)
            (send_fails welcome (verified u w) (record { keyed = lost.keyed; down = lost.down })))
