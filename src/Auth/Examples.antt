-- ===== src/Auth/Examples.antt =====
-- The theorems about accounts at a small office: Dan registers, Ann logs in, Bob resets his
-- password, and Carol comes through a provider.
use saas_backend_fastapi.Prelude.{
  String, ◌==◌, ◌≡◌, refl, true, false, Option, none, some, [], ◌∷◌, arith, eq_iff, inl, inr,
  Bool-cases, eq_refl, if◌then◌else◌, ◌∙◌,
}
use saas_backend_fastapi.Prelude.Rows.{update_where, select, any}
use saas_backend_fastapi.Errors.{conflict, ok, err, app, bad_request, send_error}
use saas_backend_fastapi.Models.{User, user_clash, google}
use saas_backend_fastapi.Config.{pending_expires_in_seconds}
use saas_backend_fastapi.Platform.{Platform, ChecksPasswords}
use saas_backend_fastapi.World.{get_db, World, password_reset_email, scalar_one_or_none, insert_row}
use saas_backend_fastapi.Samples.{eve, platform, settings, ann, bob, office, at_time}
use saas_backend_fastapi.Security.{
  verify_password, hash_password, hash_token, create_access_token, create_refresh_token,
  create_token,
}
use saas_backend_fastapi.Text.{normalize_email}
use saas_backend_fastapi.Repositories.Users
use saas_backend_fastapi.Auth.{
  request_password_reset, verify_email, with_new_password, with_verified, register, login,
  reset_password, oauth_login_or_register, password_matches, link_or_create, issue_tokens,
}
use saas_backend_fastapi.Schemas.{RegisterRequest, login_success, mfa_pending_response}
use saas_backend_fastapi.Auth.Registration.{
  register_once, new_user, tokens_for, registered, register_new,
}
use saas_backend_fastapi.Auth.Login.{
  Admits, pending_token, login-Admits, admit_plain, login_outcome, login-register,
}
use saas_backend_fastapi.Auth.Reset.{UsersAreUnique, reset_password_once, login-reset_password}
use saas_backend_fastapi.Auth.Mailing.{
  reset_password-request_password_reset, verify_email_once, verify_email_rolled_back,
}
use saas_backend_fastapi.Auth.OAuth.{by_oauth, oauth_login_or_register_again}

abbrev start : World
start = at_time 0 office

abbrev dan : RegisterRequest
dan = record { email = "dan@x.io"; password = "Secret12"; full_name = none }

platform_passwords : ChecksPasswords platform
platform_passwords = record {
  checks = λ pw salt. eq_refl (if pw == "" then "empty" else pw);
  nonempty = λ pw salt. elim (Bool-cases (pw == "")) [ inl e ↦ rw e refl | inr e ↦ rw e e ];
}

dan_registers : register platform dan start ≡ (
  ok (new_user platform dan start, tokens_for platform "new" start, "fresh"),
  registered platform dan start,
)
unfolding select any normalize_email
dan_registers = register_new platform dan start refl refl

abbrev with_dan : World
with_dan = at_time 9 (registered platform dan start).db

login-register_example : login platform "dan@x.io" "Secret12" with_dan ≡ (
  ok (login_success (tokens_for platform "new" with_dan) (some (new_user platform dan start))),
  with_dan,
)
login-register_example =
    login-register platform platform_passwords dan "dan@x.io" start (registered platform dan start)
      with_dan dan_registers refl refl

ann_enters : Admits platform "ann@x.io" "password" start ann
unfolding select password_matches verify_password normalize_email
ann_enters = record { found = refl; matches = refl; active = refl }

ann_logs_in :
    login platform "ann@x.io" "password" start
    ≡ (ok (login_success (tokens_for platform "ann" start) (some ann)), start)
unfolding Users.get_by_id select scalar_one_or_none
ann_logs_in =
    login-Admits platform "ann@x.io" "password" start ann ann_enters
    ∙ admit_plain platform ann start (some ann) refl refl

login_outcome_example :
    (u : User) × Admits platform "ann@x.io" "password" start u
    × (start ≡ start)
    × (u.mfa_enabled ≡ true
        → login_success (tokens_for platform "ann" start) (some ann)
          ≡ mfa_pending_response (pending_token platform u.id start) pending_expires_in_seconds)
    × (u.mfa_enabled ≡ false
        → (o : Option User) × (login_success (tokens_for platform "ann" start) (some ann)
            ≡ login_success (tokens_for platform u.id start) o))
login_outcome_example =
    login_outcome platform "ann@x.io" "password" start start
      (login_success (tokens_for platform "ann" start) (some ann)) ann_logs_in

abbrev bob_forgot : World
bob_forgot =
    at_time 0 (record office { users = ann ∷ record bob { reset_token = some "#rst" } ∷ [] })

abbrev bob_reset : World
bob_reset = (reset_password platform "rst" "Longer12" bob_forgot).1

abbrev bob_changed : User
bob_changed = record bob { hashed_password = some "#Longer12" }

bob_resets : reset_password platform "rst" "Longer12" bob_forgot ≡ (ok bob_changed, bob_reset)
unfolding reset_password Users.get_by_reset_token select scalar_one_or_none hash_password Users.save
    hash_token
bob_resets = refl

unique_people : UsersAreUnique bob_forgot.db
unfolding select
unique_people = record {
  ids = λ i. ground (arith, eq_iff "ann" i, eq_iff "bob" i, eq_iff "ann" "bob");
  emails =
      λ s. ground (arith, eq_iff "ann@x.io" s, eq_iff "bob@x.io" s, eq_iff "ann@x.io" "bob@x.io");
}

bob_address : "bob@x.io" ≡ normalize_email "bob@x.io"
unfolding normalize_email
bob_address = refl

unique_office : UsersAreUnique office
unfolding select
unique_office = record {
  ids = λ i. ground (
    arith,
    eq_iff "ann" i,
    eq_iff "bob" i,
    eq_iff "eve" i,
    eq_iff "ann" "bob",
    eq_iff "ann" "eve",
    eq_iff "bob" "eve",
  );
  emails = λ s. ground (
    arith,
    eq_iff "ann@x.io" s,
    eq_iff "bob@x.io" s,
    eq_iff "eve@x.io" s,
    eq_iff "ann@x.io" "bob@x.io",
    eq_iff "ann@x.io" "eve@x.io",
    eq_iff "bob@x.io" "eve@x.io",
  );
}

reset_password_once_example :
    reset_password platform "rst" "Another1" bob_reset
    ≡ (err (app (bad_request "Invalid or expired reset token.")), bob_reset)
reset_password_once_example =
    reset_password_once platform "rst" "Longer12" "Another1" bob_forgot bob_reset bob_reset
      bob_changed bob_resets refl

login-reset_password_example :
    login platform "bob@x.io" "Longer12" bob_reset
    ≡ (ok (login_success (tokens_for platform "bob" bob_reset) (some bob_changed)), bob_reset)
login-reset_password_example =
    login-reset_password platform platform_passwords "rst" "Longer12" "bob@x.io" bob_forgot
      bob_reset bob_reset bob_changed unique_people bob_resets refl bob_address refl refl

carol_new : oauth_login_or_register platform google "g1" "carol@x.io" none none bob_forgot ≡ (
  ok (tokens_for platform "new" bob_forgot),
  (oauth_login_or_register platform google "g1" "carol@x.io" none none bob_forgot).1,
)
unfolding oauth_login_or_register Users.get_by_oauth select scalar_one_or_none link_or_create
    Users.get_by_email Users.create insert_row any user_clash issue_tokens create_access_token
    create_refresh_token create_token normalize_email
carol_new = refl

oauth_login_or_register_again_example :
    (u : User) × (select
        (by_oauth platform google "g1")
        (oauth_login_or_register platform google "g1" "carol@x.io" none none bob_forgot).1.db.users
      ≡ u ∷ [])
    × (tokens_for platform "new" bob_forgot ≡ tokens_for platform u.id bob_forgot)
    × ((email' : String) (name' avatar' : Option String) (later : World)
        → later.db.users
          ≡ (oauth_login_or_register platform google "g1" "carol@x.io" none none
              bob_forgot).1.db.users
        → oauth_login_or_register platform google "g1" email' name' avatar' later
          ≡ (ok (tokens_for platform u.id later), later))
oauth_login_or_register_again_example =
    oauth_login_or_register_again platform google "g1" "carol@x.io" none none bob_forgot
      (oauth_login_or_register platform google "g1" "carol@x.io" none none bob_forgot).1
      (tokens_for platform "new" bob_forgot) unique_people carol_new

register_once_example :
    register platform dan with_dan
    ≡ (err (app (conflict "An account with this email already exists.")), with_dan)
register_once_example =
    register_once platform dan dan start (registered platform dan start) with_dan dan_registers refl
      refl

-- a platform with an API key
abbrev keyed : Platform
keyed = record platform { settings = record settings { resend_api_key = "key" } }

abbrev bob_asks : World
bob_asks = at_time 4 office

reset_password-request_password_reset_example :
    let asked = (request_password_reset keyed "bob@x.io" bob_asks).1 in
    ((request_password_reset keyed "bob@x.io" bob_asks).0 ≡ ok tt)
    × (asked.outbox ≡ password_reset_email "bob@x.io" "fresh" ∷ [])
    × ((reset_password keyed "fresh" "Longer12" asked).0 ≡ ok (with_new_password "#Longer12" bob))
    × (select (Users.by_id "bob") (reset_password keyed "fresh" "Longer12" asked).1.db.users
        ≡ with_new_password "#Longer12" bob ∷ [])
unfolding select normalize_email hash_token
reset_password-request_password_reset_example =
    reset_password-request_password_reset keyed "bob@x.io" "Longer12" bob_asks
      (request_password_reset keyed "bob@x.io" bob_asks).1 bob unique_office refl refl (inr refl)
      refl

abbrev unverified : User
unverified = record eve { is_verified = false; verification_token = some "#ver" }

abbrev eve_waits : World
eve_waits = at_time 4 (record office { users = unverified ∷ [] })

verify_email_once_example :
    let w' = (verify_email platform "ver" eve_waits).1 in
    ((verify_email platform "ver" eve_waits).0 ≡ ok eve)
    × (w'.db.users ≡ update_where (Users.by_id "eve") with_verified (unverified ∷ []))
    × (verify_email platform "ver" w'
        ≡ (err (app (bad_request "Invalid or expired verification token.")), w'))
unfolding select hash_token
verify_email_once_example =
    verify_email_once platform "ver" eve_waits unverified refl
      (verify_email platform "ver" eve_waits).1 (inl refl) refl

abbrev mail_down : World
mail_down = record eve_waits { mailer_up = false }

verify_email_rolled_back_example :
    get_db (verify_email keyed "ver") mail_down ≡ (err send_error, mail_down)
unfolding select hash_token
verify_email_rolled_back_example =
    verify_email_rolled_back keyed "ver" mail_down unverified refl
      (record { keyed = refl; down = refl })
