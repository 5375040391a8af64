-- ===== src/Routes/Mailing.antt =====
-- The handlers of app/api/v1/endpoints/auth.py that send mail, while mail cannot be sent.
use saas_backend_fastapi.Prelude.{String, Option, ◌≡◌, refl, ◌∙◌, ◌↔◌, inl, inr, arith, [], ◌∷◌}
use saas_backend_fastapi.Prelude.Rows.{select}
use saas_backend_fastapi.Errors.{Result, ok, err, send_error, multiple_results_found}
use saas_backend_fastapi.Models.{User}
use saas_backend_fastapi.Schemas.{RegisterRequest, TokenPair}
use saas_backend_fastapi.Platform.{Platform}
use saas_backend_fastapi.World.{World, scalar_one_or_none, password_reset_email}
use saas_backend_fastapi.World.Laws.{Result-cases, scalar-cases}
use saas_backend_fastapi.Mailer
use saas_backend_fastapi.Repositories.Users
use saas_backend_fastapi.Auth
use saas_backend_fastapi.Auth.Mailing.{IsLost, request_found, send_fails, reset_saved}
use saas_backend_fastapi.Routes.Sessions.{register, send_verification_email, forgot_password}

abbrev pub without_token : Result (User × TokenPair × String) → Result (User × TokenPair)
without_token (ok (user, tokens, token)) = ok (user, tokens)
without_token (err e) = err e

module _ (p : Platform) where
  background_quiet :
      (to token : String) (full_name : Option String) (w : World)
      → ((send_verification_email p to full_name token w).0 ≡ ok tt)
        × ((send_verification_email p to full_name token w).1.db ≡ w.db)
  unfolding send_verification_email Mailer.send_verification_email Mailer.send
  background_quiet to token full_name w = (ground arith, ground arith)

  -- The mail of a registration cannot fail it: whatever the state of the mailer, the handler answers
  -- what `AuthService.register` returns, without the verification token, or raises what it raises,
  -- and leaves the database that it leaves.
  pub register_answers :
      (payload : RegisterRequest) (w : World)
      → ((register p payload w).0 ≡ without_token (Auth.register p payload w).0)
        × ((register p payload w).1.db ≡ (Auth.register p payload w).1.db)
  unfolding register
  register_answers payload w = elim (Result-cases (Auth.register p payload w).0) [
    | inl ((user, tokens, token), e) ↦
        let quiet =
          background_quiet user.email token user.full_name (Auth.register p payload w).1 in
        (ground arith, ground arith)
    | inr (x, e) ↦ (ground arith, ground arith)
  ]

  unknown_answer :
      (email : String) (w : World)
      → select (Users.by_email email) w.db.users ≡ []
      → (forgot_password p email w).0
        ≡ ok "If an account with that email exists, a reset link has been sent."
  unfolding forgot_password Auth.request_password_reset Users.get_by_email scalar_one_or_none
  unknown_answer email w e = rw e refl

  several_answer :
      (email : String) (w : World)
      → scalar_one_or_none (select (Users.by_email email) w.db.users) ≡ err multiple_results_found
      → (forgot_password p email w).0 ≡ err multiple_results_found
  unfolding forgot_password Auth.request_password_reset Users.get_by_email
  several_answer email w e = rw e refl

  known_answer :
      (email : String) (w : World) (u : User)
      → IsLost p w
      → select (Users.by_email email) w.db.users ≡ u ∷ []
      → (forgot_password p email w).0 ≡ err send_error
  unfolding forgot_password
  known_answer email w u lost e =
      let mail = password_reset_email u.email (p.token_urlsafe w.drawn) in
      let failed =
        request_found p email w u e
        ∙ send_fails p mail (reset_saved p u w) (record { keyed = lost.keyed; down = lost.down }) in
      ground arith

  -- While mail cannot be sent, a request for a password reset tells whether the address has an
  -- account: it fails with the error of the mailer exactly when there is one account of the address.
  pub forgot_password_discloses :
      (email : String) (w : World)
      → IsLost p w
      → ((forgot_password p email w).0 ≡ err send_error)
        ↔ ((u : User) × (select (Users.by_email email) w.db.users ≡ u ∷ []))
  forgot_password_discloses email w lost = (
    λ failed. elim (scalar-cases (select (Users.by_email email) w.db.users)) [
      | inl (e, _) ↦ let answered = unknown_answer email w e in absurd (ground arith)
      | inr (inl (u, e, _)) ↦ (u, e)
      | inr (inr several) ↦ let answered = several_answer email w several in absurd (ground arith)
    ],
    λ (u, e). known_answer email w u lost e,
  )
