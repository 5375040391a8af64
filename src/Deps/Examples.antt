-- ===== src/Deps/Examples.antt =====
-- The theorems about sessions: Ann's tokens, a login of Bob with a second factor, and the logout of
-- a session.
use saas_backend_fastapi.Prelude.{◌≡◌, ◌≢◌, refl, true, some, [], ◌∷◌, arith, ◌∙◌}
use saas_backend_fastapi.Prelude.Rows.{select}
use saas_backend_fastapi.Errors.{ok, err, app, unauthorized}
use saas_backend_fastapi.Models.{User}
use saas_backend_fastapi.Platform.{DecodesJwt, Claims}
use saas_backend_fastapi.World.{World}
use saas_backend_fastapi.Text.{normalize_email}
use saas_backend_fastapi.Security.{verify_password, verify_refresh_token, revoke_refresh_token}
use saas_backend_fastapi.Repositories.Users
use saas_backend_fastapi.Auth.{logout, refresh, password_matches}
use saas_backend_fastapi.Auth.Registration.{tokens_for}
use saas_backend_fastapi.Auth.Login.{Admits, pending_token, login-Admits, admit_mfa}
use saas_backend_fastapi.Deps.{get_current_user, get_mfa_pending_user}
use saas_backend_fastapi.Deps.Sessions.{mfa_gate, logout_ends_session}
use saas_backend_fastapi.Samples.{platform, bob, office, at_time}
use saas_backend_fastapi.Samples.Codec.{encode, decode-DecodesJwt}

codec : DecodesJwt platform
codec = decode-DecodesJwt platform refl refl

abbrev careful : User
careful = record bob { mfa_enabled = true; mfa_secret = some "base32" }

abbrev guarded : World
guarded = at_time 10 (record office { users = careful ∷ [] })

careful_enters : Admits platform "bob@x.io" "password" guarded careful
unfolding select password_matches verify_password normalize_email
careful_enters = record { found = refl; matches = refl; active = refl }

mfa_gate_example :
    (get_current_user platform (some (pending_token platform "bob" guarded)) guarded
      ≡ (err (app (unauthorized "Invalid or expired token.")), guarded))
    × (u : User) × Admits platform "bob@x.io" "password" guarded u
    × (select (Users.by_id u.id) guarded.db.users ≡ u ∷ []
        → get_mfa_pending_user platform (some (pending_token platform "bob" guarded)) guarded
          ≡ (ok u, guarded))
mfa_gate_example =
    mfa_gate platform codec "bob@x.io" "password" guarded guarded guarded
      (pending_token platform "bob" guarded) 300
      (login-Admits platform "bob@x.io" "password" guarded careful careful_enters
        ∙ admit_mfa platform careful guarded refl)
      (omega arith)

abbrev session_claims : Claims
session_claims = record { sub = some "ann"; type = some "refresh"; exp = some 100 }

session_decodes :
    platform.jwt_decode 10 (encode session_claims "secret") "secret" ≡ some session_claims
session_decodes = codec.valid 10 100 session_claims "secret" refl (omega arith)

session_valid :
    verify_refresh_token platform (encode session_claims "secret") (at_time 10 office)
    ≡ (ok "ann", at_time 10 office)
unfolding verify_refresh_token select
session_valid = ground (arith, session_decodes)

abbrev logged_out : World
logged_out = (logout platform (encode session_claims "secret") (at_time 10 office)).1

still_up : logged_out.redis.up ≡ true
unfolding logout verify_refresh_token revoke_refresh_token select
still_up = ground (arith, session_decodes)

logout_ends_session_example :
    (refresh platform (encode session_claims "secret") (record logged_out { now = 60 })).0
    ≢ ok (tokens_for platform "ann" (at_time 60 office))
logout_ends_session_example =
    logout_ends_session platform (encode session_claims "secret") codec (at_time 10 office)
      (record logged_out { now = 60 }) session_claims 99 "ann"
      (tokens_for platform "ann" (at_time 60 office)) session_valid refl session_decodes refl
      (omega arith) still_up refl (omega arith)
