-- ===== src/Security/Examples.antt =====
-- The theorems about tokens on a platform that runs.
use saas_backend_fastapi.Prelude.{◌≡◌, ◌≢◌, refl, some, arith}
use saas_backend_fastapi.Errors.{ok, err, jwt_error}
use saas_backend_fastapi.Platform.{DecodesJwt, Claims}
use saas_backend_fastapi.World.{World}
use saas_backend_fastapi.Prelude.Rows.{select}
use saas_backend_fastapi.Security.{
  verify_refresh_token, revoke_refresh_token, create_access_token, is_token_blacklisted,
}
use saas_backend_fastapi.Security.Tokens.{access, refresh, verify, token_kinds_apart}
use saas_backend_fastapi.Security.Blacklist.{
  revoke_keeps_up, revoked_refused, revoked_accepted_at_exp,
}
use saas_backend_fastapi.Samples.{platform, office, at_time}
use saas_backend_fastapi.Samples.Codec.{encode, decode-DecodesJwt}

jwt : DecodesJwt platform
jwt = decode-DecodesJwt platform refl refl

abbrev access_claims : Claims
access_claims = record { sub = some "ann"; type = some "access"; exp = some 1810 }

-- An access token of Ann at time 10 is no refresh token at time 20.
token_kinds_apart_example :
    (verify platform refresh (encode access_claims "secret") (at_time 20 office)).0
    ≡ err (jwt_error "Not a refresh token")
unfolding create_access_token is_token_blacklisted select
token_kinds_apart_example =
    token_kinds_apart platform jwt access refresh "ann" (encode access_claims "secret")
      (at_time 10 office) (at_time 20 office) refl (omega arith) refl

abbrev refresh_claims : Claims
refresh_claims = record { sub = some "ann"; type = some "refresh"; exp = some 100 }

abbrev revoked : World
revoked = (revoke_refresh_token platform (encode refresh_claims "secret") (at_time 10 office)).1

refresh_decodes :
    platform.jwt_decode 10 (encode refresh_claims "secret") "secret" ≡ some refresh_claims
refresh_decodes = jwt.valid 10 100 refresh_claims "secret" refl (omega arith)

revoked_refused_example :
    (verify_refresh_token platform (encode refresh_claims "secret") (record revoked { now = 60 })).0
    ≢ ok "ann"
revoked_refused_example =
    revoked_refused platform (encode refresh_claims "secret") jwt (at_time 10 office)
      (record revoked { now = 60 }) refresh_claims 99 refl refresh_decodes refl (omega arith)
      (revoke_keeps_up platform (encode refresh_claims "secret") (at_time 10 office) refl) refl
      "ann" (omega arith)

refresh_verifies :
    (verify_refresh_token platform (encode refresh_claims "secret") (at_time 10 office)).0
    ≡ ok "ann"
unfolding verify_refresh_token select
refresh_verifies = ground (arith, refresh_decodes)

revoked_accepted_at_exp_example :
    (verify_refresh_token platform
      (encode refresh_claims "secret")
      (record revoked { now = 100 })).0
    ≡ ok "ann"
revoked_accepted_at_exp_example =
    revoked_accepted_at_exp platform (encode refresh_claims "secret") jwt (at_time 10 office)
      (record revoked { now = 100 }) refresh_claims 99 refl refresh_decodes refl (omega arith)
      (revoke_keeps_up platform (encode refresh_claims "secret") (at_time 10 office) refl) refl
      "ann" refresh_verifies refl
