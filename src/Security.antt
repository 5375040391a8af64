-- ===== src/Security.antt =====
-- app/core/security.py: passwords, JWTs, the blacklist of refresh tokens and one-time tokens. The
-- claim `iat` is read by no code and left out, and so is `extra`, which no caller passes.
mod Examples
pub mod Tokens
pub mod Blacklist
pub mod Keeps
use saas_backend_fastapi.Prelude.{
  ℕ, zero, suc, ◌+◌, ◌-◌, ◌*◌, String, ◌++◌, ◌==◌, Bool, true, false, not, Option, none, some, ltb,
  is_some, column_eq, if◌then◌else◌,
}
use saas_backend_fastapi.Errors.{Exception, AppError, app, jwt_error, key_error, Result, ok, err}
use saas_backend_fastapi.Config.{
  access_token_type, refresh_token_type, mfa_pending_token_type, pending_expires_in_seconds,
}
use saas_backend_fastapi.Platform.{Platform, Claims}
use saas_backend_fastapi.World.{World, Exec, pure, throw, draw, get_now, ◌>>=◌, ◌>>◌}
use saas_backend_fastapi.RedisClient.{set_with_ttl, get_value}

-- `try: m` / `except Exception: handler`
abbrev pub except : {A : Type 0} → Exec A → Exec A → Exec A
except m handler w = let (r, w') = m w in elim r [ ok a ↦ (ok a, w') | err e ↦ handler w' ]

-- `except JWTError as exc: raise e`
abbrev pub translated : AppError → Exception → Exception
translated e (jwt_error m) = app e
translated e x = x

abbrev pub jwt_errors_as : {A : Type 0} → AppError → Exec A → Exec A
jwt_errors_as e m w =
    let (r, w') = m w in elim r [ ok a ↦ (ok a, w') | err x ↦ (err (translated e x), w') ]

module _ (p : Platform) where
  abbrev pub prehash : String → String
  prehash password = p.sha256_hex password

  unfoldable pub hash_password : String → Exec String
  hash_password password = do salt ← draw p.gensalt; pure (p.hashpw (prehash password) salt)

  unfoldable pub verify_password : String → String → Bool
  verify_password plain hashed = p.checkpw (prehash plain) hashed

  -- the payload of a token that lives for `ttl` seconds, signed
  unfoldable pub create_token : String → String → ℕ → Exec String
  create_token subject type ttl w =
      pure
        (p.jwt_encode (record { sub = some subject; type = some type; exp = some (w.now + ttl) })
          p.settings.app_secret_key)
        w

  unfoldable pub create_mfa_pending_token : String → Exec String
  unfolding create_token
  create_mfa_pending_token subject =
      create_token subject mfa_pending_token_type pending_expires_in_seconds

  unfoldable pub create_access_token : String → Exec String
  unfolding create_token
  create_access_token subject =
      create_token subject access_token_type (p.settings.access_token_expire_minutes * 60)

  unfoldable pub create_refresh_token : String → Exec String
  unfolding create_token
  create_refresh_token subject =
      create_token subject refresh_token_type (p.settings.refresh_token_expire_days * 24 * 3600)

  unfoldable pub decode_token : String → Exec Claims
  decode_token token w = elim (p.jwt_decode w.now token p.settings.app_secret_key) [
    | none ↦ throw (jwt_error "Signature verification failed or the token has expired") w
    | some payload ↦ pure payload w
  ]

  -- `payload["sub"]`
  unfoldable pub subject_of : Claims → Exec String
  subject_of payload w = elim payload.sub [ none ↦ throw key_error w | some sub ↦ pure sub w ]

  -- the common end of the three `verify_..._token` functions
  unfoldable pub verify_type : String → String → Claims → Exec String
  unfolding subject_of
  verify_type type message payload w =
      if column_eq payload.type type then subject_of payload w else throw (jwt_error message) w

  unfoldable pub verify_mfa_pending_token : String → Exec String
  unfolding decode_token verify_type
  verify_mfa_pending_token token = do
    payload ← decode_token token
    verify_type mfa_pending_token_type "Not an MFA pending token" payload

  unfoldable pub verify_access_token : String → Exec String
  unfolding decode_token verify_type
  verify_access_token token = do
    payload ← decode_token token
    verify_type access_token_type "Not an access token" payload

  abbrev pub blacklist_key : String → String
  blacklist_key token = "token_blacklist:" ++ token

  -- Redis being down means that the token is let through.
  unfoldable pub is_token_blacklisted : String → Exec Bool
  unfolding get_value
  is_token_blacklisted token =
      except (do result ← get_value (blacklist_key token); pure (is_some result)) (pure false)

  unfoldable pub verify_refresh_token : String → Exec String
  unfolding is_token_blacklisted decode_token verify_type
  verify_refresh_token token = do
    revoked ← is_token_blacklisted token
    if revoked then throw (jwt_error "Token has been revoked") else do
      payload ← decode_token token
      verify_type refresh_token_type "Not a refresh token" payload

  -- `max(0, exp - now)`, or the fallback where `exp` is missing or 0
  unfoldable pub expires_in : Option ℕ → ℕ → ℕ
  expires_in none now = p.settings.refresh_token_expire_days * 24 * 3600
  expires_in (some zero) now = p.settings.refresh_token_expire_days * 24 * 3600
  expires_in (some (suc n)) now = suc n - now

  unfoldable pub revoke_refresh_token : String → Exec (Unit {0})
  unfolding decode_token expires_in set_with_ttl
  revoke_refresh_token token =
      except
        (do
          payload ← decode_token token
          now ← get_now
          let ttl = expires_in payload.exp now
          if ltb 0 ttl then set_with_ttl (blacklist_key token) "revoked" ttl else pure tt)
        (pure tt)

  unfoldable pub generate_secure_token : Exec String
  generate_secure_token = draw p.token_urlsafe

  unfoldable pub hash_token : String → String
  hash_token token = p.sha256_hex token

  unfoldable pub verify_token_hash : String → String → Bool
  unfolding hash_token
  verify_token_hash token hashed = hash_token token == hashed
