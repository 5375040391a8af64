-- ===== src/Security/Tokens.antt =====
-- The three kinds of JWT of app/core/security.py, and their verifiers.
use saas_backend_fastapi.Prelude.{
  ℕ, ◌+◌, ◌*◌, ◌≤◌, String, ◌≡◌, refl, Bool, true, false, some, arith, if◌then◌else◌,
}
use saas_backend_fastapi.Errors.{ok, err, jwt_error}
use saas_backend_fastapi.Config.{
  access_token_type, refresh_token_type, mfa_pending_token_type, pending_expires_in_seconds,
}
use saas_backend_fastapi.Platform.{Platform, Claims, DecodesJwt}
use saas_backend_fastapi.World.{World, Exec}
use saas_backend_fastapi.Security.{
  create_mfa_pending_token, create_access_token, create_refresh_token, verify_mfa_pending_token,
  verify_access_token, verify_refresh_token, is_token_blacklisted,
}

pub data Kind : Type 0 where
  access refresh mfa_pending : Kind

abbrev pub same_kind : Kind → Kind → Bool
same_kind access access = true
same_kind refresh refresh = true
same_kind mfa_pending mfa_pending = true
same_kind _ _ = false

abbrev pub issue : Platform → Kind → String → Exec String
issue p access = create_access_token p
issue p refresh = create_refresh_token p
issue p mfa_pending = create_mfa_pending_token p

abbrev pub verify : Platform → Kind → String → Exec String
verify p access = verify_access_token p
verify p refresh = verify_refresh_token p
verify p mfa_pending = verify_mfa_pending_token p

-- how long a token lives, in seconds
abbrev pub lifetime : Platform → Kind → ℕ
lifetime p access = p.settings.access_token_expire_minutes * 60
lifetime p refresh = p.settings.refresh_token_expire_days * 24 * 3600
lifetime p mfa_pending = pending_expires_in_seconds

abbrev pub refusal : Kind → String
refusal access = "Not an access token"
refusal refresh = "Not a refresh token"
refusal mfa_pending = "Not an MFA pending token"

abbrev pub type_of : Kind → String
type_of access = access_token_type
type_of refresh = refresh_token_type
type_of mfa_pending = mfa_pending_token_type

abbrev pub claims : Platform → Kind → String → ℕ → Claims
claims p k s now = record { sub = some s; type = some (type_of k); exp = some (now + lifetime p k) }

module _ (p : Platform) where
  pub issue-claims :
      (k : Kind) (s : String) (w : World) {t : String}
      → (issue p k s w).0 ≡ ok t
      → t ≡ p.jwt_encode (claims p k s w.now) p.settings.app_secret_key
  unfolding create_access_token create_refresh_token create_mfa_pending_token
  issue-claims access s w h = ground arith
  issue-claims refresh s w h = ground arith
  issue-claims mfa_pending s w h = ground arith

  -- A token that decodes to the claims of kind `k`, at a verifier of kind `k'`.
  verify_decoded :
      (k k' : Kind) (s t : String) (now : ℕ) (w : World)
      → p.jwt_decode w.now t p.settings.app_secret_key ≡ some (claims p k s now)
      → (is_token_blacklisted p t w) ≡ (ok false, w)
      → (verify p k' t w).0 ≡ (if same_kind k k' then ok s else err (jwt_error (refusal k')))
  unfolding verify_access_token verify_mfa_pending_token verify_refresh_token
  verify_decoded access access s t now w d b = ground arith
  verify_decoded _ _ s t now w d b = ground arith

  -- A token of one kind, presented while it lives and not on the blacklist, gives back its subject
  -- to the verifier of its own kind, and is refused by the other two.
  pub token_kinds_apart :
      DecodesJwt p
      → (k k' : Kind) (s t : String) (w w' : World) → (issue p k s w).0 ≡ ok t
      → w'.now ≤ w.now + lifetime p k
      → is_token_blacklisted p t w' ≡ (ok false, w')
      → (verify p k' t w').0 ≡ (if same_kind k k' then ok s else err (jwt_error (refusal k')))
  token_kinds_apart jwt k k' s t w w' issued alive listed =
      verify_decoded k k' s t w.now w'
        (rw (issue-claims k s w issued) (
          jwt.valid w'.now (w.now + lifetime p k) (claims p k s w.now) p.settings.app_secret_key
            refl alive))
        listed
