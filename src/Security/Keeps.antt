-- ===== src/Security/Keeps.antt =====
-- app/core/security.py, app/lib/redis.py and app/lib/email.py do not write to the database.
use saas_backend_fastapi.Prelude.{ℕ, String, arith}
use saas_backend_fastapi.Platform.{Platform, Claims}
use saas_backend_fastapi.World.{Database, Mail, password_reset_email, welcome_email}
use saas_backend_fastapi.World.Keeps.{
  Keeps, Keeps-silent, Keeps-pure, Keeps-throw, Keeps-draw, Keeps-get_now, Keeps-if, Keeps-bind,
  Keeps-except,
}
use saas_backend_fastapi.RedisClient.{get_value, set_with_ttl}
use saas_backend_fastapi.Security.{
  generate_secure_token, hash_password, create_token, create_mfa_pending_token, decode_token,
  verify_type, subject_of, is_token_blacklisted, verify_refresh_token, revoke_refresh_token,
  blacklist_key,
}
use saas_backend_fastapi.Mailer.{send, send_password_reset_email, send_welcome_email}

module _ {P : Database → Type 0} where
  pub Keeps-get_value : (key : String) → Keeps P (get_value key)
  Keeps-get_value key = Keeps-silent (get_value key) λ w. unfold get_value in ground arith

  pub Keeps-set_with_ttl : (key value : String) (ttl : ℕ) → Keeps P (set_with_ttl key value ttl)
  Keeps-set_with_ttl key value ttl =
      Keeps-silent (set_with_ttl key value ttl) λ w. unfold set_with_ttl in ground arith

module _ {P : Database → Type 0} (p : Platform) where
  pub Keeps-generate_secure_token : Keeps P (generate_secure_token p)
  unfolding generate_secure_token
  Keeps-generate_secure_token = Keeps-draw p.token_urlsafe

  pub Keeps-hash_password : (password : String) → Keeps P (hash_password p password)
  unfolding hash_password
  Keeps-hash_password password = record { at = λ w h. h }

  pub Keeps-create_mfa_pending_token :
      (subject : String) → Keeps P (create_mfa_pending_token p subject)
  unfolding create_mfa_pending_token create_token
  Keeps-create_mfa_pending_token subject = record { at = λ w h. h }

  Keeps-decode_token : (token : String) → Keeps P (decode_token p token)
  Keeps-decode_token token =
      Keeps-silent (decode_token p token) λ w. unfold decode_token in ground arith

  Keeps-verify_type :
      (type message : String) (payload : Claims) → Keeps P (verify_type p type message payload)
  Keeps-verify_type type message payload =
      Keeps-silent (verify_type p type message payload)
        λ w. unfold verify_type subject_of in ground arith

  pub Keeps-verify_refresh_token : (token : String) → Keeps P (verify_refresh_token p token)
  unfolding verify_refresh_token is_token_blacklisted
  Keeps-verify_refresh_token token =
      Keeps-bind
        (Keeps-except (Keeps-bind (Keeps-get_value (blacklist_key p token)) λ result. Keeps-pure _)
          (Keeps-pure _))
        λ revoked.
          Keeps-if revoked (Keeps-throw _)
            (Keeps-bind (Keeps-decode_token token) λ payload. Keeps-verify_type _ _ payload)

  pub Keeps-revoke_refresh_token : (token : String) → Keeps P (revoke_refresh_token p token)
  unfolding revoke_refresh_token
  Keeps-revoke_refresh_token token =
      Keeps-except
        (Keeps-bind (Keeps-decode_token token) λ payload.
          Keeps-bind Keeps-get_now λ now. Keeps-if _ (Keeps-set_with_ttl _ _ _) (Keeps-pure _))
        (Keeps-pure _)

  Keeps-send : (mail : Mail) → Keeps P (send p mail)
  Keeps-send mail = Keeps-silent (send p mail) λ w. unfold send in ground arith

  pub Keeps-send_password_reset_email :
      (to token : String) → Keeps P (send_password_reset_email p to token)
  unfolding send_password_reset_email
  Keeps-send_password_reset_email to token = Keeps-send (password_reset_email to token)

  pub Keeps-send_welcome_email :
      (to full_name : String) → Keeps P (send_welcome_email p to full_name)
  unfolding send_welcome_email
  Keeps-send_welcome_email to full_name = Keeps-send (welcome_email to full_name)
