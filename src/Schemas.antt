-- ===== src/Schemas.antt =====
-- app/schemas/auth.py: the requests and responses that are more than one text. Validation, which
-- pydantic does, is left out.
use saas_backend_fastapi.Prelude.{ℕ, String, Option}
use saas_backend_fastapi.Models.{User}

pub record RegisterRequest : Type 0 where
  pub email : String
  pub password : String
  pub full_name : Option String

pub record TokenPair : Type 0 where
  pub access_token : String
  pub refresh_token : String
  pub token_type : String

-- `LoginSuccess | MfaPendingResponse`
pub data LoginResult : Type 0 where
  login_success : TokenPair → Option User → LoginResult
  mfa_pending_response : String → ℕ → LoginResult
