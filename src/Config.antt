-- ===== src/Config.antt =====
-- app/config.py: the hardcoded constants of `ProjectConfig` that the modelled code reads, and the
-- settings that come from the environment.
use saas_backend_fastapi.Prelude.{
  ℕ, ◌*◌, String, Bool, true, false, Option, none, some, List, [], ◌∷◌,
}
use saas_backend_fastapi.Models.{
  MemberRole, owner, admin, member, viewer, PlanTier, free, pro, enterprise,
}

-- `role_rank`
unfoldable pub role_rank : MemberRole → ℕ
role_rank viewer = 0
role_rank member = 1
role_rank admin = 2
role_rank owner = 3

pub record PlanLimitEntry : Type 0 where
  pub max_members : Option ℕ
  pub max_projects : Option ℕ
  pub audit_log_retention_days : ℕ
  pub mfa_required : Bool
  pub sso_enabled : Bool
  pub priority_support : Bool

-- `PlanLimitsConfig`
unfoldable pub plan_limits : PlanTier → PlanLimitEntry
plan_limits free = record {
  max_members = some 5;
  max_projects = some 3;
  audit_log_retention_days = 7;
  mfa_required = false;
  sso_enabled = false;
  priority_support = false;
}
plan_limits pro = record {
  max_members = some 50;
  max_projects = none;
  audit_log_retention_days = 90;
  mfa_required = false;
  sso_enabled = false;
  priority_support = true;
}
plan_limits enterprise = record {
  max_members = none;
  max_projects = none;
  audit_log_retention_days = 365;
  mfa_required = true;
  sso_enabled = true;
  priority_support = true;
}

-- `ExpiryConfig.invitation_days`, in seconds
abbrev pub invitation_seconds : ℕ
invitation_seconds = 7 * 24 * 3600

-- `MfaConfig.pending_expires_in_seconds`
abbrev pub pending_expires_in_seconds : ℕ
pending_expires_in_seconds = 300

-- `JwtConfig`
abbrev pub access_token_type : String
access_token_type = "access"

abbrev pub refresh_token_type : String
refresh_token_type = "refresh"

abbrev pub mfa_pending_token_type : String
mfa_pending_token_type = "mfa_pending"

abbrev pub token_type : String
token_type = "bearer"

-- `GoogleOAuthConfig` and `GithubOAuthConfig`: what the redirects are made of
abbrev pub google_auth_url : String
google_auth_url = "https://accounts.google.com/o/oauth2/v2/auth"

abbrev pub google_scope : String
google_scope = "openid email profile"

abbrev pub google_access_type : String
google_access_type = "offline"

abbrev pub github_auth_url : String
github_auth_url = "https://github.com/login/oauth/authorize"

abbrev pub github_scope : String
github_scope = "read:user user:email"

-- `PasswordConfig`
pub record PasswordConfig : Type 0 where
  pub min_length : ℕ
  pub max_length : ℕ
  pub require_uppercase : Bool
  pub require_digit : Bool

abbrev pub password_config : PasswordConfig
password_config = record {
  min_length = 8;
  max_length = 128;
  require_uppercase = true;
  require_digit = true;
}

-- `PaginationConfig`
abbrev pub default_limit : ℕ
default_limit = 20

abbrev pub max_limit : ℕ
max_limit = 100

-- `api_prefix`
abbrev pub api_prefix : String
api_prefix = "/api/v1"

-- `Environment`
pub data Environment : Type 0 where
  development staging production : Environment

-- `CorsConfig`
abbrev pub cors_methods : List String
cors_methods = "GET" ∷ "POST" ∷ "PUT" ∷ "PATCH" ∷ "DELETE" ∷ "OPTIONS" ∷ []

abbrev pub cors_allowed_headers : List String
cors_allowed_headers = "Content-Type" ∷ "Authorization" ∷ "X-Request-ID" ∷ []

-- `LoggingConfig.ignore_paths`
abbrev pub ignore_paths : List String
ignore_paths = "/api/v1/health" ∷ "/api/v1/ready" ∷ "/favicon.ico" ∷ []

-- `version`, and `rate_limit_period`
abbrev pub version : String
version = "1.0.0"

abbrev pub rate_limit_period : String
rate_limit_period = "minute"

-- `Settings`: what the environment gives
pub record Settings : Type 0 where
  pub app_name : String
  pub app_env : Environment
  pub app_secret_key : String
  pub app_base_url : String
  pub frontend_url : String
  pub access_token_expire_minutes : ℕ
  pub refresh_token_expire_days : ℕ
  pub google_client_id : String
  pub github_client_id : String
  pub resend_api_key : String
  pub rate_limit_per_minute : ℕ
  pub paystack_webhook_secret : String
  pub paystack_pro_plan_code : String
  pub paystack_enterprise_plan_code : String
