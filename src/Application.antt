-- ===== src/Application.antt =====
-- src/main.py and app/middleware/logging_middleware.py: what the application is configured with, the
-- identifier of a request, and the level at which a request is logged.
pub mod Levels
mod Examples
use mathlib.Core.List.{◌++◌ as append}
use saas_backend_fastapi.Prelude.{
  ℕ, String, ◌++◌, ◌==◌, Bool, true, false, not, Option, none, some, List, [], ◌∷◌, leb,
  if◌then◌else◌,
}
use saas_backend_fastapi.Prelude.Rows.{any}
use saas_backend_fastapi.Config.{
  Settings, Environment, production, version, cors_methods, cors_allowed_headers, ignore_paths,
  rate_limit_period,
}
use saas_backend_fastapi.Text.{decimal}

-- `Settings.is_production`
abbrev pub is_production : Environment → Bool
is_production production = true
is_production _ = false

abbrev pub cors_dev_origins : List String
cors_dev_origins =
    "http://localhost:3000" ∷ "http://localhost:5173" ∷ "http://127.0.0.1:3000"
    ∷ "http://127.0.0.1:5173" ∷ []

pub record App : Type 0 where
  pub title : String
  pub version : String
  pub docs_url : Option String
  pub redoc_url : Option String
  pub openapi_url : Option String
  pub allow_origins : List String
  pub allow_credentials : Bool
  pub allow_methods : List String
  pub allow_headers : List String
  pub default_limits : List String
  pub prefix : String

abbrev pub unless_production : Settings → String → Option String
unless_production settings url = if is_production settings.app_env then none else some url

-- `create_app`
unfoldable pub create_app : Settings → App
create_app settings = record {
  title = settings.app_name;
  version = version;
  docs_url = unless_production settings "/docs";
  redoc_url = unless_production settings "/redoc";
  openapi_url = unless_production settings "/openapi.json";
  allow_origins = append (settings.frontend_url ∷ []) (
      if is_production settings.app_env
      then []
      else append (settings.app_base_url ∷ []) cors_dev_origins);
  allow_credentials = true;
  allow_methods = cors_methods;
  allow_headers = cors_allowed_headers;
  default_limits = (decimal settings.rate_limit_per_minute ++ ("/" ++ rate_limit_period)) ∷ [];
  prefix = "/api";
}

-- `request_id_middleware`: the header of the response
abbrev pub request_id : Option String → String → String
request_id none uuid = uuid
request_id (some header) uuid = header

pub data Level : Type 0 where
  info warning error : Level

-- `RequestLoggingMiddleware.dispatch`
unfoldable pub log_level : ℕ → Level
log_level status_code =
    if leb 500 status_code then error else if leb 400 status_code then warning else info

unfoldable pub dispatch : String → ℕ → Option Level
unfolding log_level any
dispatch path status_code =
    if any (λ ignored. ignored == path) ignore_paths then none else some (log_level status_code)
