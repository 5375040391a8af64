-- ===== src/Application/Levels.antt =====
-- The level at which app/middleware/logging_middleware.py logs a request that is answered with an
-- error of the application. Any other exception passes through the middleware, without a line.
use saas_backend_fastapi.Prelude.{String, ◌≡◌, refl, false, some, ◌==◌}
use saas_backend_fastapi.Prelude.Rows.{any}
use saas_backend_fastapi.Errors.{
  AppError, not_found, conflict, forbidden, unauthorized, bad_request, unprocessable,
  payment_required, rate_limit, status_code,
}
use saas_backend_fastapi.Config.{ignore_paths}
use saas_backend_fastapi.Application.{warning, log_level, dispatch}

app_level : (e : AppError) → log_level (status_code e) ≡ warning
unfolding log_level status_code
app_level (not_found d) = refl
app_level (conflict d) = refl
app_level (forbidden d) = refl
app_level (unauthorized d) = refl
app_level (bad_request d) = refl
app_level (unprocessable d) = refl
app_level (payment_required d) = refl
app_level rate_limit = refl

-- A request that is answered with an error of the application is logged as a warning, on every path
-- that is not left out of the log.
app_error_level :
    (path : String) (e : AppError)
    → any (λ ignored. ignored == path) ignore_paths ≡ false
    → dispatch path (status_code e) ≡ some warning
unfolding dispatch
app_error_level path e logged = rw logged (λ i. some (app_level e i))
