-- ===== src/Application/Examples.antt =====
-- The log of requests, and the application in production.
use saas_backend_fastapi.Prelude.{◌≡◌, refl, none, some, [], ◌∷◌}
use saas_backend_fastapi.Config.{production}
use saas_backend_fastapi.Application.{warning, error, dispatch, create_app}
use saas_backend_fastapi.Samples.{settings}

not_logged : dispatch "/api/v1/health" 500 ≡ none
unfolding dispatch
not_logged = refl

logged : (dispatch "/api/v1/users" 500 ≡ some error) × (dispatch "/api/v1/users" 404 ≡ some warning)
unfolding dispatch
logged = (refl, refl)

in_production :
    ((create_app (record settings { app_env = production })).docs_url ≡ none)
    × ((create_app (record settings { app_env = production })).allow_origins
        ≡ "http://localhost:3000" ∷ [])
unfolding create_app
in_production = (refl, refl)
