-- ===== src/Routes/Addresses.antt =====
-- The address that `github_callback` of app/api/v1/endpoints/oauth.py goes on with.
use saas_backend_fastapi.Prelude.{◌≡◌, true, false, List, ◌∷◌}
use saas_backend_fastapi.Prelude.Rows.{All}
use mathlib.Core.List.{◌++◌}
use saas_backend_fastapi.Errors.{ok}
use saas_backend_fastapi.Json.{Json}
use saas_backend_fastapi.Platform.{Platform}
use saas_backend_fastapi.World.{World}
use saas_backend_fastapi.Routes.Providers.{is_primary}

-- the first entry of the list that is primary and verified: the entries before it are not
pub record IsFirst (emails : List Json) (entry : Json) (w : World) : Type 0 where
  pub before : List Json
  pub after : List Json
  pub listed : emails ≡ before ++ (entry ∷ after)
  pub passed : All (λ e. is_primary e w ≡ (ok false, w)) before
  pub marked : is_primary entry w ≡ (ok true, w)
