-- ===== src/Routes/Providers.antt =====
-- app/api/v1/endpoints/oauth.py: the redirects to Google and GitHub, and their callbacks. The
-- answers of the providers are parameters; what the code takes for a text in them and is none
-- raises.
use saas_backend_fastapi.Prelude.{
  String, ◌++◌, Bool, not, ◌&&◌, Option, none, some, List, [], ◌∷◌, ◌==◌, leb, if◌then◌else◌,
}
use saas_backend_fastapi.Errors.{bad_request, value_error}
use saas_backend_fastapi.Models.{google, github}
use saas_backend_fastapi.Config.{
  api_prefix, google_auth_url, google_scope, google_access_type, github_auth_url, github_scope,
}
use saas_backend_fastapi.Json.{Json, null, text, get_or, as_column, is_truthy}
use saas_backend_fastapi.Platform.{Platform, Response}
use saas_backend_fastapi.Schemas.{TokenPair}
use saas_backend_fastapi.World.{Exec, pure, throw, raise_if, ◌>>=◌, ◌>>◌}
use saas_backend_fastapi.Checkout.{item}
use saas_backend_fastapi.Auth

-- `"&".join(f"{k}={v}" for k, v in params.items())`
unfoldable pub joined : List (String × String) → String
joined [] = ""
joined ((k, v) ∷ []) = k ++ ("=" ++ v)
joined ((k, v) ∷ kv ∷ kvs) = k ++ ("=" ++ (v ++ ("&" ++ joined (kv ∷ kvs))))

unfoldable pub as_text : Json → Exec String
as_text (text s) = pure s
as_text _ = throw value_error

abbrev ok_status : Response → Bool
ok_status r = leb r.status_code 200 && leb 200 r.status_code

-- `next((e for e in emails if e.get("primary") and e.get("verified")), None)`
unfoldable pub is_primary : Json → Exec Bool
is_primary entry = do
  primary ← get_or null "primary" entry
  verified ← get_or null "verified" entry
  pure (is_truthy primary && is_truthy verified)

unfoldable pub first_primary : List Json → Exec (Option Json)
unfolding is_primary
first_primary [] = pure none
first_primary (e ∷ es) =
    let rest = first_primary es in do found ← is_primary e; if found then pure (some e) else rest

-- `primary["email"] if primary else None`
unfoldable pub email_of : Option Json → Exec Json
email_of none = pure null
email_of (some primary) = item "email" primary

module _ (p : Platform) where
  abbrev google_redirect_uri : String
  google_redirect_uri = p.settings.app_base_url ++ (api_prefix ++ "/auth/oauth/google/callback")

  abbrev github_redirect_uri : String
  github_redirect_uri = p.settings.app_base_url ++ (api_prefix ++ "/auth/oauth/github/callback")

  unfoldable pub google_login : Exec String
  unfolding joined
  google_login = do
    raise_if (p.settings.google_client_id == "") (bad_request "Google OAuth is not configured.")
    pure (
        google_auth_url
        ++ ("?"
            ++ joined (
                ("client_id", p.settings.google_client_id)
                ∷ ("redirect_uri", google_redirect_uri)
                ∷ ("response_type", "code")
                ∷ ("scope", google_scope)
                ∷ ("access_type", google_access_type)
                ∷ [])))

  unfoldable pub google_callback : String → Exec TokenPair
  unfolding as_text
  google_callback code = do
    let token_res = p.google_token code google_redirect_uri
    raise_if (not (ok_status token_res)) (bad_request "Failed to exchange Google auth code.")
    access_token ← get_or null "access_token" token_res.body
    let userinfo_res = p.google_userinfo access_token
    raise_if (not (ok_status userinfo_res)) (bad_request "Failed to fetch Google user info.")
    sub ← item "sub" userinfo_res.body
    email ← item "email" userinfo_res.body
    name ← get_or null "name" userinfo_res.body
    picture ← get_or null "picture" userinfo_res.body
    provider_id ← as_text sub
    address ← as_text email
    full_name ← as_column name
    avatar_url ← as_column picture
    Auth.oauth_login_or_register p google provider_id address full_name avatar_url

  unfoldable pub github_login : Exec String
  unfolding joined
  github_login = do
    raise_if (p.settings.github_client_id == "") (bad_request "GitHub OAuth is not configured.")
    pure (
        github_auth_url
        ++ ("?"
            ++ joined (
                ("client_id", p.settings.github_client_id)
                ∷ ("redirect_uri", github_redirect_uri)
                ∷ ("scope", github_scope)
                ∷ [])))

  -- the address of the profile, or the primary one that is verified
  unfoldable pub github_email : Json → Json → Exec Json
  unfolding first_primary email_of
  github_email access_token user_data = do
    email ← get_or null "email" user_data
    if is_truthy email
        then pure email
        else (do primary ← first_primary (p.github_emails access_token); email_of primary)

  unfoldable pub github_callback : String → Exec TokenPair
  unfolding as_text github_email
  github_callback code = do
    let token_res = p.github_token code github_redirect_uri
    raise_if (not (ok_status token_res)) (bad_request "Failed to exchange GitHub auth code.")
    access_token ← get_or null "access_token" token_res.body
    let user_data = p.github_user access_token
    email ← github_email access_token user_data
    raise_if (not (is_truthy email))
        (bad_request "Could not retrieve a verified email from GitHub.")
    id ← item "id" user_data
    name ← get_or null "name" user_data
    avatar ← get_or null "avatar_url" user_data
    address ← as_text email
    full_name ← as_column name
    avatar_url ← as_column avatar
    Auth.oauth_login_or_register p github (p.str_of id) address full_name avatar_url
