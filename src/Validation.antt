-- ===== src/Validation.antt =====
-- The validation of requests in app/schemas/auth.py and of the settings in app/config.py. What
-- an uppercase letter and a digit of Unicode are is a parameter; whether a text is an e-mail address
-- is not looked at.
mod Examples
use Prim.Native.Char.{Char}
use Prim.Native.String.{[], ◌∷◌}
use saas_backend_fastapi.Prelude.{
  ℕ, zero, suc, String, Bool, true, false, not, ◌&&◌, ◌||◌, Option, none, some, leb, ltb,
  if◌then◌else◌,
}
use saas_backend_fastapi.Config.{PasswordConfig, password_config}
use saas_backend_fastapi.Text.{size}

-- `any(test(c) for c in s)`
unfoldable pub any_char : (Char → Bool) → String → Bool
any_char test [] = false
any_char test (c ∷ s) = test c || any_char test s

-- `RegisterRequest.password_strength`: the error, if there is one. `str.isupper` and `str.isdigit` are
-- those of Unicode, whichever that is.
unfoldable pub password_strength : (Char → Bool) → (Char → Bool) → String → Option String
unfolding any_char
password_strength isupper isdigit v =
    if password_config.require_uppercase && not (any_char isupper v)
    then some "Password must contain at least one uppercase letter."
    else if password_config.require_digit && not (any_char isdigit v)
    then some "Password must contain at least one digit."
    else none

-- `Field(min_length=..., max_length=...)`
unfoldable pub has_length : ℕ → ℕ → String → Bool
has_length min_length max_length v = leb min_length (size v) && leb (size v) max_length

abbrev passes : Option String → Bool
passes none = true
passes (some error) = false

-- the password of `RegisterRequest`
unfoldable pub accepts_password : (Char → Bool) → (Char → Bool) → String → Bool
unfolding password_strength has_length
accepts_password isupper isdigit v =
    has_length password_config.min_length password_config.max_length v
    && passes (password_strength isupper isdigit v)

-- the new password of `PasswordResetConfirm`
unfoldable pub accepts_new_password : String → Bool
unfolding has_length
accepts_new_password v = has_length password_config.min_length password_config.max_length v

-- the name of `RegisterRequest`
unfoldable pub accepts_full_name : Option String → Bool
accepts_full_name none = true
accepts_full_name (some v) = leb (size v) 255

-- `Settings.secret_key_must_be_strong`
unfoldable pub secret_key_must_be_strong : String → Option String
secret_key_must_be_strong v =
    if ltb (size v) 32 then some "APP_SECRET_KEY must be at least 32 characters" else none
