-- ===== src/Validation/Examples.antt =====
-- Passwords that the requests take and refuse, with the letters and digits of ASCII.
use Prim.Native.Char.{Char, code}
use saas_backend_fastapi.Prelude.{◌≡◌, refl, Bool, true, false, ◌&&◌, leb, some}
use saas_backend_fastapi.Text.{is_upper}
use saas_backend_fastapi.Validation.{accepts_password, accepts_new_password, password_strength}

abbrev is_digit : Char → Bool
is_digit c = leb 48 (code c) && leb (code c) 57

strong : accepts_password is_upper is_digit "Secret12" ≡ true
unfolding accepts_password
strong = refl

-- A password that a registration refuses, and that a reset takes.
weak :
    (accepts_password is_upper is_digit "secrets!" ≡ false)
    × (accepts_new_password "secrets!" ≡ true)
unfolding accepts_password accepts_new_password
weak = (refl, refl)

no_digit :
    password_strength is_upper is_digit "Secrets!"
    ≡ some "Password must contain at least one digit."
unfolding password_strength
no_digit = refl
