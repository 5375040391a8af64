-- ===== src/Platform.antt =====
-- What the application calls and does not implement: hashing (hashlib, hmac, bcrypt), JWT (jose),
-- random identifiers and tokens (ulid, secrets, pyotp), slugify, TOTP, JSON,
-- dates, and the APIs of Paystack and of the OAuth providers. Random draws are
-- functions of a counter. The laws that a theorem needs are hypotheses of that theorem.
use saas_backend_fastapi.Prelude.{ℕ, ◌≤◌, ◌≡◌, String, Bool, true, false, Option, some, List, ◌==◌}
use saas_backend_fastapi.Config.{Settings}
use saas_backend_fastapi.Json.{Json}
use saas_backend_fastapi.Models.{PlanTier}

-- the payload of a JWT: the claims that the application reads
pub record Claims : Type 0 where
  pub sub : Option String
  pub type : Option String
  pub exp : Option ℕ

-- the answer of an OAuth provider
pub record Response : Type 0 where
  pub status_code : ℕ
  pub body : Json

pub record Platform : Type 0 where
  pub settings : Settings
  pub sha256_hex : String → String
  pub hmac_hex : String → String → String  -- secret, payload
  pub gensalt : ℕ → String
  pub hashpw : String → String → String  -- password, salt
  pub checkpw : String → String → Bool  -- password, hash
  pub ulid : ℕ → String
  pub token_urlsafe : ℕ → String
  pub random_base32 : ℕ → String
  pub totp_verify : String → String → ℕ → Bool  -- secret, code, time
  pub jwt_encode : Claims → String → String  -- claims, key
  pub jwt_decode : ℕ → String → String → Option Claims  -- time, token, key
  pub slugify : String → String
  pub json_loads : String → Option Json
  pub from_isoformat : String → Option ℕ  -- of the text with `Z` replaced by `+00:00`
  pub months_later : ℕ → ℕ → ℕ  -- relativedelta: time, months
  pub str_of : Json → String
  pub str_of_plan : PlanTier → String
  pub paystack_initializes : String → String → String → String → String → Option Json
      -- the answer: e-mail, plan code, callback, reference, organization
  pub paystack_verifies : String → Option Json  -- the answer: reference
  pub paystack_disables : String → String → Bool  -- the API accepts: subscription code, token
  pub google_token : String → String → Response  -- code, redirect URI
  pub google_userinfo : Json → Response  -- access token
  pub github_token : String → String → Response
  pub github_user : Json → Json
  pub github_emails : Json → List Json

-- jose: a token is decoded with its key up to and including the second `exp`, and then refused.
pub record DecodesJwt (p : Platform) : Type 0 where
  pub valid :
      (now exp : ℕ) (c : Claims) (key : String)
      → c.exp ≡ some exp
      → now ≤ exp
      → p.jwt_decode now (p.jwt_encode c key) key ≡ some c
  pub lasts :
      (now now' exp : ℕ) (t key : String) (c : Claims)
      → p.jwt_decode now t key ≡ some c
      → c.exp ≡ some exp
      → now ≤ now'
      → now' ≤ exp
      → p.jwt_decode now' t key ≡ some c
  pub stable :
      (now now' : ℕ) (t key : String) (c c' : Claims)
      → p.jwt_decode now t key ≡ some c
      → p.jwt_decode now' t key ≡ some c'
      → c ≡ c'
  pub late :
      (now exp : ℕ) (t key : String) (c : Claims)
      → p.jwt_decode now t key ≡ some c
      → c.exp ≡ some exp
      → now ≤ exp

-- bcrypt: a hash is not empty, and a password checks against its own hash.
pub record ChecksPasswords (p : Platform) : Type 0 where
  pub checks : (pw salt : String) → p.checkpw pw (p.hashpw pw salt) ≡ true
  pub nonempty : (pw salt : String) → (p.hashpw pw salt == "") ≡ false
