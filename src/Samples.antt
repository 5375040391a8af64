-- ===== src/Samples.antt =====
-- Data for the tests and examples: a platform that runs, and small databases.
pub mod Codec
use saas_backend_fastapi.Prelude.{
  ℕ, ◌+◌, ◌*◌, Option, String, ◌++◌, ◌==◌, Bool, true, false, none, some, [], ◌∷◌, List,
  if◌then◌else◌,
}
use saas_backend_fastapi.Models.{
  User, Organization, Membership, Invitation, Subscription, MemberRole, owner, admin, member,
  viewer, pro, free, local, pending, accepted, active,
}
use saas_backend_fastapi.Config.{Settings, development}
use saas_backend_fastapi.Json.{Json, null, scalar, text, object, no_members, with_member}
use saas_backend_fastapi.Platform.{Platform, Response}
use saas_backend_fastapi.World.{Database, World, Redis}
use Codec.{encode, decode}

abbrev pub settings : Settings
settings = record {
  app_name = "App";
  app_env = development;
  app_secret_key = "secret";
  app_base_url = "http://localhost:8000";
  frontend_url = "http://localhost:3000";
  access_token_expire_minutes = 30;
  refresh_token_expire_days = 30;
  google_client_id = "google";
  github_client_id = "github";
  resend_api_key = "";
  rate_limit_per_minute = 60;
  paystack_webhook_secret = "phrase";
  paystack_pro_plan_code = "PLN_pro";
  paystack_enterprise_plan_code = "PLN_ent";
}

abbrev pub charge_event : Json
charge_event = object (
    with_member "event" (text "charge.success") (
      with_member "data"
        (object (
          with_member "metadata"
            (object (
              with_member "organization_id" (text "acme")
                (with_member "plan" (text "enterprise") no_members)))
            no_members))
        no_members))

-- the answers of the OAuth providers
abbrev granted_token : Response
granted_token = record {
  status_code = 200;
  body = object (with_member "access_token" (text "oauth") no_members);
}

abbrev google_answer : Response
google_answer = record {
  status_code = 200;
  body = object (with_member "sub" (text "g1") (with_member "email" (text "ann@x.io") no_members));
}

-- a profile without a public address
abbrev pub github_answer : Json
github_answer = object (
    with_member "id" (scalar true)
      (with_member "email" null (with_member "name" (text "Eve") no_members)))

abbrev address : String → Bool → Json
address email verified = object (
    with_member "email" (text email)
      (with_member "primary" (scalar true) (with_member "verified" (scalar verified) no_members)))

abbrev pub github_list : List Json
github_list = address "old@x.io" false ∷ address "eve@x.io" true ∷ []

abbrev stored : String → String
stored pw = if pw == "" then "empty" else pw

-- the events that the examples use, by name
abbrev parsed : String → Option Json
parsed s = if s == "charge" then some charge_event else none

abbrev pub platform : Platform
platform = record {
  settings = settings;
  sha256_hex = λ s. "#" ++ s;
  hmac_hex = λ k s. k ++ s;
  gensalt = λ n. "salt";
  hashpw = λ pw salt. stored pw;
  checkpw = λ pw hashed. stored pw == hashed;
  ulid = λ n. "new";
  token_urlsafe = λ n. "fresh";
  random_base32 = λ n. "base32";
  totp_verify = λ secret code now. secret == code;
  jwt_encode = encode;
  jwt_decode = decode;
  slugify = λ s. s;
  json_loads = parsed;
  from_isoformat = λ s. some 99;
  months_later = λ now months. now + months * 2592000;
  str_of = λ v. "value";
  str_of_plan = λ plan. "plan";
  paystack_initializes = λ email code callback reference org_id. none;
  paystack_verifies = λ reference. none;
  paystack_disables = λ code token. true;
  google_token = λ code redirect. granted_token;
  google_userinfo = λ token. google_answer;
  github_token = λ code redirect. granted_token;
  github_user = λ token. github_answer;
  github_emails = λ token. github_list;
}

abbrev pub person : String → String → User
person id email = record {
  id = id;
  email = email;
  hashed_password = some "#password";
  full_name = none;
  avatar_url = none;
  is_active = true;
  is_superuser = false;
  is_verified = true;
  verification_token = none;
  reset_token = none;
  oauth_provider = local;
  oauth_provider_id = none;
  mfa_enabled = false;
  mfa_secret = none;
  created_at = 0;
}

abbrev pub ann : User
ann = person "ann" "ann@x.io"

abbrev pub bob : User
bob = person "bob" "bob@x.io"

abbrev pub eve : User
eve = person "eve" "eve@x.io"

abbrev pub acme : Organization
acme = record {
  id = "acme";
  name = "Acme";
  slug = "acme";
  logo_url = none;
  plan = pro;
  paystack_customer_id = none;
  created_at = 0;
}

abbrev pub joins : String → String → MemberRole → Membership
joins id user_id role = record {
  id = id;
  user_id = user_id;
  organization_id = "acme";
  role = role;
  created_at = 0;
}

abbrev pub for_eve : Invitation
for_eve = record {
  id = "inv";
  organization_id = "acme";
  email = "eve@x.io";
  role = member;
  token = "#invite";
  invited_by_id = some "ann";
  status = pending;
  expires_at = 50;
  created_at = 0;
}

abbrev pub office : Database
office = record {
  users = ann ∷ bob ∷ eve ∷ [];
  organizations = acme ∷ [];
  memberships = joins "m1" "ann" owner ∷ joins "m2" "bob" admin ∷ [];
  invitations = for_eve ∷ [];
  subscriptions = [];
  notifications = [];
  audit_logs = [];
}

abbrev pub at_time : ℕ → Database → World
at_time now db = record {
  db = db;
  redis = record { up = true; entries = [] };
  now = now;
  drawn = 0;
  outbox = [];
  mailer_up = true;
}
