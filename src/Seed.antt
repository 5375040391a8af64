-- ===== src/Seed.antt =====
-- src/scripts/seed.py: the rows of a development database, in one session.
mod Examples
use saas_backend_fastapi.Prelude.{ℕ, String, Bool, true, false, none, some}
use saas_backend_fastapi.Models.{
  User, Organization, Membership, MemberRole, owner, member, free, local,
}
use saas_backend_fastapi.Platform.{Platform}
use saas_backend_fastapi.World.{Exec, pure, draw, get_now, get_db, ◌>>=◌, ◌>>◌}
use saas_backend_fastapi.Security.{hash_password}
use saas_backend_fastapi.Repositories.Users
use saas_backend_fastapi.Repositories.Organizations
use saas_backend_fastapi.Repositories.Memberships

abbrev pub seeded_user : String → String → String → String → Bool → ℕ → User
seeded_user id email hashed full_name is_superuser now = record {
  id = id;
  email = email;
  hashed_password = some hashed;
  full_name = some full_name;
  avatar_url = none;
  is_active = true;
  is_superuser = is_superuser;
  is_verified = true;
  verification_token = none;
  reset_token = none;
  oauth_provider = local;
  oauth_provider_id = none;
  mfa_enabled = false;
  mfa_secret = none;
  created_at = now;
}

module _ (p : Platform) where
  unfoldable pub add_user : String → String → String → Bool → Exec User
  add_user email password full_name is_superuser = do
    id ← draw p.ulid
    hashed ← hash_password p password
    now ← get_now
    let user : User = seeded_user id email hashed full_name is_superuser now
    Users.create user
    pure user

  unfoldable pub add_membership : String → String → MemberRole → Exec (Unit {0})
  add_membership user_id organization_id role = do
    id ← draw p.ulid
    now ← get_now
    Memberships.create (record {
      id = id;
      user_id = user_id;
      organization_id = organization_id;
      role = role;
      created_at = now;
    })

  unfoldable pub add_organization : String → String → Exec Organization
  add_organization name slug = do
    id ← draw p.ulid
    now ← get_now
    let org : Organization = record {
      id = id;
      name = name;
      slug = slug;
      logo_url = none;
      plan = free;
      paystack_customer_id = none;
      created_at = now;
    }
    Organizations.create org
    pure org

  unfoldable pub seed : Exec (Unit {0})
  unfolding add_user add_membership add_organization
  seed = do
    administrator ← add_user "admin@example.com" "Admin1234!" "Admin User" true
    regular ← add_user "member@example.com" "Member1234!" "Regular Member" false
    org ← add_organization "Acme Corp" "acme-corp"
    add_membership administrator.id org.id owner
    add_membership regular.id org.id member

  -- the session commits at its end, or nothing is written
  unfoldable pub run : Exec (Unit {0})
  unfolding seed
  run = get_db seed
