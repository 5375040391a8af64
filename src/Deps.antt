-- ===== src/Deps.antt =====
-- app/api/deps.py: who a request is from, and the gates of the routes. A request is its bearer
-- token, where it has one. `get_current_org` and what follows come after `get_current_user`.
mod Examples
pub mod Sessions
use saas_backend_fastapi.Prelude.{
  ℕ, String, Bool, not, Option, none, some, List, [], ◌∷◌, ltb, leb, if◌then◌else◌, truthy,
}
use saas_backend_fastapi.Errors.{unauthorized, forbidden, not_found}
use saas_backend_fastapi.Models.{User, Organization, Membership, MemberRole}
use saas_backend_fastapi.Config.{role_rank}
use saas_backend_fastapi.Text.{before_comma, strip}
use saas_backend_fastapi.Platform.{Platform}
use saas_backend_fastapi.World.{Exec, pure, raise, query, or_raise, raise_if, ◌>>=◌, ◌>>◌}
use saas_backend_fastapi.Security.{jwt_errors_as, verify_access_token, verify_mfa_pending_token}
use saas_backend_fastapi.Repositories.Users
use saas_backend_fastapi.Repositories.Organizations
use saas_backend_fastapi.Repositories.Memberships

-- the common end of the two functions that find a user by token
unfoldable pub active_user : String → Exec User
active_user user_id = do
  found ← query (Users.get_by_id user_id)
  user ← or_raise (unauthorized "User not found.") found
  raise_if (not user.is_active) (unauthorized "Account is inactive.")
  pure user

module _ (p : Platform) where
  unfoldable pub get_current_user : Option String → Exec User
  get_current_user none = raise (unauthorized "Not authenticated.")
  get_current_user (some credentials) = do
    user_id ←
        jwt_errors_as (unauthorized "Invalid or expired token.") (verify_access_token p credentials)
    active_user user_id

  unfoldable pub get_mfa_pending_user : Option String → Exec User
  get_mfa_pending_user none = raise (unauthorized "Not authenticated.")
  get_mfa_pending_user (some credentials) = do
    user_id ←
        jwt_errors_as (unauthorized "Invalid or expired MFA pending token.")
          (verify_mfa_pending_token p credentials)
    active_user user_id

unfoldable pub get_verified_user : User → Exec User
get_verified_user current_user = do
  raise_if (not current_user.is_verified)
      (forbidden "Please verify your email address before continuing.")
  pure current_user

unfoldable pub get_superuser : User → Exec User
get_superuser current_user = do
  raise_if (not current_user.is_superuser) (forbidden "Superuser access required.")
  pure current_user

unfoldable pub get_current_org : String → Exec Organization
get_current_org org_id = do
  found ← query (Organizations.get_by_id org_id)
  or_raise (not_found "Organization") found

unfoldable pub get_org_member : Organization → User → Exec Membership
get_org_member org current_user = do
  found ← query (Memberships.get_by_user_and_org current_user.id org.id)
  or_raise (forbidden "You are not a member of this organization.") found

-- `max(project.role_rank[r.name] for r in roles)`, with at least one role
unfoldable pub required_rank : MemberRole → List MemberRole → ℕ
unfolding role_rank
required_rank r [] = role_rank r
required_rank r (s ∷ roles) =
    let rest = required_rank s roles in if leb (role_rank r) rest then rest else role_rank r

unfoldable pub require_org_role : MemberRole → List MemberRole → Membership → Exec Membership
unfolding required_rank role_rank
require_org_role r roles membership = do
  raise_if (ltb (role_rank membership.role) (required_rank r roles))
      (forbidden "You do not have sufficient permissions.")
  pure membership

-- the header X-Forwarded-For and the address of the peer
unfoldable pub get_client_ip : Option String → Option String → Option String
get_client_ip none host = host
get_client_ip (some forwarded) host =
    if truthy (some forwarded) then some (strip (before_comma forwarded)) else host
