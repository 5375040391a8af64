-- ===== src/Responses.antt =====
-- app/schemas/user.py and app/schemas/organization.py: what the responses show of the rows. The
-- rows of a relationship are those that the foreign key gives.
pub mod Memberships
use mathlib.Core.List.{◌++◌}
use saas_backend_fastapi.Prelude.{ℕ, String, Bool, Option, none, some, List, [], ◌∷◌, ◌==◌}
use saas_backend_fastapi.Prelude.Rows.{length, select}
use saas_backend_fastapi.Models.{User, Organization, Membership, MemberRole, PlanTier}
use saas_backend_fastapi.World.{Database}
use saas_backend_fastapi.Repositories.Organizations

pub record UserOrgResponse : Type 0 where
  pub id : String
  pub name : String
  pub slug : String
  pub logo_url : Option String
  pub plan : PlanTier
  pub role : MemberRole
  pub created_at : ℕ

pub record UserResponse : Type 0 where
  pub id : String
  pub email : String
  pub full_name : Option String
  pub avatar_url : Option String
  pub is_verified : Bool
  pub is_active : Bool
  pub mfa_enabled : Bool
  pub created_at : ℕ
  pub organizations : List UserOrgResponse

pub record OrgResponse : Type 0 where
  pub id : String
  pub name : String
  pub slug : String
  pub logo_url : Option String
  pub plan : PlanTier
  pub member_count : ℕ
  pub created_at : ℕ

pub record MembershipResponse : Type 0 where
  pub user_id : String
  pub organization_id : String
  pub role : MemberRole
  pub created_at : ℕ
  pub name : Option String
  pub email : Option String
  pub avatar_url : Option String

abbrev pub user_org_response : MemberRole → Organization → UserOrgResponse
user_org_response role o = record {
  id = o.id;
  name = o.name;
  slug = o.slug;
  logo_url = o.logo_url;
  plan = o.plan;
  role = role;
  created_at = o.created_at;
}

-- `m.organization` of one membership, where there is one
unfoldable pub with_role : MemberRole → List Organization → List UserOrgResponse
with_role role [] = []
with_role role (o ∷ os) = user_org_response role o ∷ with_role role os

-- `UserResponse.load_organizations`
unfoldable pub load_organizations : List Organization → List Membership → List UserOrgResponse
unfolding with_role
load_organizations orgs [] = []
load_organizations orgs (m ∷ ms) =
    with_role m.role (select (Organizations.by_id m.organization_id) orgs)
    ++ load_organizations orgs ms

unfoldable pub user_response : Database → User → UserResponse
unfolding load_organizations
user_response db u = record {
  id = u.id;
  email = u.email;
  full_name = u.full_name;
  avatar_url = u.avatar_url;
  is_verified = u.is_verified;
  is_active = u.is_active;
  mfa_enabled = u.mfa_enabled;
  created_at = u.created_at;
  organizations =
      load_organizations db.organizations (select (λ m. m.user_id == u.id) db.memberships);
}

-- `member_count` is the number of the memberships
unfoldable pub org_response : Database → Organization → OrgResponse
org_response db o = record {
  id = o.id;
  name = o.name;
  slug = o.slug;
  logo_url = o.logo_url;
  plan = o.plan;
  member_count = length (select (λ m. m.organization_id == o.id) db.memberships);
  created_at = o.created_at;
}

-- the response of `list_members` and `update_member_role`, whose user may be missing
unfoldable pub membership_response : Membership → Option User → MembershipResponse
membership_response m found = record {
  user_id = m.user_id;
  organization_id = m.organization_id;
  role = m.role;
  created_at = m.created_at;
  name = elim found [ none ↦ none | some u ↦ u.full_name ];
  email = elim found [ none ↦ none | some u ↦ some u.email ];
  avatar_url = elim found [ none ↦ none | some u ↦ u.avatar_url ];
}
