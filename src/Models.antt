-- ===== src/Models.antt =====
-- app/models: the enumerations, and one record for each table. `created_at` is kept where a query
-- orders by it or a response shows it; `updated_at` is read by no code and left out.
use saas_backend_fastapi.Prelude.{ℕ, String, Bool, true, false, ◌&&◌, ◌||◌, Option, List, ◌==◌}

pub data MemberRole : Type 0 where
  owner admin member viewer : MemberRole

pub data PlanTier : Type 0 where
  free pro enterprise : PlanTier

pub data InvitationStatus : Type 0 where
  pending accepted expired revoked : InvitationStatus

pub data SubscriptionStatus : Type 0 where
  active trialing past_due canceled incomplete : SubscriptionStatus

pub data OAuthProvider : Type 0 where
  local google github : OAuthProvider

-- the `value` of each member of the enumerations
unfoldable pub role_value : MemberRole → String
role_value owner = "owner"
role_value admin = "admin"
role_value member = "member"
role_value viewer = "viewer"

unfoldable pub plan_value : PlanTier → String
plan_value free = "free"
plan_value pro = "pro"
plan_value enterprise = "enterprise"

unfoldable pub invitation_status_value : InvitationStatus → String
invitation_status_value pending = "pending"
invitation_status_value accepted = "accepted"
invitation_status_value expired = "expired"
invitation_status_value revoked = "revoked"

abbrev pub is_owner : MemberRole → Bool
is_owner owner = true
is_owner _ = false

abbrev pub is_free : PlanTier → Bool
is_free free = true
is_free _ = false

abbrev pub is_pending : InvitationStatus → Bool
is_pending pending = true
is_pending _ = false

abbrev pub same_provider : OAuthProvider → OAuthProvider → Bool
same_provider local local = true
same_provider google google = true
same_provider github github = true
same_provider _ _ = false

pub record User : Type 0 where
  pub id : String
  pub email : String
  pub hashed_password : Option String
  pub full_name : Option String
  pub avatar_url : Option String
  pub is_active : Bool
  pub is_superuser : Bool
  pub is_verified : Bool
  pub verification_token : Option String
  pub reset_token : Option String
  pub oauth_provider : OAuthProvider
  pub oauth_provider_id : Option String
  pub mfa_enabled : Bool
  pub mfa_secret : Option String
  pub created_at : ℕ

pub record Organization : Type 0 where
  pub id : String
  pub name : String
  pub slug : String
  pub logo_url : Option String
  pub plan : PlanTier
  pub paystack_customer_id : Option String
  pub created_at : ℕ

pub record Membership : Type 0 where
  pub id : String
  pub user_id : String
  pub organization_id : String
  pub role : MemberRole
  pub created_at : ℕ

-- `role` is a text column that always holds `role.value`
pub record Invitation : Type 0 where
  pub id : String
  pub organization_id : String
  pub email : String
  pub role : MemberRole
  pub token : String
  pub invited_by_id : Option String
  pub status : InvitationStatus
  pub expires_at : ℕ
  pub created_at : ℕ

pub record Subscription : Type 0 where
  pub id : String
  pub organization_id : String
  pub paystack_sub_code : String
  pub paystack_plan_code : String
  pub status : SubscriptionStatus
  pub current_period_start : ℕ
  pub current_period_end : ℕ
  pub cancel_at_period_end : Bool
  pub canceled_at : Option ℕ

pub record Notification : Type 0 where
  pub id : String
  pub user_id : String
  pub title : String
  pub body : String
  pub link : Option String
  pub is_read : Bool
  pub read_at : Option ℕ
  pub meta : Option (List (String × String))
  pub created_at : ℕ

pub record AuditLog : Type 0 where
  pub id : String
  pub organization_id : Option String
  pub user_id : Option String
  pub action : String
  pub resource_type : Option String
  pub resource_id : Option String
  pub ip_address : Option String
  pub user_agent : Option String
  pub meta : Option (List (String × String))
  pub created_at : ℕ

-- The UNIQUE constraints, the primary keys included: the row `new` clashes with the row `old`.
-- `paystack_customer_id` is UNIQUE too, and NULL in every new organization.
unfoldable pub user_clash : User → User → Bool
user_clash new old = old.id == new.id || old.email == new.email

unfoldable pub organization_clash : Organization → Organization → Bool
organization_clash new old = old.id == new.id || old.slug == new.slug

unfoldable pub membership_clash : Membership → Membership → Bool
membership_clash new old =
    old.id == new.id || (old.user_id == new.user_id && old.organization_id == new.organization_id)

unfoldable pub invitation_clash : Invitation → Invitation → Bool
invitation_clash new old = old.id == new.id || old.token == new.token

unfoldable pub subscription_clash : Subscription → Subscription → Bool
subscription_clash new old =
    old.id == new.id
    || old.organization_id == new.organization_id
    || old.paystack_sub_code == new.paystack_sub_code
