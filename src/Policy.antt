-- ===== src/Policy.antt =====
-- app/services/membership_policy.py and app/core/permissions.py
mod Examples
pub mod Laws
use saas_backend_fastapi.Prelude.{
  ℕ, String, ◌++◌, ◌==◌, Bool, true, false, not, ◌&&◌, Option, none, some, leb, ltb, if◌then◌else◌,
}
use saas_backend_fastapi.Errors.{Result, ok, err, AppError, app, forbidden, payment_required}
use saas_backend_fastapi.Models.{MemberRole, admin, Membership, PlanTier}
use saas_backend_fastapi.Config.{role_rank, plan_limits, PlanLimitEntry}
use saas_backend_fastapi.Text.{decimal}

-- `MembershipPolicy._rank`
unfoldable pub rank : MemberRole → ℕ
unfolding role_rank
rank role = role_rank role

-- `MembershipPolicy.ensure_role`
unfoldable pub ensure_role : Membership → MemberRole → Result (Unit {0})
unfolding rank
ensure_role membership minimum =
    if ltb (rank membership.role) (rank minimum)
    then err (app (forbidden "You do not have sufficient permissions."))
    else ok tt

-- `MembershipPolicy.can_manage_members`
unfoldable pub can_manage_members : Membership → Bool
unfolding rank
can_manage_members membership = leb (rank admin) (rank membership.role)

-- `PlanLimits.for_plan`
unfoldable pub for_plan : PlanTier → PlanLimitEntry
unfolding plan_limits
for_plan plan = plan_limits plan

within_limit : Option ℕ → ℕ → Result (Unit {0})
within_limit none current_count = ok tt
within_limit (some max_members) current_count =
    if leb max_members current_count
    then err (
        app (
          payment_required (
            "Your plan allows a maximum of "
            ++ decimal max_members
            ++ " members. "
            ++ "Upgrade to add more.")))
    else ok tt

unfoldable pub assert_member_limit : PlanTier → ℕ → Result (Unit {0})
unfolding for_plan within_limit
assert_member_limit plan current_count = within_limit (for_plan plan).max_members current_count

-- `feature_map`; a feature that it does not have passes
feature_map : PlanLimitEntry → String → Option Bool
feature_map limits feature =
    if feature == "sso"
    then some limits.sso_enabled
    else if feature == "mfa"
    then some limits.mfa_required
    else if feature == "priority_support"
    then some limits.priority_support
    else none

unavailable : String → Option Bool → Result (Unit {0})
unavailable feature none = ok tt
unavailable feature (some true) = ok tt
unavailable feature (some false) = err (
    app (
      payment_required (
        "The '" ++ feature ++ "' feature is not available on your current plan. "
        ++ "Please upgrade to access it.")))

unfoldable pub assert_feature_available : PlanTier → String → Result (Unit {0})
unfolding for_plan feature_map unavailable
assert_feature_available plan feature = unavailable feature (feature_map (for_plan plan) feature)
