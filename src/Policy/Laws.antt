-- ===== src/Policy/Laws.antt =====
-- The role hierarchy of app/services/membership_policy.py, and what the plans of
-- app/core/permissions.py allow.
use saas_backend_fastapi.Prelude.{ℕ, ◌≤◌, ◌<◌, String, ◌≡◌, refl, ◌↔◌, true, arith}
use saas_backend_fastapi.Errors.{ok}
use saas_backend_fastapi.Models.{
  MemberRole, owner, admin, member, viewer, Membership, PlanTier, free, pro, enterprise,
}
use saas_backend_fastapi.Policy.{
  rank, ensure_role, can_manage_members, assert_member_limit, assert_feature_available,
}

pub ensure_role_iff :
    (m : Membership) (r : MemberRole) → (ensure_role m r ≡ ok tt) ↔ (rank r ≤ rank m.role)
unfolding ensure_role
ensure_role_iff m r = (λ h. ground arith, λ h. ground arith)

-- The check of a minimum role passes exactly for the roles that rank no lower, and the order of
-- the ranks is VIEWER < MEMBER < ADMIN < OWNER. Managing members takes ADMIN.
pub role_hierarchy :
    (m : Membership) (r : MemberRole)
    → ((ensure_role m r ≡ ok tt) ↔ (rank r ≤ rank m.role))
      × ((can_manage_members m ≡ true) ↔ (ensure_role m admin ≡ ok tt))
      × (rank viewer < rank member)
      × (rank member < rank admin)
      × (rank admin < rank owner)
unfolding can_manage_members ensure_role
role_hierarchy m r = (
  ensure_role_iff m r,
  (λ h. ground arith, λ h. ground arith),
  omega arith,
  omega arith,
  omega arith,
)

-- the order of the plans
abbrev pub tier : PlanTier → ℕ
tier free = 0
tier pro = 1
tier enterprise = 2

-- What a plan allows every higher plan allows too: the number of members, and each feature.
pub upgrade_keeps :
    (p q : PlanTier) (count : ℕ) (feature : String)
    → tier p ≤ tier q
    → (assert_member_limit p count ≡ ok tt → assert_member_limit q count ≡ ok tt)
      × (assert_feature_available p feature ≡ ok tt → assert_feature_available q feature ≡ ok tt)
unfolding assert_member_limit assert_feature_available
upgrade_keeps p q count feature h = (λ k. ground arith, λ k. ground arith)

-- The number of members at which each plan refuses another one: 5, 50 and none.
pub member_limits :
    (count : ℕ)
    → ((assert_member_limit free count ≡ ok tt) ↔ (count < 5))
      × ((assert_member_limit pro count ≡ ok tt) ↔ (count < 50))
      × (assert_member_limit enterprise count ≡ ok tt)
unfolding assert_member_limit
member_limits count =
    ((λ h. ground arith, λ h. ground arith), (λ h. ground arith, λ h. ground arith), refl)
