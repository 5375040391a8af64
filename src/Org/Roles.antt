-- ===== src/Org/Roles.antt =====
-- Who may act: `_require_role` of app/services/org_service.py.
use saas_backend_fastapi.Prelude.{◌≤◌, String, ◌≡◌, ap, ◌↔◌, arith, [], ◌∷◌}
use saas_backend_fastapi.Prelude.Rows.{select}
use saas_backend_fastapi.Errors.{ok}
use saas_backend_fastapi.Models.{MemberRole, Membership}
use saas_backend_fastapi.World.{Database, World, scalar_one_or_none}
use saas_backend_fastapi.Policy.{rank}
use saas_backend_fastapi.Policy.Laws.{ensure_role_iff}
use saas_backend_fastapi.Repositories.Memberships
use saas_backend_fastapi.Org.{require_role}

-- `m` is the one membership of the user in the organization.
abbrev pub IsMember : String → String → Database → Membership → Type 0
IsMember user_id org_id db m =
    select (Memberships.of_user_in_org user_id org_id) db.memberships ≡ m ∷ []

-- The user is a member whose role ranks no lower than `min_role`.
pub record Holds (user_id org_id : String) (min_role : MemberRole) (db : Database) : Type 0 where
  pub membership : Membership
  pub single : IsMember user_id org_id db membership
  pub ranked : rank min_role ≤ rank membership.role

module _ (user_id org_id : String) (min_role : MemberRole) (w : World) where
  -- The check reads the database and writes nothing.
  pub require_role_pure : (require_role user_id org_id min_role w).1 ≡ w
  unfolding require_role
  require_role_pure = ground arith

  pub require_role_sound :
      (m : Membership)
      → (require_role user_id org_id min_role w).0 ≡ ok m
      → IsMember user_id org_id w.db m × (rank min_role ≤ rank m.role)
  unfolding require_role Memberships.get_by_user_and_org scalar_one_or_none
  require_role_sound m h = ground (arith, (ensure_role_iff m min_role).0)

  pub require_role_complete :
      (m : Membership)
      → IsMember user_id org_id w.db m
      → rank min_role ≤ rank m.role
      → require_role user_id org_id min_role w ≡ (ok m, w)
  unfolding require_role Memberships.get_by_user_and_org scalar_one_or_none
  require_role_complete m e r = ground (arith, (ensure_role_iff m min_role).1 r)

-- `_require_role` returns a membership exactly when that is the one membership of the user in the
-- organization and its role ranks no lower than the minimum; it leaves the world as it was.
pub require_role_iff :
    (user_id org_id : String) (min_role : MemberRole) (w : World) (m : Membership)
    → (require_role user_id org_id min_role w ≡ (ok m, w))
      ↔ (IsMember user_id org_id w.db m × (rank min_role ≤ rank m.role))
require_role_iff user_id org_id min_role w m = (
  λ h. require_role_sound user_id org_id min_role w m (ap (λ x. x.0) h),
  λ h. require_role_complete user_id org_id min_role w m h.0 h.1,
)

-- For use in the proofs of the methods: a check that passed.
pub require_role-Holds :
    (user_id org_id : String) (min_role : MemberRole) (w : World) (m : Membership)
    → (require_role user_id org_id min_role w).0 ≡ ok m
    → Holds user_id org_id min_role w.db
require_role-Holds user_id org_id min_role w m h =
    let (single, ranked) = require_role_sound user_id org_id min_role w m h in
    record { membership = m; single = single; ranked = ranked }
