-- ===== src/Org/Permits.antt =====
-- What the roles of `Spec` decide is what the checks of app/services/org_service.py decide.
use saas_backend_fastapi.Prelude.{
  String, true, ◌||◌, Option, some, ◌==◌, ◌≡◌, refl, ap, sym, ◌∙◌, ◌↔◌, ◌⊎◌, inl, inr, arith,
  Bool-cases, eq_iff,
}
use saas_backend_fastapi.Models.{
  MemberRole, owner, admin, member, viewer, Membership, Organization, User,
}
use saas_backend_fastapi.World.{Database}
use saas_backend_fastapi.Org.Roles.{IsMember, Holds}
use saas_backend_fastapi.Org.Spec.{roles_of, holds_at, may_change, IsConsistent}
use saas_backend_fastapi.Org.View.{role_of_member, IsMember-of_role, holds_at_iff}

may_change-some :
    (a : Option MemberRole) (t : MemberRole)
    → (may_change a (some t) ≡ true)
      ↔ ((holds_at admin a ≡ true) × (t ≡ owner → holds_at owner a ≡ true))
unfolding may_change
may_change-some a owner = (λ h. (ground arith, λ e. ground arith), λ (h, k). ground (arith, k refl))
may_change-some a admin = (λ h. (ground arith, λ e. absurd (cc)), λ (h, k). ground arith)
may_change-some a member = (λ h. (ground arith, λ e. absurd (cc)), λ (h, k). ground arith)
may_change-some a viewer = (λ h. (ground arith, λ e. absurd (cc)), λ (h, k). ground arith)

module _ (db : Database) (known : IsConsistent db) (org : Organization) (target : String)
    (actor : User) where
  -- What the view decides is what the code checks.
  pub may_change_iff :
      (may_change (roles_of db org.id actor.id) (roles_of db org.id target) ≡ true) ↔ (
        Holds actor.id org.id admin db
        × (m : Membership) × IsMember target org.id db m
        × (m.role ≡ owner → Holds actor.id org.id owner db))
  unfolding may_change
  may_change_iff =
      let a = roles_of db org.id actor.id in
      let as_admin = holds_at_iff db actor.id org.id admin known.pairs in
      let as_owner = holds_at_iff db actor.id org.id owner known.pairs in
      (
        λ h. elim (IsMember-of_role db target org.id known.pairs) [
          | inl nobody ↦ absurd (ground arith)
          | inr (m, here) ↦
              let role = role_of_member db target org.id m here in
              let (manages, over) =
                (may_change-some a m.role).0 (sym (ap (may_change a) role) ∙ h) in
              (as_admin.0 manages, m, here, λ e. as_owner.0 (over e))
        ],
        λ (holds, m, here, over).
            ap (may_change a) (role_of_member db target org.id m here)
            ∙ (may_change-some a m.role).1 (as_admin.1 holds, λ e. as_owner.1 (over e)),
      )

  pub may_remove_iff :
      ((actor.id == target || holds_at admin (roles_of db org.id actor.id)) ≡ true)
      ↔ ((actor.id ≡ target) ⊎ Holds actor.id org.id admin db)
  may_remove_iff =
      let as_admin = holds_at_iff db actor.id org.id admin known.pairs in
      let itself = eq_iff actor.id target in
      (
        λ h. elim (Bool-cases (actor.id == target)) [
          | inl e ↦ inl (itself.0 e)
          | inr e ↦ inr (as_admin.0 (ground arith))
        ],
        λ by. elim by [
          | inl e ↦ ground (arith, itself.1 e)
          | inr holds ↦ ground (arith, as_admin.1 holds)
        ],
      )
