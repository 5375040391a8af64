-- ===== src/Org/Deletion.antt =====
-- `delete` of app/services/org_service.py: when it succeeds, and what it takes along.
use saas_backend_fastapi.Prelude.{
  Bool-cases, inl, inr, ◌↔◌, ◌∙◌, sym, ap, String, ◌==◌, ◌≡◌, Bool, true, false, arith, [],
}
use saas_backend_fastapi.Prelude.Rows.{select, any, select-delete_self}
use saas_backend_fastapi.Errors.{ok, err, integrity_error}
use saas_backend_fastapi.Models.{Invitation, Subscription, User, Organization, owner}
use saas_backend_fastapi.World.{World}
use saas_backend_fastapi.World.Laws.{Result-cases}
use saas_backend_fastapi.Repositories.Organizations
use saas_backend_fastapi.Org.{require_role, delete}
use saas_backend_fastapi.Org.Roles.{Holds, require_role-Holds, require_role_complete}
use saas_backend_fastapi.Org.Lifecycle.{in_org}

abbrev pub subscribes : String → Subscription → Bool
subscribes org_id s = s.organization_id == org_id

module _ (org : Organization) (actor : User) (w : World) where
  delete_complete :
      Holds actor.id org.id owner w.db
      → any (subscribes org.id) w.db.subscriptions ≡ false
      → delete org actor w ≡ (ok tt, record w { db = Organizations.purge org.id w.db })
  unfolding delete Organizations.delete
  delete_complete h none_left =
      let passed = require_role_complete actor.id org.id owner w h.membership h.single h.ranked in
      ground arith

  -- Where a subscription row refers to the organization, even a cancelled one, the deletion by an
  -- OWNER raises an integrity error (a 500) and changes nothing.
  pub delete_blocked :
      Holds actor.id org.id owner w.db
      → any (subscribes org.id) w.db.subscriptions ≡ true
      → delete org actor w ≡ (err integrity_error, w)
  unfolding delete Organizations.delete
  delete_blocked h some_left =
      let passed = require_role_complete actor.id org.id owner w h.membership h.single h.ranked in
      ground arith

  delete-Holds : (w' : World) → delete org actor w ≡ (ok tt, w') → Holds actor.id org.id owner w.db
  unfolding delete
  delete-Holds w' h = elim (Result-cases (require_role actor.id org.id owner w).0) [
    | inl (a, s) ↦ require_role-Holds actor.id org.id owner w a s
    | inr (x, s) ↦ absurd (ground arith)
  ]

-- A deletion goes through exactly when the actor is an OWNER and no subscription row refers to the
-- organization. The organization is then gone, with its memberships and its invitations.
pub delete_iff :
    (org : Organization) (actor : User) (w w' : World)
    → ((delete org actor w ≡ (ok tt, w')) ↔ (
        Holds actor.id org.id owner w.db
        × (any (subscribes org.id) w.db.subscriptions ≡ false)
        × (w' ≡ record w { db = Organizations.purge org.id w.db })))
      × (select (Organizations.by_id org.id) (Organizations.purge org.id w.db).organizations ≡ [])
      × (select (in_org org.id) (Organizations.purge org.id w.db).memberships ≡ [])
      × (select
            (λ (i : Invitation). i.organization_id == org.id)
            (Organizations.purge org.id w.db).invitations
          ≡ [])
unfolding Organizations.purge
delete_iff org actor w w' = (
  (
    λ h.
        let holds = delete-Holds org actor w w' h in
        elim (Bool-cases (any (subscribes org.id) w.db.subscriptions)) [
          | inl blocks ↦
              let blocked = delete_blocked org actor w holds blocks in absurd (ground arith)
          | inr unused ↦
              (holds, unused, ap (λ x. x.1) (sym h ∙ delete_complete org actor w holds unused))
        ],
    λ (holds, unused, after).
        delete_complete org actor w holds unused ∙ ap (λ x. (ok tt, x)) (sym after),
  ),
  select-delete_self (Organizations.by_id org.id) w.db.organizations,
  select-delete_self (in_org org.id) w.db.memberships,
  select-delete_self (λ i. i.organization_id == org.id) w.db.invitations,
)
