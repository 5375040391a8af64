-- ===== src/Org/View.antt =====
-- The view of `memberships` as roles, and how the statements of app/services/org_service.py change
-- it.
use saas_backend_fastapi.Prelude.{
  String, true, false, ◌&&◌, Option, none, some, ◌==◌, ◌≡◌, ◌≢◌, refl, ap, sym, ◌∙◌, ◌↔◌, ◌⊎◌, inl,
  inr, arith, Bool-cases, eq_iff, eq_refl, leb→le,
}
use saas_backend_fastapi.Prelude.Rows.{
  select, insert, any, delete_where, select-insert_alone, select-insert_miss, select-delete_within,
  select-delete_other, select_none_of_any, short-cases,
}
use saas_backend_fastapi.Models.{MemberRole, Membership, membership_clash}
use saas_backend_fastapi.Policy.{rank}
use saas_backend_fastapi.World.{Database}
use saas_backend_fastapi.Repositories.Memberships
use saas_backend_fastapi.Org.Roles.{IsMember, Holds}
use saas_backend_fastapi.Org.Lifecycle.{in_org}
use saas_backend_fastapi.Org.Consistency.{pair_clashes}
use saas_backend_fastapi.Org.Spec.{
  Roles, role_in, roles_of, assign, dissolve, holds_at, PairsAreUnique,
}

pub role_of_member :
    (db : Database) (u o : String) (m : Membership)
    → IsMember u o db m
    → roles_of db o u ≡ some m.role
role_of_member db u o m h = ap role_in h

-- A role in the view is the role of the one row.
pub IsMember-of_role :
    (db : Database) (u o : String)
    → PairsAreUnique db
    → (roles_of db o u ≡ none) ⊎ ((m : Membership) × IsMember u o db m)
IsMember-of_role db u o unique =
    elim (short-cases (select (Memberships.of_user_in_org u o) db.memberships) (unique u o)) [
      | inl e ↦ inl (ap role_in e)
      | inr found ↦ inr found
    ]

pub holds_at_iff :
    (db : Database) (u o : String) (minimum : MemberRole)
    → PairsAreUnique db
    → (holds_at minimum (roles_of db o u) ≡ true) ↔ Holds u o minimum db
unfolding holds_at
holds_at_iff db u o minimum unique = (
  λ h. elim (IsMember-of_role db u o unique) [
    | inl nobody ↦ absurd (ground arith)
    | inr (m, here) ↦ record {
      membership = m;
      single = here;
      ranked =
          leb→le (rank minimum) (rank m.role)
            (sym (ap (holds_at minimum) (role_of_member db u o m here)) ∙ h);
    }
  ],
  λ h.
      let here = role_of_member db u o h.membership h.single in
      ap (holds_at minimum) here ∙ ground (arith, h.ranked),
)

-- Two views that agree at one pair and everywhere else.
pub roles_ext :
    (u o : String) (r r' : Roles)
    → r' o u ≡ r o u
    → ((u' o' : String) → (u' ≢ u) ⊎ (o' ≢ o) → r' o' u' ≡ r o' u')
    → r' ≡ r
roles_ext u o r r' here there i o' u' = pointwise i
  where
    pointwise : r' o' u' ≡ r o' u'
    pointwise = elim (Bool-cases (u' == u)) [
      | inl same_user ↦ elim (Bool-cases (o' == o)) [
        | inl same_org ↦
            ap (λ x. r' o' x) ((eq_iff u' u).0 same_user)
            ∙ ap (λ x. r' x u) ((eq_iff o' o).0 same_org)
            ∙ here
            ∙ ap (λ x. r x u) (sym ((eq_iff o' o).0 same_org))
            ∙ ap (λ x. r o' x) (sym ((eq_iff u' u).0 same_user))
        | inr other ↦ there u' o' (inr (λ e. ground (arith, eq_iff o' o)))
      ]
      | inr other ↦ there u' o' (inl (λ e. ground (arith, eq_iff u' u)))
    ]

assign_other : (u o u' o' : String) → (u' ≢ u) ⊎ (o' ≢ o) → (u' == u && o' == o) ≡ false
assign_other u o u' o' other = ground (arith, eq_iff u' u, eq_iff o' o)

-- A view that changes at one pair only is an assignment.
pub roles_assign :
    (u o : String) (role : Option MemberRole) (r r' : Roles)
    → r' o u ≡ role
    → ((u' o' : String) → (u' ≢ u) ⊎ (o' ≢ o) → r' o' u' ≡ r o' u')
    → r' ≡ assign o u role r
roles_assign u o role r r' here there =
    roles_ext u o (assign o u role r) r' (here ∙ rw (eq_refl u, eq_refl o) refl)
      (λ u' o' other. there u' o' other ∙ rw (assign_other u o u' o' other) refl)

module _ (db db' : Database) where
  pub roles_unchanged : db'.memberships ≡ db.memberships → roles_of db' ≡ roles_of db
  roles_unchanged e i o u = role_in (select (Memberships.of_user_in_org u o) (e i))

  pub roles_inserted :
      (new : Membership)
      → any (membership_clash new) db.memberships ≡ false
      → db'.memberships ≡ insert new db.memberships
      → (roles_of db new.organization_id new.user_id ≡ none)
        × (roles_of db' ≡ assign new.organization_id new.user_id (some new.role) (roles_of db))
  roles_inserted new fresh e =
      let test = Memberships.of_user_in_org new.user_id new.organization_id in
      let own : test new ≡ true =
        ground (arith, eq_refl new.user_id, eq_refl new.organization_id) in
      let absent =
        select_none_of_any (membership_clash new) test db.memberships
          (λ m h. pair_clashes new m new.user_id new.organization_id own h) fresh in
      (
        ap role_in absent,
        roles_assign new.user_id new.organization_id (some new.role) (roles_of db) (roles_of db')
            (ap (λ l. role_in (select test l)) e
              ∙ ap role_in (select-insert_alone test new db.memberships own absent))
            (λ u' o' other.
              let test' = Memberships.of_user_in_org u' o' in
              let miss : test' new ≡ false =
                ground (arith, eq_iff new.user_id u', eq_iff new.organization_id o') in
              ap (λ l. role_in (select test' l)) e
              ∙ ap role_in (select-insert_miss test' new db.memberships miss)),
      )

  dissolved_at :
      (org_id o u : String)
      → db'.memberships ≡ delete_where (in_org org_id) db.memberships
      → roles_of db' o u ≡ dissolve org_id (roles_of db) o u
  dissolved_at org_id o u e =
      let test = Memberships.of_user_in_org u o in
      elim (Bool-cases (o == org_id)) [
        | inl same ↦
            ap (λ l. role_in (select test l)) e
            ∙ ap role_in (
                select-delete_within test (in_org org_id)
                  (λ m h. ground (
                    arith,
                    eq_iff m.organization_id o,
                    eq_iff o org_id,
                    eq_iff m.organization_id org_id,
                  ))
                  db.memberships)
            ∙ rw same refl
        | inr other ↦
            ap (λ l. role_in (select test l)) e
            ∙ ap role_in (
                select-delete_other test (in_org org_id)
                  (λ m h. ground (
                    arith,
                    eq_iff m.organization_id o,
                    eq_iff o org_id,
                    eq_iff m.organization_id org_id,
                  ))
                  db.memberships)
            ∙ rw other refl
      ]

  pub roles_dissolved :
      (org_id : String)
      → db'.memberships ≡ delete_where (in_org org_id) db.memberships
      → roles_of db' ≡ dissolve org_id (roles_of db)
  roles_dissolved org_id e i o u = dissolved_at org_id o u e i
