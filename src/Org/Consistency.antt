-- ===== src/Org/Consistency.antt =====
-- The UNIQUE constraints of `memberships` under the statements of app/services/org_service.py.
use saas_backend_fastapi.Prelude.{String, Bool, true, false, ◌==◌, ◌≡◌, refl, arith, eq_iff}
use saas_backend_fastapi.Prelude.Rows.{
  insert, any, update_where, delete_where, one_updated, one_deleted, one_inserted,
}
use saas_backend_fastapi.Models.{MemberRole, Membership, membership_clash}
use saas_backend_fastapi.World.{Database}
use saas_backend_fastapi.Repositories.Memberships
use saas_backend_fastapi.Org.Members.{with_role}
use saas_backend_fastapi.Org.Spec.{IsConsistent}

id_clashes :
    (new old : Membership) (i : String)
    → (new.id == i) ≡ true
    → (old.id == i) ≡ true
    → membership_clash new old ≡ true
unfolding membership_clash
id_clashes new old i h k = ground (arith, eq_iff new.id i, eq_iff old.id i, eq_iff old.id new.id)

pub pair_clashes :
    (new old : Membership) (u o : String)
    → Memberships.of_user_in_org u o new ≡ true
    → Memberships.of_user_in_org u o old ≡ true
    → membership_clash new old ≡ true
unfolding membership_clash
pair_clashes new old u o h k = ground (
  arith,
  eq_iff new.user_id u,
  eq_iff old.user_id u,
  eq_iff old.user_id new.user_id,
  eq_iff new.organization_id o,
  eq_iff old.organization_id o,
  eq_iff old.organization_id new.organization_id,
)

module _ (db : Database) (known : IsConsistent db) where
  pub IsConsistent-unchanged :
      (db' : Database) → db'.memberships ≡ db.memberships → IsConsistent db'
  IsConsistent-unchanged db' e = record {
    ids = λ i. rw e (known.ids i);
    pairs = λ u o. rw e (known.pairs u o);
  }

  pub IsConsistent-updated :
      (id : String) (role : MemberRole) (db' : Database)
      → db'.memberships ≡ update_where (λ m. m.id == id) (with_role role) db.memberships
      → IsConsistent db'
  IsConsistent-updated id role db' e = record {
    ids = λ i. rw e (
        one_updated (λ m. m.id == i) db.memberships (λ m. m.id == id) (with_role role) (λ m. refl)
          (known.ids i));
    pairs = λ u o. rw e (
        one_updated (Memberships.of_user_in_org u o) db.memberships (λ m. m.id == id)
          (with_role role) (λ m. refl) (known.pairs u o));
  }

  pub IsConsistent-deleted :
      (q : Membership → Bool) (db' : Database)
      → db'.memberships ≡ delete_where q db.memberships
      → IsConsistent db'
  IsConsistent-deleted q db' e = record {
    ids = λ i. rw e (one_deleted (λ m. m.id == i) db.memberships q (known.ids i));
    pairs = λ u o.
        rw e (one_deleted (Memberships.of_user_in_org u o) db.memberships q (known.pairs u o));
  }

  pub IsConsistent-inserted :
      (new : Membership) (db' : Database)
      → any (membership_clash new) db.memberships ≡ false
      → db'.memberships ≡ insert new db.memberships
      → IsConsistent db'
  IsConsistent-inserted new db' fresh e = record {
    ids = λ i. rw e (
        one_inserted (λ m. m.id == i) db.memberships (membership_clash new) new
          (λ h m k. id_clashes new m i h k) fresh (known.ids i));
    pairs = λ u o. rw e (
        one_inserted (Memberships.of_user_in_org u o) db.memberships (membership_clash new) new
          (λ h m k. pair_clashes new m u o h k) fresh (known.pairs u o));
  }
