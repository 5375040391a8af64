-- ===== src/Org/Lifecycle.antt =====
-- `create` of app/services/org_service.py: what a new organization and its owner are.
use saas_backend_fastapi.Prelude.{
  Bool-cases, inl, inr, ◌∙◌, sym, ap, suc, String, ◌==◌, ◌≡◌, Bool, true, false, arith, refl, none,
  [], leb, ◌&&◌, if◌then◌else◌, eq_iff, eq_refl, &&-eq-true,
}
use saas_backend_fastapi.Prelude.Rows.{
  select, insert, any, select-insert_alone, any-insert_self, any-or, any_imp, length, length-insert,
  select-insert, select-eq-nil_iff_any,
}
use saas_backend_fastapi.Errors.{ok, err, data_error}
use saas_backend_fastapi.Models.{
  Membership, User, Organization, owner, free, organization_clash, membership_clash,
}
use native.Mathlib.Nat.{le_refl}
use saas_backend_fastapi.Text.{size}
use saas_backend_fastapi.Policy.{rank}
use saas_backend_fastapi.Platform.{Platform}
use saas_backend_fastapi.World.{Database, World, insert_row}
use saas_backend_fastapi.Repositories.Users
use saas_backend_fastapi.Repositories.Organizations
use saas_backend_fastapi.Repositories.Memberships
use saas_backend_fastapi.Org.{unique_slug, create}
use saas_backend_fastapi.Org.Roles.{Holds}
use saas_backend_fastapi.Org.Slug.{SlugsAreUnique, unique_slug_total}

-- the rows that `create` writes
abbrev pub new_organization : Platform → String → String → World → Organization
new_organization p name slug w = record {
  id = p.ulid w.drawn;
  name = name;
  slug = slug;
  logo_url = none;
  plan = free;
  paystack_customer_id = none;
  created_at = w.now;
}

abbrev pub new_owner : Platform → User → Organization → World → Membership
new_owner p creator org w = record {
  id = p.ulid (suc w.drawn);
  user_id = creator.id;
  organization_id = org.id;
  role = owner;
  created_at = w.now;
}

pair_clashes :
    (new old : Membership)
    → Memberships.of_user_in_org new.user_id new.organization_id old ≡ true
    → membership_clash new old ≡ true
unfolding membership_clash
pair_clashes new old h = ground arith

create_organization_ok :
    (o : Organization) (w : World)
    → Organizations.fits o ≡ true
    → any (organization_clash o) w.db.organizations ≡ false
    → Organizations.create o w
      ≡ (ok tt, record w { db = record w.db { organizations = insert o w.db.organizations } })
unfolding Organizations.create insert_row
create_organization_ok o w fit h = rw (fit, h) refl

create_organization_long :
    (o : Organization) (w : World)
    → Organizations.fits o ≡ false
    → Organizations.create o w ≡ (err data_error, w)
unfolding Organizations.create
create_organization_long o w long = rw long refl

create_membership_ok :
    (m : Membership) (w : World)
    → Users.exists m.user_id w.db ≡ true
    → Organizations.exists m.organization_id w.db ≡ true
    → any (membership_clash m) w.db.memberships ≡ false
    → Memberships.create m w
      ≡ (ok tt, record w { db = record w.db { memberships = insert m w.db.memberships } })
unfolding Memberships.create insert_row
create_membership_ok m w u o h = ground arith

module _ (p : Platform) (name : String) (creator : User) (w : World) where
  -- the world after `create`
  abbrev pub created : String → World
  created slug = record w {
    db = record w.db {
      organizations = insert (new_organization p name slug w) w.db.organizations;
      memberships =
          insert (new_owner p creator (new_organization p name slug w) w) w.db.memberships;
    };
    drawn = suc (suc w.drawn);
  }

  create_steps :
      (slug : String)
      → Organizations.fits (new_organization p name slug w) ≡ true
      → unique_slug (p.slugify name) w.db ≡ ok slug
      → Users.exists creator.id w.db ≡ true
      → any (organization_clash (new_organization p name slug w)) w.db.organizations ≡ false
      → any
          (membership_clash (new_owner p creator (new_organization p name slug w) w))
          w.db.memberships
        ≡ false
      → create p name creator w ≡ (ok (new_organization p name slug w), created slug)
  unfolding create
  create_steps slug fit e known free_org free_member =
      let org = new_organization p name slug w in
      let w1 = record w { drawn = suc w.drawn } in
      let w2 = record w {
        drawn = suc (suc w.drawn);
        db = record w.db { organizations = insert org w.db.organizations };
      } in
      ground (
        arith,
        create_organization_ok org w1 fit free_org,
        create_membership_ok (new_owner p creator org w) w2 (unfold Users.exists in known)
            (unfold Organizations.exists in
              any-insert_self (Organizations.by_id org.id) org w.db.organizations (eq_refl org.id))
            free_member,
      )

  create_refused :
      (slug : String)
      → Organizations.fits (new_organization p name slug w) ≡ false
      → unique_slug (p.slugify name) w.db ≡ ok slug
      → create p name creator w ≡ (err data_error, record w { drawn = suc w.drawn })
  unfolding create
  create_refused slug long e =
      let org = new_organization p name slug w in
      ground (arith, create_organization_long org (record w { drawn = suc w.drawn }) long)

abbrev pub in_org : String → Membership → Bool
in_org org_id m = m.organization_id == org_id

slug_kept_unique :
    (db : Database) (o : Organization)
    → SlugsAreUnique db
    → select (Organizations.by_slug o.slug) db.organizations ≡ []
    → SlugsAreUnique (record db { organizations = insert o db.organizations })
slug_kept_unique db o unique unused s =
    rw (select-insert (Organizations.by_slug s) o db.organizations)
      (elim (Bool-cases (o.slug == s)) [
        | inl same ↦ rw same (
            omega (
              arith,
              length-insert o (select (Organizations.by_slug s) db.organizations),
              ap length (
                  ap (λ t. select (Organizations.by_slug t) db.organizations)
                    (sym ((eq_iff o.slug s).0 same))
                  ∙ unused),
            ))
        | inr other ↦ rw other (unique s)
      ])

-- What `create` does for a user who exists, while slugs are unique and the two drawn identifiers are
-- new. There is a slug that is not in use such that, where the name and this slug have 255 characters
-- at most, the organization is created under it, on the FREE plan, slugs stay unique, and the creator
-- is its OWNER; where one of them is longer, the database refuses the row and nothing is written.
pub create_makes_owner :
    (p : Platform) (name : String) (creator : User) (w : World)
    → SlugsAreUnique w.db
    → Users.exists creator.id w.db ≡ true
    → any (Organizations.by_id (p.ulid w.drawn)) w.db.organizations ≡ false
    → any (in_org (p.ulid w.drawn)) w.db.memberships ≡ false
    → any (λ (m : Membership). m.id == p.ulid (suc w.drawn)) w.db.memberships ≡ false
    → (slug : String) × (select (Organizations.by_slug slug) w.db.organizations ≡ [])
      × (create p name creator w ≡ (
          if leb (size name) 255 && leb (size slug) 255
          then (ok (new_organization p name slug w), created p name creator w slug)
          else (err data_error, record w { drawn = suc w.drawn })))
      × SlugsAreUnique (created p name creator w slug).db
      × Holds creator.id (p.ulid w.drawn) owner (created p name creator w slug).db
unfolding organization_clash membership_clash
create_makes_owner p name creator w unique known new_org no_members new_member =
    let (slug, total, unused) = unique_slug_total (p.slugify name) w.db unique in
    let org = new_organization p name slug w in
    let row = new_owner p creator org w in
    let slug_free =
      (select-eq-nil_iff_any (Organizations.by_slug slug) w.db.organizations).1 unused in
    let pair_free =
      any_imp (in_org org.id) (Memberships.of_user_in_org creator.id org.id) w.db.memberships
        (λ m h. (&&-eq-true (m.user_id == creator.id) (m.organization_id == org.id) h).1)
        no_members in
    (
      slug,
      unused,
      elim (Bool-cases (leb (size name) 255 && leb (size slug) 255)) [
        | inl fit ↦ rw fit (
            create_steps p name creator w slug (ground arith) total known
              (any-or (Organizations.by_id org.id) (Organizations.by_slug slug) w.db.organizations
                new_org slug_free)
              (any-or (λ m. m.id == row.id) (Memberships.of_user_in_org creator.id org.id)
                w.db.memberships new_member pair_free))
        | inr long ↦ rw long (create_refused p name creator w slug (ground arith) total)
      ],
      slug_kept_unique w.db org unique unused,
      record {
        membership = row;
        single =
            select-insert_alone (Memberships.of_user_in_org creator.id org.id) row w.db.memberships
              (ground (arith, eq_refl creator.id, eq_refl org.id))
              ((select-eq-nil_iff_any (Memberships.of_user_in_org creator.id org.id)
                  w.db.memberships).0
                pair_free);
        ranked = le_refl (rank owner);
      },
    )
