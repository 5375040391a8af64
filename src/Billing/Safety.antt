-- ===== src/Billing/Safety.antt =====
-- What the handlers of a webhook in app/services/billing_service.py may touch, as a property of
-- actions that chains of actions inherit.
use saas_backend_fastapi.Prelude.{
  ℕ, ◌≤◌, String, ◌==◌, ◌≡◌, refl, ap, ◌∙◌, Bool, true, false, not, ◌&&◌, List, [], arith,
  if◌then◌else◌, inl, inr, Bool-cases, eq_iff,
}
use saas_backend_fastapi.Prelude.Rows.{
  select, length, insert, any, select-update_where, length-update_where, select-insert,
  select_none_of_any,
}
use saas_backend_fastapi.Models.{Organization, Subscription, subscription_clash}
use saas_backend_fastapi.World.{Database, World, Exec, draw, insert_row, ◌>>=◌}
use saas_backend_fastapi.World.Laws.{Result-cases, bind_step, bind_err}
use saas_backend_fastapi.Repositories.Organizations
use saas_backend_fastapi.Repositories.Subscriptions

abbrev pub OnePerOrg : Database → Type 0
OnePerOrg db =
    (org_id : String) → length (select (Subscriptions.by_org org_id) db.subscriptions) ≤ 1

pub record Keeps (w w' : World) : Type 0 where
  pub users : w'.db.users ≡ w.db.users
  pub memberships : w'.db.memberships ≡ w.db.memberships
  pub invitations : w'.db.invitations ≡ w.db.invitations
  pub one_each : OnePerOrg w.db → OnePerOrg w'.db

-- An action that keeps what `Keeps` says, from every world.
abbrev pub Safe : {A : Type 0} → Exec A → Type 0
Safe m = (w : World) → Keeps w (m w).1

pub Keeps-refl : (w : World) → Keeps w w
Keeps-refl w = record {
  users = refl;
  memberships = refl;
  invitations = refl;
  one_each = λ one. one;
}

pub Keeps-trans : (u v w : World) → Keeps u v → Keeps v w → Keeps u w
Keeps-trans u v w h k = record {
  users = k.users ∙ h.users;
  memberships = k.memberships ∙ h.memberships;
  invitations = k.invitations ∙ h.invitations;
  one_each = λ one. k.one_each (h.one_each one);
}

module _ {A B : Type 0} where
  pub Safe-bind : (m : Exec A) (f : A → Exec B) → Safe m → ((a : A) → Safe (f a)) → Safe (m >>= f)
  Safe-bind m f safe next w = elim (Result-cases (m w).0) [
    | inl (a, e) ↦
        rw (ap (λ x. x.1) (bind_step m f w (m w).1 (λ i. (e i, (m w).1))))
          (Keeps-trans w (m w).1 (f a (m w).1).1 (safe w) (next a (m w).1))
    | inr (x, e) ↦ rw (ap (λ x. x.1) (bind_err m f w (m w).1 (λ i. (e i, (m w).1)))) (safe w)
  ]

pub Safe-if : {A : Type 0} (b : Bool) (m n : Exec A) → Safe m → Safe n → Safe (if b then m else n)
Safe-if true m n h k = h
Safe-if false m n h k = k

pub Safe-save_org : (id : String) (f : Organization → Organization) → Safe (Organizations.save id f)
unfolding Organizations.save
Safe-save_org id f w = record {
  users = refl;
  memberships = refl;
  invitations = refl;
  one_each = λ one. one;
}

-- An update of subscriptions that leaves their organization alone.
pub Safe-save_subscription :
    (id : String) (f : Subscription → Subscription)
    → ((s : Subscription) → (f s).organization_id ≡ s.organization_id)
    → Safe (Subscriptions.save id f)
unfolding Subscriptions.save
Safe-save_subscription id f same w = record {
  users = refl;
  memberships = refl;
  invitations = refl;
  one_each = λ one org_id.
      rw
        (
          select-update_where (Subscriptions.by_org org_id) (Subscriptions.by_id id) f
              (λ s. ap (λ o. o == org_id) (same s)) w.db.subscriptions,
          length-update_where (Subscriptions.by_id id) f
              (select (Subscriptions.by_org org_id) w.db.subscriptions),
        )
        (one org_id);
}

pub Safe-save_code :
    (id code : String) (f : Subscription → Subscription)
    → ((s : Subscription) → (f s).organization_id ≡ s.organization_id)
    → Safe (Subscriptions.save_code id code f)
unfolding Subscriptions.save_code
Safe-save_code id code f same w =
    elim (Bool-cases (
      any (λ s. not (Subscriptions.by_id id s) && Subscriptions.by_code code s)
        w.db.subscriptions)) [
          | inl taken ↦ rw taken (Keeps-refl w)
          | inr free ↦ rw free (Safe-save_subscription id f same w)
        ]

-- a new row, under the UNIQUE constraints
insert_keeps_one :
    (s : Subscription) (rows : List Subscription) (org_id : String)
    → any (subscription_clash s) rows ≡ false
    → length (select (Subscriptions.by_org org_id) rows) ≤ 1
    → length (select (Subscriptions.by_org org_id) (insert s rows)) ≤ 1
unfolding subscription_clash insert
insert_keeps_one s rows org_id free one = elim (Bool-cases (s.organization_id == org_id)) [
  | inl mine ↦
      let none_yet : select (Subscriptions.by_org org_id) rows ≡ [] =
        select_none_of_any (subscription_clash s) (Subscriptions.by_org org_id) rows
          (λ x hit. ground (
            arith,
            eq_iff x.organization_id org_id,
            eq_iff s.organization_id org_id,
            eq_iff x.organization_id s.organization_id,
          ))
          free in
      rw (select-insert (Subscriptions.by_org org_id) s rows, mine, none_yet) (omega arith)
  | inr other ↦ rw (select-insert (Subscriptions.by_org org_id) s rows, other) one
]

pub Safe-create : (s : Subscription) → Safe (Subscriptions.create s)
unfolding Subscriptions.create insert_row
Safe-create s w = elim (Bool-cases (Organizations.exists s.organization_id w.db)) [
  | inr unknown ↦ rw unknown (Keeps-refl w)
  | inl known ↦ elim (Bool-cases (any (subscription_clash s) w.db.subscriptions)) [
    | inl clash ↦ rw (known, clash) (Keeps-refl w)
    | inr free ↦
        rw (known, free)
          (record {
            users = refl;
            memberships = refl;
            invitations = refl;
            one_each = λ one org_id. insert_keeps_one s w.db.subscriptions org_id free (one org_id);
          })
  ]
]

pub Keeps-draw : (f : ℕ → String) (w : World) → Keeps w (draw f w).1
Keeps-draw f w = record {
  users = refl;
  memberships = refl;
  invitations = refl;
  one_each = λ one. one;
}
