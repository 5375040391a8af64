-- ===== src/Migrations/Restore.antt =====
-- The downgrades of app/db/migrations undo the upgrades.
use saas_backend_fastapi.Prelude.{
  String, false, Option, none, some, List, [], ◌∷◌, ◌==◌, ◌≡◌, refl, sym, inl, inr, arith,
  Bool-cases, eq_iff,
}
use saas_backend_fastapi.Prelude.Rows.{any, All}
use mathlib.Core.List.{◌++◌}
use mathlib.Core.Path.{subst}
use saas_backend_fastapi.Migrations.{Catalog, Table, Operation, set, migrate}
use saas_backend_fastapi.Migrations.Initial
use saas_backend_fastapi.Migrations.Paystack
use saas_backend_fastapi.Migrations.Declarations.{Shape, shape_of}

abbrev pub table_names : List String
table_names =
    "users" ∷ "organizations" ∷ "memberships" ∷ "invitations" ∷ "subscriptions" ∷ "notifications"
    ∷ "audit_logs" ∷ []

abbrev pub type_names : List String
type_names =
    "oauthprovider" ∷ "plantier" ∷ "memberrole" ∷ "invitationstatus" ∷ "subscriptionstatus" ∷ []

-- `f` with one value at the given names
abbrev pub without {ℓ} : {A : Type ℓ} → A → List String → (String → A) → String → A
without nothing [] f = f
without nothing (key ∷ keys) f = set key nothing (without nothing keys f)

-- a catalog that has none of the names of the first migration
abbrev pub vacant : Catalog → Catalog
vacant c = record {
  tables = without none table_names c.tables;
  types = without none type_names c.types;
  users = c.users;
}

-- one in which nothing refers to them either
abbrev cleared : Catalog → Catalog
cleared c = record (vacant c) { users = without [] (table_names ++ type_names) c.users }

abbrev whole : List Operation
whole = Initial.upgrade ++ (Paystack.upgrade ++ (Paystack.downgrade ++ Initial.downgrade))

abbrev pub tables_of : Option Catalog → String → Option Table
tables_of none name = none
tables_of (some c) name = c.tables name

abbrev pub users_of : Option Catalog → String → List String
users_of none name = []
users_of (some c) name = c.users name

abbrev pub types_of : Option Catalog → String → Option (List String)
types_of none name = none
types_of (some c) name = c.types name

-- Two functions that agree on the other names.
without_ext :
    {A : Type 0} (nothing : A) (keys : List String) (f g : String → A) (n : String)
    → (any (λ k. n == k) keys ≡ false → f n ≡ g n)
    → without nothing keys f n ≡ without nothing keys g n
unfolding any
without_ext nothing [] f g n h = h refl
without_ext nothing (k ∷ ks) f g n h = elim (Bool-cases (n == k)) [
  | inl e ↦ rw e refl
  | inr e ↦ rw e (without_ext nothing ks f g n (λ m. h (ground arith)))
]

-- Two functions that agree on some names and on all others.
same_at :
    {A : Type 0} (keys : List String) (f g : String → A) (n : String)
    → All (λ k. f k ≡ g k) keys
    → (any (λ k. n == k) keys ≡ false → f n ≡ g n)
    → f n ≡ g n
unfolding any
same_at [] f g n at elsewhere = elsewhere refl
same_at (k ∷ ks) f g n (here, at) elsewhere = elim (Bool-cases (n == k)) [
  | inl e ↦ subst (λ x. f x ≡ g x) (sym ((eq_iff n k).0 e)) here
  | inr e ↦ same_at ks f g n at (λ m. elsewhere (ground arith))
]

types_restored :
    (c : Catalog) (n : String)
    → types_of (migrate whole (cleared c)) n ≡ without none type_names c.types n
unfolding migrate
types_restored c n = ground arith

abbrev migrated : Catalog → String → Option Table
migrated c =
    tables_of (migrate (Initial.upgrade ++ (Paystack.upgrade ++ Paystack.downgrade)) (cleared c))

-- Off the names of the migration its tables are those of before.
elsewhere_kept :
    (c : Catalog) (n : String) → any (λ k. n == k) table_names ≡ false → migrated c n ≡ c.tables n
unfolding migrate any
elsewhere_kept c n h = ground arith

tables_restored :
    (c : Catalog) (n : String)
    → tables_of (migrate whole (cleared c)) n ≡ without none table_names c.tables n
unfolding migrate any
tables_restored c n = without_ext none table_names (migrated c) c.tables n (elsewhere_kept c n)

users_restored :
    (c : Catalog) (n : String) → users_of (migrate whole (cleared c)) n ≡ (cleared c).users n
unfolding migrate any
users_restored c n =
    same_at (table_names ++ type_names) (users_of (migrate whole (cleared c))) (cleared c).users n
      (
        refl,
        (refl, (refl, (refl, (refl, (refl, (refl, (refl, (refl, (refl, (refl, (refl, tt))))))))))),
      )
      (λ h. ground arith)

without_absent :
    {A : Type 0} (nothing : A) (keys : List String) (f : String → A) (n : String)
    → All (λ k. f k ≡ nothing) keys
    → without nothing keys f n ≡ f n
without_absent nothing [] f n absent = refl
without_absent nothing (k ∷ ks) f n (here, absent) = elim (Bool-cases (n == k)) [
  | inl e ↦ rw (e, (eq_iff n k).0 e) (sym here)
  | inr e ↦ rw e (without_absent nothing ks f n absent)
]

-- The names of the migration are not in use.
pub record IsVacant (c : Catalog) : Type 0 where
  pub tables : All (λ k. c.tables k ≡ none) table_names
  pub types : All (λ k. c.types k ≡ none) type_names

-- Nothing refers to the names of the migration.
abbrev pub IsUnreferenced : Catalog → Type 0
IsUnreferenced c = All (λ k. c.users k ≡ []) (table_names ++ type_names)

pub vacant_same : (c : Catalog) → IsVacant c → vacant c ≡ c
vacant_same c v i = record {
  tables = λ n. without_absent none table_names c.tables n v.tables i;
  types = λ n. without_absent none type_names c.types n v.types i;
  users = c.users;
}

cleared_same : (c : Catalog) → IsVacant c → IsUnreferenced c → cleared c ≡ c
cleared_same c v unreferenced = (λ i. record (vacant_same c v i) {
  users = λ n. without_absent [] (table_names ++ type_names) c.users n unreferenced i;
})

cleared_restored : (c : Catalog) → migrate whole (cleared c) ≡ some (cleared c)
unfolding migrate
cleared_restored c i = some (record {
  tables = λ n. tables_restored c n i;
  types = λ n. types_restored c n i;
  users = λ n. users_restored c n i;
})

abbrev shape_at : Option Table → Option Shape
shape_at none = none
shape_at (some t) = some (shape_of t)

-- what counts of a table after the operations
abbrev pub shape_after : List Operation → Catalog → String → Option Shape
shape_after operations c name = shape_at (tables_of (migrate operations c) name)

-- At a name, the downgrade of the second migration undoes it.
abbrev IsUndone : Catalog → String → Type 0
IsUndone c n =
    shape_after (Initial.upgrade ++ (Paystack.upgrade ++ Paystack.downgrade)) c n
    ≡ shape_after Initial.upgrade c n

vacant-IsUndone : (c : Catalog) (n : String) → IsUndone (vacant c) n
unfolding migrate shape_of
vacant-IsUndone c n = elim (Bool-cases (n == "organizations")) [
  | inl e ↦ subst (IsUndone (vacant c)) (sym ((eq_iff n "organizations").0 e)) refl
  | inr e ↦ elim (Bool-cases (n == "subscriptions")) [
    | inl f ↦ subst (IsUndone (vacant c)) (sym ((eq_iff n "subscriptions").0 f)) refl
    | inr f ↦ rw (e, f, shape_after) refl
  ]
]

-- In a catalog that has none of their tables and types, and no reference to them, the two upgrades go through, one after the
-- other, and the two downgrades after them leave the catalog exactly as it was: no table, index or
-- type is left behind. The downgrade of the second migration alone brings every table back to what
-- the first made: columns, unique and indexed columns, and constraints.
pub downgrades_undo_upgrades :
    (c : Catalog)
    → IsVacant c
    → IsUnreferenced c
    → (migrate
          (Initial.upgrade ++ (Paystack.upgrade ++ (Paystack.downgrade ++ Initial.downgrade)))
          c
        ≡ some c)
      × ((n : String)
          → shape_after (Initial.upgrade ++ (Paystack.upgrade ++ Paystack.downgrade)) c n
            ≡ shape_after Initial.upgrade c n)
downgrades_undo_upgrades c v unreferenced = (
  subst (λ x. migrate whole x ≡ some x) (cleared_same c v unreferenced) (cleared_restored c),
  λ n. subst (λ x. IsUndone x n) (vacant_same c v) (vacant-IsUndone c n),
)
