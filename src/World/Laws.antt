-- ===== src/World/Laws.antt =====
-- Laws of `scalar_one_or_none`, of chains of actions, and of `get_db`.
use saas_backend_fastapi.Prelude.{◌≡◌, ◌⊎◌, inl, inr, refl, ap, none, some, List, [], ◌∷◌, arith}
use saas_backend_fastapi.Errors.{Result, ok, err, Exception, multiple_results_found}
use saas_backend_fastapi.World.{
  World, Exec, pure, continue, ◌>>=◌, ◌>>◌, scalar_one_or_none, get_db,
}

pub scalar_none : {A : Type 0} (l : List A) → scalar_one_or_none l ≡ ok none → l ≡ []
unfolding scalar_one_or_none
scalar_none [] h = refl
scalar_none (x ∷ []) h = cc
scalar_none (x ∷ y ∷ l) h = cc

pub scalar_some :
    {A : Type 0} (l : List A) {a : A} → scalar_one_or_none l ≡ ok (some a) → l ≡ a ∷ []
unfolding scalar_one_or_none
scalar_some [] h = cc
scalar_some (x ∷ []) h = ground arith
scalar_some (x ∷ y ∷ l) h = cc

-- To split on the outcome of an action, or of a query for one row.
pub Result-cases :
    {A : Type 0} (r : Result A) → ((a : A) × (r ≡ ok a)) ⊎ ((e : Exception) × (r ≡ err e))
Result-cases (ok a) = inl (a, refl)
Result-cases (err e) = inr (e, refl)

pub scalar-cases :
    {A : Type 0} (l : List A)
    → ((l ≡ []) × (scalar_one_or_none l ≡ ok none))
      ⊎ ((a : A) × (l ≡ a ∷ []) × (scalar_one_or_none l ≡ ok (some a)))
      ⊎ (scalar_one_or_none l ≡ err multiple_results_found)
unfolding scalar_one_or_none
scalar-cases [] = inl (refl, refl)
scalar-cases (x ∷ []) = inr (inl (x, refl, refl))
scalar-cases (x ∷ y ∷ l) = inr (inr refl)

-- A chain that returns: its first action did, and the rest did from there.
pub bind_ok :
    {A B : Type 0} (m : Exec A) (f : A → Exec B) (w : World) {b : B} {w' : World}
    → (m >>= f) w ≡ (ok b, w')
    → (a : A) × (m w ≡ (ok a, (m w).1)) × (f a (m w).1 ≡ (ok b, w'))
bind_ok m f w h = elim (Result-cases (m w).0) [
  | inl (a, e) ↦ (a, λ i. (e i, (m w).1), rw e at h)
  | inr (x, e) ↦ absurd (ground arith)
]

pub bind_step :
    {A B : Type 0} (m : Exec A) (f : A → Exec B) (w w' : World) {a : A}
    → m w ≡ (ok a, w')
    → (m >>= f) w ≡ f a w'
bind_step m f w w' h = ap (λ x. continue x.0 f x.1) h

pub bind_err :
    {A B : Type 0} (m : Exec A) (f : A → Exec B) (w w' : World) {e : Exception}
    → m w ≡ (err e, w')
    → (m >>= f) w ≡ (err e, w')
bind_err m f w w' h = ap (λ x. continue x.0 f x.1) h

-- A session whose handler raises leaves the database as it was.
pub get_db_raises :
    {A : Type 0} (m : Exec A) (w v : World) {e : Exception}
    → m w ≡ (err e, v)
    → get_db m w ≡ (err e, record v { db = w.db })
unfolding get_db
get_db_raises m w v {e} h = rw (h, get_db) (ap (λ x. (err e, record x.1 { db = w.db })) h)

-- A session commits what its action wrote, or leaves the database as it was.
pub session-cases :
    {A : Type 0} (m : Exec A) (w : World)
    → ((a : A) × (w' : World) × (m w ≡ (ok a, w')) × ((get_db (m >> pure tt) w).1.db ≡ w'.db))
      ⊎ ((x : Exception) × ((m w).0 ≡ err x) × ((get_db (m >> pure tt) w).1.db ≡ w.db))
unfolding get_db
session-cases m w = elim (Result-cases (m w).0) [
  | inl (a, e) ↦ inl (a, (m w).1, (λ i. (e i, (m w).1)), ground arith)
  | inr (x, e) ↦ inr (x, e, ground arith)
]
