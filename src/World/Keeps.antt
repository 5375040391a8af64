-- ===== src/World/Keeps.antt =====
-- Invariants of the database under actions, whether they return or raise: one rule for each way to
-- build an action.
use saas_backend_fastapi.Prelude.{
  ℕ, String, Bool, true, false, Option, none, some, ◌≡◌, inl, inr, if◌then◌else◌,
}
use saas_backend_fastapi.Errors.{AppError, Exception, Result, ok, err}
use saas_backend_fastapi.World.{
  Database, World, Exec, pure, throw, continue, query, or_raise, raise_if, draw, get_now, get_db,
  ◌>>=◌,
}
use saas_backend_fastapi.World.Laws.{Result-cases}
use saas_backend_fastapi.Security.{except, jwt_errors_as}

pub record Keeps {A : Type 0} (P : Database → Type 0) (m : Exec A) : Type 0 where
  pub at : (w : World) → P w.db → P (m w).1.db

module _ {A : Type 0} {P : Database → Type 0} where
  -- an action that does not write to the database
  pub Keeps-silent : (m : Exec A) → ((w : World) → (m w).1.db ≡ w.db) → Keeps P m
  Keeps-silent m same = record { at = λ w h. rw (same w) h }

  pub Keeps-pure : (a : A) → Keeps P (pure a)
  Keeps-pure a = record { at = λ w h. h }

  pub Keeps-throw : (e : Exception) → Keeps P (throw {A = A} e)
  Keeps-throw e = record { at = λ w h. h }

  pub Keeps-or_raise : (e : AppError) (o : Option A) → Keeps P (or_raise e o)
  Keeps-or_raise e none = record { at = λ w h. h }
  Keeps-or_raise e (some a) = record { at = λ w h. h }

  pub Keeps-if : (b : Bool) {m n : Exec A} → Keeps P m → Keeps P n → Keeps P (if b then m else n)
  Keeps-if true km kn = km
  Keeps-if false km kn = kn

  pub Keeps-jwt_errors_as : (e : AppError) {m : Exec A} → Keeps P m → Keeps P (jwt_errors_as e m)
  Keeps-jwt_errors_as e {m} km = record {
    at = λ w h. elim (Result-cases (m w).0) [
      | inl (a, e) ↦ rw (e, jwt_errors_as) (km.at w h)
      | inr (x, e) ↦ rw (e, jwt_errors_as) (km.at w h)
    ];
  }

  pub Keeps-except : {m n : Exec A} → Keeps P m → Keeps P n → Keeps P (except m n)
  Keeps-except {m} {n} km kn = record {
    at = λ w h. elim (Result-cases (m w).0) [
      | inl (a, e) ↦ rw (e, except) (km.at w h)
      | inr (x, e) ↦ rw (e, except) (kn.at (m w).1 (km.at w h))
    ];
  }

  pub Keeps-get_db : {m : Exec A} → Keeps P m → Keeps P (get_db m)
  unfolding get_db
  Keeps-get_db {m} km = record {
    at = λ w h. elim (Result-cases (m w).0) [
      | inl (a, e) ↦ rw (e, get_db) (km.at w h)
      | inr (x, e) ↦ rw (e, get_db) h
    ];
  }

module _ {A B : Type 0} {P : Database → Type 0} where
  Keeps-continue :
      (r : Result A) (f : A → Exec B) → ((a : A) → Keeps P (f a)) → Keeps P (continue r f)
  Keeps-continue (ok a) f kf = kf a
  Keeps-continue (err e) f kf = record { at = λ w h. h }

  pub Keeps-bind :
      {m : Exec A} {f : A → Exec B} → Keeps P m → ((a : A) → Keeps P (f a)) → Keeps P (m >>= f)
  Keeps-bind {m} {f} km kf = record {
    at = λ w h. let (r, w') = m w in (Keeps-continue r f kf).at w' (km.at w h);
  }

  pub Keeps-query :
      (q : Database → Result A) {f : A → Exec B}
      → ((a : A) → Keeps P (f a))
      → Keeps P (query q >>= f)
  Keeps-query q {f} kf = record { at = λ w h. (Keeps-continue (q w.db) f kf).at w h }

  -- a lookup, and the two branches after it
  pub Keeps-found :
      (o : Option A → Exec B)
      → Keeps P (o none)
      → ((a : A) → Keeps P (o (some a)))
      → (found : Option A) → Keeps P (o found)
  Keeps-found o kn ks none = kn
  Keeps-found o kn ks (some a) = ks a

module _ {P : Database → Type 0} where
  pub Keeps-draw : (f : ℕ → String) → Keeps P (draw f)
  Keeps-draw f = record { at = λ w h. h }

  pub Keeps-get_now : Keeps P get_now
  Keeps-get_now = record { at = λ w h. h }

  pub Keeps-raise_if : (c : Bool) (e : AppError) → Keeps P (raise_if c e)
  Keeps-raise_if c e = record { at = λ w h. h }
