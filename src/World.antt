-- ===== src/World.antt =====
-- The state of the application: the database of a session (app/db), Redis (app/lib/redis.py), the
-- clock, the random draws and the outgoing mail; and actions on it that may raise. An action keeps
-- what it wrote when it raises; `get_db` is what rolls the database back.
pub mod Laws
pub mod Keeps
use saas_backend_fastapi.Prelude.{
  ℕ, suc, String, Bool, true, false, ◌≡◌, Option, none, some, List, [], ◌∷◌, if◌then◌else◌,
}
use saas_backend_fastapi.Prelude.Rows.{insert, any}
use saas_backend_fastapi.Errors.{
  AppError, Exception, app, integrity_error, multiple_results_found, Result, ok, err,
}
use saas_backend_fastapi.Models.{
  User, Organization, Membership, Invitation, Subscription, Notification, AuditLog, MemberRole,
}

pub record Database : Type 0 where
  pub users : List User
  pub organizations : List Organization
  pub memberships : List Membership
  pub invitations : List Invitation
  pub subscriptions : List Subscription
  pub notifications : List Notification
  pub audit_logs : List AuditLog

pub record Entry : Type 0 where
  pub key : String
  pub value : String
  pub expires : ℕ

pub record Redis : Type 0 where
  pub up : Bool
  pub entries : List Entry

-- app/lib/email.py: a message is the call that renders it
pub data Mail : Type 0 where
  verification_email : String → String → String → Mail  -- to, full_name, token
  password_reset_email : String → String → Mail  -- to, token
  invitation_email : String → String → String → String → MemberRole → Mail
      -- to, invited_by, org_name, token, role
  welcome_email : String → String → Mail  -- to, full_name

pub record World : Type 0 where
  pub db : Database
  pub redis : Redis
  pub now : ℕ  -- seconds
  pub drawn : ℕ  -- random draws made so far
  pub outbox : List Mail
  pub mailer_up : Bool

abbrev pub Exec : Type 0 → Type 0
Exec A = World → Result A × World

module _ {A : Type 0} where
  abbrev pub pure : A → Exec A
  pure a w = (ok a, w)

  abbrev pub throw : Exception → Exec A
  throw e w = (err e, w)

  abbrev pub raise : AppError → Exec A
  raise e w = (err (app e), w)

  -- a SELECT
  abbrev pub query : (Database → Result A) → Exec A
  query f w = (f w.db, w)

  -- `result.scalar_one_or_none()`
  unfoldable pub scalar_one_or_none : List A → Result (Option A)
  scalar_one_or_none [] = ok none
  scalar_one_or_none (x ∷ []) = ok (some x)
  scalar_one_or_none (x ∷ y ∷ l) = err multiple_results_found

  -- `if not x: raise e`
  abbrev pub or_raise : AppError → Option A → Exec A
  or_raise e none = raise e
  or_raise e (some a) = pure a

  -- INSERT under the UNIQUE constraints
  unfoldable pub insert_row : (A → A → Bool) → A → List A → Result (List A)
  insert_row clash x rows = if any (clash x) rows then err integrity_error else ok (insert x rows)

module _ {A B : Type 0} where
  abbrev pub continue : Result A → (A → Exec B) → Exec B
  continue (ok a) f = f a
  continue (err e) f = throw e

  infixl 5 ◌>>=◌ ◌>>◌
  abbrev pub ◌>>=◌ : Exec A → (A → Exec B) → Exec B
  ◌>>=◌ m f w = let (r, w') = m w in continue r f w'

  abbrev pub ◌>>◌ : Exec A → Exec B → Exec B
  m >> n = m >>= λ _. n

abbrev pub lift : {A : Type 0} → Result A → Exec A
lift r w = (r, w)

-- `if c: raise e`
abbrev pub raise_if : Bool → AppError → Exec (Unit {0})
raise_if c e w = (if c then err (app e) else ok tt, w)

abbrev pub get_now : Exec ℕ
get_now w = (ok w.now, w)

-- a fresh random value
abbrev pub draw : (ℕ → String) → Exec String
draw f w = (ok (f w.drawn), record w { drawn = suc w.drawn })

abbrev pub modify : (Database → Database) → Exec (Unit {0})
modify f w = (ok tt, record w { db = f w.db })

-- The new contents of a table, if the constraints allow them.
abbrev pub store : {A : Type 0} → Result A → (A → Database → Database) → Exec (Unit {0})
store (ok rows) f = modify (f rows)
store (err e) f = throw e

-- `get_db` around a request: commit at the end, roll back on any exception.
unfoldable pub get_db : {A : Type 0} → Exec A → Exec A
get_db m w =
    let (r, w') = m w in elim r [ ok a ↦ (ok a, w') | err e ↦ (err e, record w' { db = w.db }) ]
