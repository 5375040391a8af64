-- ===== src/Mfa/Invariant.antt =====
-- The second factor of app/api/v1/endpoints/mfa.py as a state machine: the calls of its handlers
-- are the steps.
use saas_backend_fastapi.Prelude.{
  ℕ, ◌≤◌, String, ◌≡◌, true, not, ◌||◌, [], ◌∷◌, arith, inl, inr, truthy, or_default, Bool-cases,
}
use saas_backend_fastapi.Prelude.Rows.{select, update_where, All, All-update_where_one}
use saas_backend_fastapi.Models.{User}
use saas_backend_fastapi.Platform.{Platform}
use saas_backend_fastapi.World.{World}
use saas_backend_fastapi.Repositories.Users
use saas_backend_fastapi.Mfa.{
  setup_mfa, verify_mfa, disable_mfa, with_secret, with_mfa, without_mfa,
}

-- what an account with MFA enabled must have
abbrev pub HasSecret : User → Type 0
HasSecret u = u.mfa_enabled ≡ true → truthy u.mfa_secret ≡ true

abbrev pub SecretsArePresent : World → Type 0
SecretsArePresent w = All HasSecret w.db.users

-- The user that a handler gets is the row of the database.
abbrev pub IsLoaded : User → World → Type 0
IsLoaded u w = select (Users.by_id u.id) w.db.users ≡ u ∷ []

-- one call of a handler, which may fail, or time that passes
pub data Step (p : Platform) : World → World → Type 0 where
  setup : (u : User) (w : World) → IsLoaded u w → Step p w (setup_mfa p u w).1
  confirm :
      (code : String) (u : User) (w : World) → IsLoaded u w → Step p w (verify_mfa p code u w).1
  disable :
      (code : String) (u : User) (w : World) → IsLoaded u w → Step p w (disable_mfa p code u w).1
  wait : (w : World) (now : ℕ) → w.now ≤ now → Step p w (record w { now = now })

pub data Steps (p : Platform) : World → World → Type 0 where
  stop : (w : World) → Steps p w w
  next : {u v w : World} → Step p u v → Steps p v w → Steps p u w

module _ (p : Platform) where
  module _ (u : User) (w : World) (loaded : IsLoaded u w) (present : SecretsArePresent w) where
    saved :
        (f : User → User)
        → HasSecret (f u)
        → All HasSecret (update_where (Users.by_id u.id) f w.db.users)
    saved f fits =
        All-update_where_one HasSecret (Users.by_id u.id) f w.db.users loaded fits present

    setup_keeps : SecretsArePresent (setup_mfa p u w).1
    unfolding setup_mfa Users.save
    setup_keeps = elim (Bool-cases u.mfa_enabled) [
      | inl on ↦ rw on present
      | inr off ↦
          rw off (saved (with_secret (p.random_base32 w.drawn)) (λ on. absurd (ground arith)))
    ]

    disable_keeps : (code : String) → SecretsArePresent (disable_mfa p code u w).1
    unfolding disable_mfa Users.save
    disable_keeps code = elim (Bool-cases (not u.mfa_enabled || not (truthy u.mfa_secret))) [
      | inl bad ↦ rw bad present
      | inr good ↦ elim (Bool-cases (p.totp_verify (or_default u.mfa_secret "") code w.now)) [
        | inl right ↦ rw (good, right) (saved without_mfa (λ on. absurd (ground arith)))
        | inr wrong ↦ rw (good, wrong) present
      ]
    ]

    confirm_keeps : (code : String) → SecretsArePresent (verify_mfa p code u w).1
    unfolding verify_mfa Users.save
    confirm_keeps code = elim (Bool-cases (truthy u.mfa_secret)) [
      | inr missing ↦ rw missing present
      | inl there ↦ elim (Bool-cases u.mfa_enabled) [
        | inl on ↦ rw (there, on) present
        | inr off ↦ elim (Bool-cases (p.totp_verify (or_default u.mfa_secret "") code w.now)) [
          | inl right ↦ rw (there, off, right) (saved with_mfa (λ on. there))
          | inr wrong ↦ rw (there, off, wrong) present
        ]
      ]
    ]

  Step-keeps : (v w : World) → Step p v w → SecretsArePresent v → SecretsArePresent w
  Step-keeps v _ (setup u _ loaded) present = setup_keeps u v loaded present
  Step-keeps v _ (confirm code u _ loaded) present = confirm_keeps u v loaded present code
  Step-keeps v _ (disable code u _ loaded) present = disable_keeps u v loaded present code
  Step-keeps v _ (wait _ now later) present = present

  -- After every sequence of calls of `setup_mfa`, `verify_mfa` and `disable_mfa`, for whatever users
  -- of the database and with whatever codes, failed calls included, with time passing between them:
  -- where each account with MFA enabled had a secret before, each has one after.
  pub mfa_secrets_kept : (v w : World) → Steps p v w → SecretsArePresent v → SecretsArePresent w
  mfa_secrets_kept v _ (stop _) present = present
  mfa_secrets_kept v w (next {v = u} first rest) present =
      mfa_secrets_kept u w rest (Step-keeps v u first present)
