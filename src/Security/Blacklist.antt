-- ===== src/Security/Blacklist.antt =====
-- `revoke_refresh_token` of app/core/security.py: what a revoked refresh token is still good for.
use saas_backend_fastapi.Prelude.{
  ℕ, suc, ◌+◌, ◌-◌, ◌<◌, String, ◌==◌, ◌≡◌, ◌≢◌, refl, sym, ap, ◌∙◌, Bool, true, false, none, some,
  arith, ltb, Bool-cases, Option-cases, inl, inr, List, [], ◌∷◌, eq_refl, is_some,
}
use saas_backend_fastapi.Prelude.Rows.{select, select-select, select-delete_self}
use saas_backend_fastapi.Errors.{ok, err, jwt_error}
use saas_backend_fastapi.Platform.{Platform, Claims, DecodesJwt}
use saas_backend_fastapi.World.{World, Entry}
use saas_backend_fastapi.RedisClient.{first_value, set_with_ttl}
use saas_backend_fastapi.Security.{
  blacklist_key, is_token_blacklisted, verify_refresh_token, revoke_refresh_token,
}

abbrev pub of_key : String → Entry → Bool
of_key key e = e.key == key

-- the entries of a key, alive or not
abbrev pub entries_of : String → World → List Entry
entries_of key w = select (of_key key) w.redis.entries

pub set_with_ttl-entries :
    (key value : String) (ttl : ℕ) (w : World)
    → w.redis.up ≡ true
    → entries_of key (set_with_ttl key value ttl w).1
      ≡ record { key = key; value = value; expires = w.now + ttl } ∷ []
unfolding set_with_ttl select
set_with_ttl-entries key value ttl w up =
    rw (up, eq_refl)
      (ap (λ l. record { key = key; value = value; expires = w.now + ttl } ∷ l)
        (select-delete_self (of_key key) w.redis.entries))

module _ (p : Platform) (t : String) where
  -- The blacklist as a function of the token's entries.
  pub is_token_blacklisted_lem :
      (w : World)
      → w.redis.up ≡ true
      → is_token_blacklisted p t w ≡ (
        ok (
            is_some
              (first_value (select (λ e. ltb w.now e.expires) (entries_of (blacklist_key p t) w)))),
        w,
      )
  unfolding is_token_blacklisted
  is_token_blacklisted_lem w up = rw (up, select-select) refl

  revoke_lem :
      (w : World) (c : Claims) (n : ℕ)
      → w.redis.up ≡ true
      → p.jwt_decode w.now t p.settings.app_secret_key ≡ some c
      → c.exp ≡ some (suc n)
      → w.now < suc n
      → (revoke_refresh_token p t w).1
        ≡ (set_with_ttl (blacklist_key p t) "revoked" (suc n - w.now) w).1
  unfolding revoke_refresh_token
  revoke_lem w c n up d e later = ground arith

  -- What `revoke_refresh_token` leaves in Redis for the token.
  pub revoke-entries :
      (w : World) (c : Claims) (n : ℕ)
      → w.redis.up ≡ true
      → p.jwt_decode w.now t p.settings.app_secret_key ≡ some c
      → c.exp ≡ some (suc n)
      → w.now < suc n
      → entries_of (blacklist_key p t) (revoke_refresh_token p t w).1
        ≡ record { key = blacklist_key p t; value = "revoked"; expires = suc n } ∷ []
  revoke-entries w c n up d e later = rw (revoke_lem w c n up d e later) (
      set_with_ttl-entries (blacklist_key p t) "revoked" (suc n - w.now) w up
      ∙ ap (λ x. record { key = blacklist_key p t; value = "revoked"; expires = x } ∷ [])
          (omega arith))

  pub revoke_keeps_up :
      (w : World) → w.redis.up ≡ true → (revoke_refresh_token p t w).1.redis.up ≡ true
  unfolding revoke_refresh_token
  revoke_keeps_up w up = ground arith

  refused_if_listed :
      (w : World)
      → is_token_blacklisted p t w ≡ (ok true, w)
      → verify_refresh_token p t w ≡ (err (jwt_error "Token has been revoked"), w)
  unfolding verify_refresh_token
  refused_if_listed w b = ground arith

  refused_if_undecodable :
      (w : World) (u : String)
      → p.jwt_decode w.now t p.settings.app_secret_key ≡ none
      → (verify_refresh_token p t w).0 ≢ ok u
  unfolding verify_refresh_token
  refused_if_undecodable w u d = ground arith

  accepted_if_unlisted :
      (w w' : World) (c : Claims) (u : String)
      → (verify_refresh_token p t w).0 ≡ ok u
      → p.jwt_decode w.now t p.settings.app_secret_key ≡ some c
      → p.jwt_decode w'.now t p.settings.app_secret_key ≡ some c
      → is_token_blacklisted p t w' ≡ (ok false, w')
      → (verify_refresh_token p t w').0 ≡ ok u
  unfolding verify_refresh_token
  accepted_if_unlisted w w' c u v d d' b = ground arith

  module _ (jwt : DecodesJwt p) (w w' : World) (c : Claims) (n : ℕ) (up : w.redis.up ≡ true)
      (decodes : p.jwt_decode w.now t p.settings.app_secret_key ≡ some c)
      (expires : c.exp ≡ some (suc n)) (early : w.now < suc n) (up' : w'.redis.up ≡ true)
      (kept : entries_of (blacklist_key p t) w'
        ≡ entries_of (blacklist_key p t) (revoke_refresh_token p t w).1) where
    listed_until_exp : is_token_blacklisted p t w' ≡ (ok (ltb w'.now (suc n)), w')
    unfolding select
    listed_until_exp =
        rw (is_token_blacklisted_lem w' up', kept, revoke-entries w c n up decodes expires early)
          (ground arith)

    -- A refresh token that decodes and was revoked before the second of its `exp`, with Redis up then
    -- and later, is refused at any other time than that second, as long as Redis keeps the token's
    -- entry.
    pub revoked_refused : (u : String) → w'.now ≢ suc n → (verify_refresh_token p t w').0 ≢ ok u
    revoked_refused u other = elim (Bool-cases (ltb w'.now (suc n))) [
      | inl listed ↦
          ground (arith, refused_if_listed w' (listed_until_exp ∙ ap (λ b. (ok b, w')) listed))
      | inr gone ↦ elim (Option-cases (p.jwt_decode w'.now t p.settings.app_secret_key)) [
        | inl undecodable ↦ refused_if_undecodable w' u undecodable
        | inr (c', d') ↦
            let same = jwt.stable w.now w'.now t p.settings.app_secret_key c c' decodes d' in
            let bound =
              jwt.late w'.now (suc n) t p.settings.app_secret_key c' d'
                (ap (λ x. x.exp) (sym same) ∙ expires) in
            absurd (ground arith)
      ]
    ]

    -- A refresh token that was accepted, and then revoked before the second of its `exp`, with Redis
    -- up then and later, is accepted again in the second of its `exp`, even while Redis keeps its
    -- entry: the entry has expired, and the token not yet.
    pub revoked_accepted_at_exp :
        (u : String)
        → (verify_refresh_token p t w).0 ≡ ok u
        → w'.now ≡ suc n
        → (verify_refresh_token p t w').0 ≡ ok u
    revoked_accepted_at_exp u valid now =
        accepted_if_unlisted w w' c u valid decodes
          (jwt.lasts w.now w'.now (suc n) t p.settings.app_secret_key c decodes expires
            (omega arith) (omega arith))
          (listed_until_exp ∙ ap (λ b. (ok b, w')) (ground arith))
