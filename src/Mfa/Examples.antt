-- ===== src/Mfa/Examples.antt =====
-- Bob sets a second factor up and confirms it.
use saas_backend_fastapi.Prelude.{refl, some, arith, [], ◌∷◌}
use saas_backend_fastapi.Prelude.Rows.{select, update_where}
use saas_backend_fastapi.Models.{User}
use saas_backend_fastapi.World.{World}
use saas_backend_fastapi.Repositories.Users
use saas_backend_fastapi.Mfa.{setup_mfa, verify_mfa}
use saas_backend_fastapi.Mfa.Invariant.{
  setup, confirm, stop, next, SecretsArePresent, IsLoaded, mfa_secrets_kept,
}
use saas_backend_fastapi.Samples.{platform, bob, office, at_time}

abbrev start : World
start = at_time 0 (record office { users = bob ∷ [] })

abbrev prepared : World
prepared = (setup_mfa platform bob start).1

abbrev with_secret_stored : User
with_secret_stored = record bob { mfa_secret = some "base32" }

bob-IsLoaded : IsLoaded bob start
unfolding select
bob-IsLoaded = refl

prepared-IsLoaded : IsLoaded with_secret_stored prepared
unfolding select setup_mfa Users.save update_where
prepared-IsLoaded = refl

mfa_secrets_kept_example :
    SecretsArePresent (verify_mfa platform "base32" with_secret_stored prepared).1
mfa_secrets_kept_example =
    mfa_secrets_kept platform start (verify_mfa platform "base32" with_secret_stored prepared).1
      (next (setup bob start bob-IsLoaded)
        (next (confirm "base32" with_secret_stored prepared prepared-IsLoaded) (stop _)))
      (λ on. absurd (ground arith), tt)
