-- ===== src/RedisClient.antt =====
-- app/lib/redis.py: keys with a time to live; every call raises while the server is down.
use saas_backend_fastapi.Prelude.{
  ℕ, ◌+◌, String, Bool, ◌&&◌, Option, none, some, List, [], ◌∷◌, ◌==◌, ltb, is_some, if◌then◌else◌,
}
use saas_backend_fastapi.Prelude.Rows.{select, delete_where}
use saas_backend_fastapi.Errors.{redis_error, ok}
use saas_backend_fastapi.World.{Entry, Exec, pure, throw, ◌>>=◌}

-- an entry of the key that has not expired
abbrev pub live : String → ℕ → Entry → Bool
live key now e = e.key == key && ltb now e.expires

abbrev pub first_value : List Entry → Option String
first_value [] = none
first_value (e ∷ l) = some e.value

unfoldable pub set_with_ttl : String → String → ℕ → Exec (Unit {0})
set_with_ttl key value ttl_seconds w =
    if w.redis.up
    then (
      ok tt,
      record w {
        redis = record w.redis {
          entries =
              record { key = key; value = value; expires = w.now + ttl_seconds }
              ∷ delete_where (λ e. e.key == key) w.redis.entries;
        };
      },
    )
    else throw redis_error w

unfoldable pub get_value : String → Exec (Option String)
get_value key w =
    if w.redis.up
    then pure (first_value (select (live key w.now) w.redis.entries)) w
    else throw redis_error w

unfoldable pub delete_key : String → Exec (Unit {0})
delete_key key w =
    if w.redis.up
    then (
      ok tt,
      record w {
        redis = record w.redis { entries = delete_where (λ e. e.key == key) w.redis.entries };
      },
    )
    else throw redis_error w

unfoldable pub key_exists : String → Exec Bool
unfolding get_value
key_exists key = do value ← get_value key; pure (is_some value)
