-- ===== src/Auth/Redis.antt =====
-- common/redis/redis.service.ts over the commands of one client. A key is its code points, and
-- lower case is that of ASCII.
pub mod Laws
use intell_api.Prelude.{ℕ, ◌+◌, String, Option, List, ◌∷◌, ◌++◌, map, ◌==◌, if◌then◌else◌}
use intell_api.Prelude.Text.{codes, lower}
use intell_api.Exec.{thrown, Result, Exec, throw}

-- client.get, client.set with 'EX', and client.del.
pub record RedisClient (W : Type 0) : Type 0 where
  pub get : List ℕ → W → Result (Option String)
  pub set : List ℕ → String → ℕ → Exec W (Unit {0})
  pub del : List ℕ → Exec W (Unit {0})

-- `${unique.toLowerCase()}:${key.toLowerCase()}`
unfoldable pub redis_key : String → String → List ℕ
redis_key key unique = map lower (codes unique) ++ b':' ∷ map lower (codes key)

module _ {W : Type 0} (c : RedisClient W) where
  unfoldable pub redis_get : String → String → W → Result (Option String)
  redis_get key unique = c.get (redis_key key unique)

  unfoldable pub redis_set : String → String → String → ℕ → Exec W (Unit {0})
  redis_set key value unique ttl =
      if ttl == 0
      then throw (thrown "Invalid Redis TTL: 0")
      else c.set (redis_key key unique) value ttl

  unfoldable pub redis_delete : String → String → Exec W (Unit {0})
  redis_delete key unique = c.del (redis_key key unique)
