-- ===== src/Auth/Redis/Laws.antt =====
-- The documented behaviour of a client of Redis, before a key expires.
use intell_api.Prelude.{ℕ, String, none, some, List, ◌≡◌, ◌≢◌}
use intell_api.Exec.{ok}
use intell_api.Auth.Redis.{RedisClient}

pub record RedisLaws {W : Type 0} (c : RedisClient W) : Type 0 where
  pub get_set :
      (k : List ℕ) (v : String) (ttl : ℕ) (w w' : W)
      → c.set k v ttl w ≡ (ok tt, w')
      → c.get k w' ≡ ok (some v)
  pub get_set_other :
      (k j : List ℕ) (v : String) (ttl : ℕ) (w w' : W)
      → c.set k v ttl w ≡ (ok tt, w')
      → j ≢ k
      → c.get j w' ≡ c.get j w
  pub get_del : (k : List ℕ) (w w' : W) → c.del k w ≡ (ok tt, w') → c.get k w' ≡ ok none
