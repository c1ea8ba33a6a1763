-- ===== src/State/RedisClient.antt =====
-- backend/app/redis/client.py, the Redis client that the
-- process shares.
use enterprise_auth_server.Common.{
  ℕ, ◌+◌, ◌≡◌, Option, none, some, List, [], ◌∷◌, arith, is_some, if◌then◌else◌,
}

-- `_client`, and how many clients the process has made and closed.
pub record Connections : Type 0 where
  pub client : Option ℕ
  pub made : ℕ
  pub closed : ℕ

-- `get_redis`: the client, numbered in the order of their making.
unfoldable pub get_redis : Connections → ℕ × Connections
get_redis c = elim c.client [
  | some n ↦ (n, c)
  | none ↦ (c.made, record c { client = some c.made; made = c.made + 1 })
]

-- `close_redis`
unfoldable pub close_redis : Connections → Connections
close_redis c = elim c.client [
  | some n ↦ record c { client = none; closed = c.closed + 1 }
  | none ↦ c
]

pub data Call : Type 0 where
  gets_client closes : Call

unfoldable pub calls : List Call → Connections → Connections
unfolding get_redis close_redis
calls [] c = c
calls (gets_client ∷ more) c = calls more (get_redis c).1
calls (closes ∷ more) c = calls more (close_redis c)

-- At most one client is open, and it is the last one made.
pub record IsOneOpen (c : Connections) : Type 0 where
  pub counted : c.made ≡ c.closed + (if is_some c.client then 1 else 0)
  pub last : (n : ℕ) → c.client ≡ some n → n + 1 ≡ c.made

get_redis-IsOneOpen : (c : Connections) → IsOneOpen c → IsOneOpen (get_redis c).1
unfolding get_redis
get_redis-IsOneOpen c h = record {
  counted = ground (arith, h.counted);
  last = λ n e. ground (arith, h.counted, h.last n);
}

close_redis-IsOneOpen : (c : Connections) → IsOneOpen c → IsOneOpen (close_redis c)
unfolding close_redis
close_redis-IsOneOpen c h = record {
  counted = ground (arith, h.counted);
  last = λ n e. ground (arith, h.last n);
}

-- However the calls are mixed, no client but the current one is left open.
pub calls-IsOneOpen : (cs : List Call) (c : Connections) → IsOneOpen c → IsOneOpen (calls cs c)
unfolding calls
calls-IsOneOpen [] c h = h
calls-IsOneOpen (gets_client ∷ cs) c h = calls-IsOneOpen cs _ (get_redis-IsOneOpen c h)
calls-IsOneOpen (closes ∷ cs) c h = calls-IsOneOpen cs _ (close_redis-IsOneOpen c h)

-- Until it is closed, every caller gets the same client.
pub get_redis_twice :
    (c : Connections) → get_redis (get_redis c).1 ≡ ((get_redis c).0, (get_redis c).1)
unfolding get_redis
get_redis_twice c = ground arith
