-- ===== src/State/Commands.antt =====
-- The Redis commands that the services send, as their documentation gives them. Every command fails
-- when the server cannot be reached.
use enterprise_auth_server.Common.{
  ℕ, ◌+◌, Bool, true, false, Option, none, some, if◌then◌else◌, ◌==◌, nat_eq, is_some,
}
use enterprise_auth_server.Core.Errors.{redis_error}
use enterprise_auth_server.Core.Units.{seconds}
use enterprise_auth_server.State.Redis.{Key, Value, number, Entry, peek, write}
use enterprise_auth_server.State.World.{World}
use enterprise_auth_server.State.Exec.{ok, err, Exec}

-- The rest of a command, once the server has answered.
abbrev reach {ℓ} : {A : Type ℓ} → Bool → Exec A → Exec A
reach true m = m
reach false m = λ w. (err redis_error, w)

abbrev store : World → Key → Option Entry → World
store w k e = record w { redis = write w.redis k e }

-- EXISTS key
unfoldable pub exists : Key → Exec Bool
exists k w = reach w.redis.up (λ v. (ok (is_some (peek v.now v.redis k)), v)) w

-- PING
unfoldable pub ping : Exec (Unit {0})
ping w = reach w.redis.up (λ v. (ok tt, v)) w

-- GET key
unfoldable pub get : Key → Exec (Option Value)
get k w = reach w.redis.up (λ v. (ok (peek v.now v.redis k), v)) w

-- SET key value EX seconds: an expire time of 0 is refused.
unfoldable pub set : Key → Value → ℕ → Exec (Unit {0})
set k x ex w =
    reach w.redis.up
      (λ v.
        if ex == 0
        then (err redis_error, v)
        else (ok tt, store v k (some (record { value = x; expires = some (v.now + seconds ex) }))))
      w

-- DEL key
unfoldable pub delete : Key → Exec (Unit {0})
delete k w = reach w.redis.up (λ v. (ok tt, store v k none)) w

-- INCR key: a missing key counts as 0 and gets no expiry; one that is there keeps its own.
incr_live : Key → Option Value → Option Entry → Exec ℕ
incr_live k none e v = (ok 1, store v k (some (record { value = number 1; expires = none })))
incr_live k (some (number n)) (some e) v =
    (ok (n + 1), store v k (some (record e { value = number (n + 1) })))
incr_live k (some x) e v = (err redis_error, v)

unfoldable pub incr : Key → Exec ℕ
unfolding incr_live
incr k w = reach w.redis.up (λ v. incr_live k (peek v.now v.redis k) (v.redis.store k) v) w

-- EXPIRE key seconds: a missing key stays missing.
expire_live : Key → ℕ → Option Value → Exec (Unit {0})
expire_live k ex none v = (ok tt, v)
expire_live k ex (some x) v =
    (ok tt, store v k (some (record { value = x; expires = some (v.now + seconds ex) })))

unfoldable pub expire : Key → ℕ → Exec (Unit {0})
unfolding expire_live
expire k ex w = reach w.redis.up (λ v. expire_live k ex (peek v.now v.redis k) v) w
