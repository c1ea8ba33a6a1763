-- ===== src/RateLimit/Window.antt =====
-- The fixed window of `RateLimiter.hit`.
use enterprise_auth_server.Common.{
  ℕ, suc, ◌+◌, ◌<◌, ◌≡◌, refl, true, none, some, List, [], ◌∷◌, Text, leb, arith, if◌then◌else◌,
  text_beq_iff,
}
use enterprise_auth_server.Core.Errors.{rate_limited}
use enterprise_auth_server.Core.Units.{seconds}
use enterprise_auth_server.State.Redis.{ratelimit, number, peek}
use enterprise_auth_server.State.World.{World, wait}
use enterprise_auth_server.State.Exec.{Result, ok, err}
use enterprise_auth_server.RateLimit.{hit}
use enterprise_auth_server.RateLimit.Lockout.{total}

-- What a window promises: the n-th hit passes when n is at most the limit.
unfoldable pub verdicts : ℕ → ℕ → List ℕ → List (Result (Unit {0}))
verdicts limit n [] = []
verdicts limit n (d ∷ ds) =
    (if leb n limit then ok tt else err rate_limited) ∷ verdicts limit (suc n) ds

module _ (key : Text) (limit window : ℕ) where
  -- The outcomes of a run of hits, each after a wait.
  unfoldable pub hits : List ℕ → World → List (Result (Unit {0}))
  hits [] w = []
  hits (d ∷ ds) w =
      (hit key limit window (wait d w)).0 ∷ hits ds (hit key limit window (wait d w)).1

  record Counting (k deadline : ℕ) (w : World) : Type 0 where
    up : w.redis.up ≡ true
    counted :
        w.redis.store (ratelimit key) ≡ some (record { value = number k; expires = some deadline })

  next_hit :
      {k deadline : ℕ} {w : World}
      → Counting k deadline w
      → w.now < deadline
      → 0 < k
      → Counting (suc k) deadline (hit key limit window w).1
  unfolding hit
  next_hit c h p = record {
    up = ground (arith, c.up, c.counted);
    counted = ground (arith, c.up, c.counted, text_beq_iff key key);
  }

  next_verdict :
      {k deadline : ℕ} {w : World}
      → Counting k deadline w
      → w.now < deadline
      → 0 < k
      → (hit key limit window w).0 ≡ (if leb (suc k) limit then ok tt else err rate_limited)
  unfolding hit
  next_verdict c h p = ground (arith, c.up, c.counted)

  first_hit :
      (w : World)
      → w.redis.up ≡ true
      → peek w.now w.redis (ratelimit key) ≡ none
      → Counting 1 (w.now + seconds window) (hit key limit window w).1
  unfolding hit
  first_hit w up h = record { up = ground arith; counted = ground (arith, text_beq_iff key key) }

  first_verdict :
      (w : World)
      → w.redis.up ≡ true
      → peek w.now w.redis (ratelimit key) ≡ none
      → (hit key limit window w).0 ≡ (if leb 1 limit then ok tt else err rate_limited)
  unfolding hit
  first_verdict w up h = ground (arith, text_beq_iff key key)

  now-hit : (w : World) → (hit key limit window w).1.now ≡ w.now
  unfolding hit
  now-hit w = ground arith

  later_hits :
      (ds : List ℕ) {k deadline : ℕ} {w : World}
      → Counting k deadline w
      → w.now + total ds < deadline
      → 0 < k
      → hits ds w ≡ verdicts limit (suc k) ds
  unfolding hits verdicts
  later_hits [] c h p = refl
  later_hits (d ∷ ds) {w = w} c h p =
      let v = wait d w in
      let c' : Counting _ _ v = record { up = c.up; counted = c.counted } in
      rw (
        next_verdict c' (omega arith) p,
        later_hits ds (next_hit c' (omega arith) p) (omega (arith, now-hit v)) (omega arith),
      )

  -- With Redis up, from a key with no live counter, the hits that fall within one window pass up to
  -- the limit and are all refused beyond it.
  pub hits-eq-verdicts :
      (d : ℕ) (ds : List ℕ) (w : World)
      → w.redis.up ≡ true
      → peek w.now w.redis (ratelimit key) ≡ none
      → total ds < seconds window
      → hits (d ∷ ds) w ≡ verdicts limit 1 (d ∷ ds)
  unfolding hits verdicts
  hits-eq-verdicts d ds w up h t = rw (
    first_verdict (wait d w) up (ground arith),
    later_hits ds (first_hit (wait d w) up (ground arith)) (omega (arith, now-hit (wait d w)))
        (omega arith),
  )
