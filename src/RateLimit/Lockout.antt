-- ===== src/RateLimit/Lockout.antt =====
-- The lockout of services/rate_limit.py over a run of failed logins.
use enterprise_auth_server.Common.{
  ℕ, suc, ◌+◌, ◌≤◌, ◌<◌, ◌≡◌, true, Option, none, some, List, [], ◌∷◌, Text, ltb, length, arith,
  if◌then◌else◌, text_beq_iff, subst, ◌≢◌,
}
use enterprise_auth_server.Core.Settings.{Settings}
use enterprise_auth_server.Core.Units.{seconds}
use enterprise_auth_server.State.Redis.{lockout, failcount, number, peek}
use enterprise_auth_server.State.World.{World, wait}
use enterprise_auth_server.Core.Errors.{account_locked}
use enterprise_auth_server.State.Exec.{ok, err}
use enterprise_auth_server.RateLimit.{scoped, ensure_not_locked, record_failure}

-- A failure after each of the given waits.
unfoldable pub failures : Settings → Text → Option Text → List ℕ → World → World
failures s identifier ip [] w = w
failures s identifier ip (d ∷ ds) w =
    failures s identifier ip ds (record_failure s identifier ip (wait d w)).1

-- The time that passes over some waits.
abbrev pub total : List ℕ → ℕ
total [] = 0
total (d ∷ ds) = d + total ds

module _ (s : Settings) (identifier : Text) (ip : Option Text) where
  abbrev name : Text
  name = scoped identifier ip

  -- `k` failures counted, in a window that ends at `deadline`.
  record Counting (k deadline : ℕ) (w : World) : Type 0 where
    up : w.redis.up ≡ true
    counted :
        w.redis.store (failcount name) ≡ some (record { value = number k; expires = some deadline })
    unlocked : peek w.now w.redis (lockout name) ≡ none

  -- The lock is set and lasts until `deadline`.
  record Locked (deadline : ℕ) (w : World) : Type 0 where
    up : w.redis.up ≡ true
    locked :
        w.redis.store (lockout name) ≡ some (record { value = number 1; expires = some deadline })

  wait-Counting :
      {k deadline : ℕ} {w : World} (d : ℕ) → Counting k deadline w → Counting k deadline (wait d w)
  wait-Counting d c = record {
    up = c.up;
    counted = c.counted;
    unlocked = ground (arith, c.unlocked);
  }

  first_failure :
      (w : World)
      → w.redis.up ≡ true
      → peek w.now w.redis (failcount name) ≡ none
      → peek w.now w.redis (lockout name) ≡ none
      → 1 < s.max_failed_logins
      → Counting 1 (w.now + seconds s.lockout_seconds) (record_failure s identifier ip w).1
  unfolding record_failure
  first_failure w up h l m = record {
    up = ground arith;
    counted = ground (arith, text_beq_iff name name);
    unlocked = ground arith;
  }

  next_failure :
      {k deadline : ℕ} {w : World}
      → Counting k deadline w
      → w.now < deadline
      → suc k < s.max_failed_logins
      → 0 < k
      → Counting (suc k) deadline (record_failure s identifier ip w).1
  unfolding record_failure
  next_failure c h m p = record {
    up = ground (arith, c.up, c.counted);
    counted = ground (arith, c.up, c.counted, text_beq_iff name name);
    unlocked = ground (arith, c.up, c.counted, c.unlocked);
  }

  only_failure :
      (w : World)
      → w.redis.up ≡ true
      → peek w.now w.redis (failcount name) ≡ none
      → s.max_failed_logins ≤ 1
      → 0 < s.lockout_seconds
      → Locked (w.now + seconds s.lockout_seconds) (record_failure s identifier ip w).1
  unfolding record_failure
  only_failure w up h m l = record {
    up = ground arith;
    locked = ground (arith, text_beq_iff name name);
  }

  last_failure :
      {k deadline : ℕ} {w : World}
      → Counting k deadline w
      → w.now < deadline
      → s.max_failed_logins ≤ suc k
      → 0 < s.lockout_seconds
      → 0 < k
      → Locked (w.now + seconds s.lockout_seconds) (record_failure s identifier ip w).1
  unfolding record_failure
  last_failure c h m l p = record {
    up = ground (arith, c.up, c.counted);
    locked = ground (arith, c.up, c.counted, text_beq_iff name name);
  }

  now-record_failure : (w : World) → (record_failure s identifier ip w).1.now ≡ w.now
  unfolding record_failure
  now-record_failure w = ground arith

  -- Fewer failures than the maximum only count.
  few_failures :
      (ds : List ℕ) {k deadline : ℕ} {w : World}
      → Counting k deadline w
      → w.now + total ds < deadline
      → k + length ds < s.max_failed_logins
      → 0 < k
      → Counting (k + length ds) deadline (failures s identifier ip ds w)
  unfolding failures
  few_failures [] {k} {deadline} {w} c h m p = subst (λ n. Counting n deadline w) (omega arith) c
  few_failures (d ∷ ds) {k} {deadline} {w} c h m p =
      subst (λ n. Counting n deadline (failures s identifier ip (d ∷ ds) w)) (omega arith)
        (few_failures ds (next_failure (wait-Counting d c) (omega arith) (omega arith) p)
          (omega (arith, now-record_failure (wait d w))) (omega arith) (omega arith))

  -- The failure that reaches the maximum locks.
  enough_failures :
      (d : ℕ) (ds : List ℕ) {k deadline : ℕ} {w : World}
      → Counting k deadline w
      → w.now + total (d ∷ ds) < deadline
      → k + length (d ∷ ds) ≡ s.max_failed_logins
      → 0 < k
      → 0 < s.lockout_seconds
      → let v = failures s identifier ip (d ∷ ds) w in Locked (v.now + seconds s.lockout_seconds) v
  unfolding failures
  enough_failures d [] {w = w} c h m p l =
      rw (now-record_failure (wait d w))
        (last_failure (wait-Counting d c) (omega arith) (omega arith) l p)
  enough_failures d (e ∷ ds) {w = w} c h m p l =
      enough_failures e ds (next_failure (wait-Counting d c) (omega arith) (omega arith) p)
        (omega (arith, now-record_failure (wait d w))) (omega arith) (omega arith) l

  -- The state after the first of the failures, in a window of its own.
  after_failures :
      (d : ℕ) (w : World)
      → w.redis.up ≡ true
      → peek w.now w.redis (failcount name) ≡ none
      → peek w.now w.redis (lockout name) ≡ none
      → 1 < s.max_failed_logins
      → Counting 1
          (w.now + d + seconds s.lockout_seconds)
          (record_failure s identifier ip (wait d w)).1
  after_failures d w up h l m = first_failure (wait d w) up (ground arith) (ground arith) m

  failures-Locked :
      (d : ℕ) (ds : List ℕ) (w : World)
      → w.redis.up ≡ true
      → peek w.now w.redis (failcount name) ≡ none
      → peek w.now w.redis (lockout name) ≡ none
      → 0 < s.lockout_seconds
      → total ds < seconds s.lockout_seconds
      → length (d ∷ ds) ≡ s.max_failed_logins
      → let v = failures s identifier ip (d ∷ ds) w in Locked (v.now + seconds s.lockout_seconds) v
  unfolding failures
  failures-Locked d [] w up h l p t n =
      rw (now-record_failure (wait d w)) (only_failure (wait d w) up (ground arith) (omega arith) p)
  failures-Locked d (e ∷ ds) w up h l p t n =
      enough_failures e ds (after_failures d w up h l (omega arith))
        (omega (arith, now-record_failure (wait d w))) (omega arith) (omega arith) p

  -- With Redis up and a positive lockout time, a login name that has neither failures nor a lock, and
  -- then as many failures as the maximum within one window of that time, is refused with
  -- `account_locked` for exactly the lockout time after the last failure, and no longer.
  pub lockout_exact :
      (d : ℕ) (ds : List ℕ) (w : World) (t : ℕ)
      → w.redis.up ≡ true
      → peek w.now w.redis (failcount (scoped identifier ip)) ≡ none
      → peek w.now w.redis (lockout (scoped identifier ip)) ≡ none
      → 0 < s.lockout_seconds
      → total ds < seconds s.lockout_seconds
      → length (d ∷ ds) ≡ s.max_failed_logins
      → (ensure_not_locked identifier ip (wait t (failures s identifier ip (d ∷ ds) w))).0
        ≡ (if ltb t (seconds s.lockout_seconds) then err account_locked else ok tt)
  unfolding ensure_not_locked
  lockout_exact d ds w t up h l p q n =
      let k = failures-Locked d ds w up h l p q n in ground (arith, k.up, k.locked)

  -- With Redis up, a name that has neither failures nor a lock, and then fewer failures than the
  -- maximum within one window, is not locked.
  pub no_lockout_below_max :
      (d : ℕ) (ds : List ℕ) (w : World)
      → w.redis.up ≡ true
      → peek w.now w.redis (failcount (scoped identifier ip)) ≡ none
      → peek w.now w.redis (lockout (scoped identifier ip)) ≡ none
      → total ds < seconds s.lockout_seconds
      → length (d ∷ ds) < s.max_failed_logins
      → (ensure_not_locked identifier ip (failures s identifier ip (d ∷ ds) w)).0 ≡ ok tt
  unfolding ensure_not_locked failures
  no_lockout_below_max d ds w up h l q n =
      let k =
        few_failures ds (after_failures d w up h l (omega arith))
          (omega (arith, now-record_failure (wait d w))) (omega arith) (omega arith) in
      ground (arith, k.up, k.unlocked)

  -- A failure counted for one name changes nothing for a name that is spelled otherwise.
  pub record_failure_isolated :
      (other : Text) (other_ip : Option Text) (w : World)
      → scoped identifier ip ≢ scoped other other_ip
      → (ensure_not_locked other other_ip (record_failure s identifier ip w).1).0
        ≡ (ensure_not_locked other other_ip w).0
  unfolding ensure_not_locked record_failure
  record_failure_isolated other other_ip w h = ground (
    arith,
    text_beq_iff (scoped identifier ip) (scoped other other_ip),
    text_beq_iff (scoped other other_ip) (scoped identifier ip),
  )
