-- ===== src/Redis/Limiter/Bound.antt =====
-- How many attempts a limiter lets through.
use identra.Common.{
  ℕ, zero, suc, String, ◌≡◌, refl, sym, ◌∙◌, ◌≤◌, ◌<◌, true, Option, none, some, ltb, arith, inl,
  inr, Bool-cases,
}
use identra.Common.Exec.{ok}
use identra.Redis.{RedisLaws, send}
use identra.Redis.Limiter.{
  RedisRateLimiter, full_key, window_seconds, first_expires, allowed, is_allowed, record_attempt,
}

module _ {W : Type 0} (r : RedisRateLimiter W) (key : String) where
  -- What the server keeps for the key.
  abbrev pub counter : W → Option String
  counter w = r.rdb.get (full_key r key) w

  -- A call leaves the counter as it was until it reaches the server: the counter does not expire
  -- meanwhile, and no other process writes it.
  abbrev pub Steady : W → Type 0
  Steady w = counter (r.rdb.connection w).1 ≡ counter w

  -- So many attempts have been recorded since there was no counter, each by a call that returned,
  -- and whatever happened between them left the counter.
  pub data Attempts : ℕ → W → Type 0 where
    fresh : (w : W) → counter w ≡ none → Attempts 0 w
    attempt :
        (n : ℕ) (w w' : W)
        → Attempts n w
        → Steady w
        → record_attempt r key w ≡ (ok tt, w')
        → Attempts (suc n) w'
    later : (n : ℕ) (w v : W) → Attempts n w → counter v ≡ counter w → Attempts n v

  abbrev kept : ℕ → Option String
  kept zero = none
  kept (suc n) = some (r.rdb.numeral (suc n))

  module _ (laws : RedisLaws r.rdb) where
    -- An attempt that is recorded has been counted by the server.
    recorded :
        (w : W) {w' : W}
        → record_attempt r key w ≡ (ok tt, w')
        → (v : W) × (v ≡ (r.rdb.connection w).1)
          × (first_expires r (full_key r key) (r.rdb.incr (full_key r key) v) ≡ (ok tt, w'))
    unfolding record_attempt send
    recorded w h = elim (Bool-cases (r.rdb.connection w).0) [
      | inl up ↦ ((r.rdb.connection w).1, refl, ground arith)
      | inr down ↦ absurd (ground arith)
    ]

    counted_first :
        (v : W) {w' : W}
        → 0 < window_seconds r
        → counter v ≡ none
        → first_expires r (full_key r key) (r.rdb.incr (full_key r key) v) ≡ (ok tt, w')
        → counter w' ≡ kept 1
    counted_first v {w'} positive absent h =
        let (one, text) = laws.incr_first (full_key r key) v absent in
        let u = (r.rdb.incr (full_key r key) v).1 in
        let now : r.rdb.expire (full_key r key) (window_seconds r) u ≡ w' = ground arith in
        rw (sym now)
          (laws.expire_later (full_key r key) (full_key r key) (window_seconds r) u positive ∙ text)

    counted_next :
        (n : ℕ) (v : W) {w' : W}
        → suc (suc n) < 9223372036854775808
        → counter v ≡ kept (suc n)
        → first_expires r (full_key r key) (r.rdb.incr (full_key r key) v) ≡ (ok tt, w')
        → counter w' ≡ kept (suc (suc n))
    counted_next n v {w'} small present h =
        let (more, text) = laws.incr_next (full_key r key) (suc n) v small present in
        let now : (r.rdb.incr (full_key r key) v).1 ≡ w' = ground arith in rw (sym now) text

    pub Attempts-count :
        (n : ℕ) (w : W)
        → 0 < window_seconds r
        → n < 9007199254740992
        → Attempts n w
        → counter w ≡ kept n
    Attempts-count _ _ positive small (fresh w absent) = absent
    Attempts-count _ _ positive small (later n w0 w made same) =
        same ∙ Attempts-count n w0 positive small made
    Attempts-count _ _ positive small (attempt zero w0 w made steady done) =
        let (v, reached, counted) = recorded w0 done in
        counted_first v positive
          (rw reached (steady ∙ Attempts-count zero w0 positive (ground arith) made)) counted
    Attempts-count _ _ positive small (attempt (suc n) w0 w made steady done) =
        let (v, reached, counted) = recorded w0 done in
        counted_next n v (ground arith)
          (rw reached (steady ∙ Attempts-count (suc n) w0 positive (ground arith) made)) counted

    -- A window that is rounded to no second deletes the counter with each attempt.
    never_counted : (n : ℕ) (w : W) → r.window < 1000000000 → Attempts n w → counter w ≡ none
    never_counted _ _ short (fresh w absent) = absent
    never_counted _ _ short (later n w0 w made same) = same ∙ never_counted n w0 short made
    never_counted _ _ short (attempt n w0 w made steady done) =
        let (v, reached, counted) = recorded w0 done in
        let absent : counter v ≡ none = rw reached (steady ∙ never_counted n w0 short made) in
        let (one, text) = laws.incr_first (full_key r key) v absent in
        let u = (r.rdb.incr (full_key r key) v).1 in
        let no_second : window_seconds r ≡ 0 = ground arith in
        let set : r.rdb.expire (full_key r key) (window_seconds r) u ≡ w = ground arith in
        let now : r.rdb.expire (full_key r key) 0 u ≡ w = rw no_second at set in
        rw (sym now) (laws.expire_now (full_key r key) u)

    -- What the limiter answers is the comparison of the counter that the server has.
    answered :
        (w : W)
        → (r.rdb.connection w).0 ≡ true
        → Steady w
        → (is_allowed r key w).0 ≡ allowed r (counter w)
    unfolding is_allowed send
    answered w up steady = ground arith

    allowed_below :
        (n : ℕ)
        → n < 9007199254740992
        → 0 < r.max_attempts
        → allowed r (kept n) ≡ ok (ltb n r.max_attempts)
    allowed_below zero small positive = ground arith
    allowed_below (suc n) small positive = rw (laws.number (suc n) small) refl

    -- Over a Redis that keeps its documentation, for a limit that is positive and a window of a second or more: after
    -- so many recorded attempts, below 2 ^ 53, with a counter that has not expired and that no one else
    -- has written, the limiter lets a call through that reaches the server exactly where they are
    -- fewer than the limit.
    pub limiter_lets_through :
        (n : ℕ) (w : W)
        → 1000000000 ≤ r.window
        → 0 < r.max_attempts
        → n < 9007199254740992
        → Attempts n w
        → Steady w
        → (r.rdb.connection w).0 ≡ true
        → (is_allowed r key w).0 ≡ ok (ltb n r.max_attempts)
    limiter_lets_through n w long positive small made steady up =
        answered w up steady
        ∙ rw (Attempts-count n w (ground arith) small made) (allowed_below n small positive)

    -- Over a Redis that keeps its documentation, for a window below a second: the limiter lets every call through
    -- that reaches the server, however many attempts have been recorded, with a counter that no one else has written.
    pub short_window_never_blocks :
        (n : ℕ) (w : W)
        → r.window < 1000000000
        → Attempts n w
        → Steady w
        → (r.rdb.connection w).0 ≡ true
        → (is_allowed r key w).0 ≡ ok true
    short_window_never_blocks n w short made steady up =
        answered w up steady ∙ rw (never_counted n w short made) refl
