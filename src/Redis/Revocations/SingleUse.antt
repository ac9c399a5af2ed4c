-- ===== src/Redis/Revocations/SingleUse.antt =====
-- A refresh token serves once over the store of revocations in Redis.
use identra.Common.{
  ℕ, String, ◌≡◌, ◌≢◌, ◌⊎◌, sym, ◌≤◌, ◌<◌, ◌-◌, ◌+◌, true, false, some, arith, inl, inr, eqb,
  Bool-cases, ne→==-false, ltb, ◌/◌, ◌*◌, if◌then◌else◌,
}
use identra.Common.Exec.{ok, ◌>>=◌}
use identra.Security.Tokens.{Runtime, TokenPair, Claims}
use identra.Service.{Service}
use identra.Service.Session.{refresh_session, revoke_session}
use identra.Service.Session.SingleUse.{ReadsAs, refresh_session-tells, Refusing-dead}
use identra.Text.{trim_space}
use identra.Redis.{Redis, send}
use identra.Redis.Revocations.{
  RedisRevocationStore, key, revoke, is_revoked, revocation_store, is_present,
}

-- A time to live as go-redis sends it: whole milliseconds, at least one.
abbrev pub in_ms : ℕ → ℕ
in_ms ttl = if ltb ttl 1000000 then 1000000 else ttl / 1000000 * 1000000

-- The time that SET with a time to live relies on, and what it writes: `Until w k t` says that in the
-- state `w` the key stays until the time `t`. Time passes while the clock is read and while a call is
-- on its way to the server, whose clock is that of the process.
pub record Lifetimes {W : Type 0} (rdb : Redis W) (runtime : Runtime W) : Type 1 where
  pub time : W → ℕ
  pub Until : W → String → ℕ → Type 0
  pub clock : (w : W) → (time w ≤ (runtime.now w).0) × ((runtime.now w).0 ≤ time (runtime.now w).1)
  pub server : (w : W) → time w ≤ time (rdb.connection w).1
  pub clock_keeps : (w : W) (k : String) (t : ℕ) → Until w k t → Until (runtime.now w).1 k t
  pub server_keeps : (w : W) (k : String) (t : ℕ) → Until w k t → Until (rdb.connection w).1 k t
  pub set_until :
      (k v : String) (ttl : ℕ) (w : W) → 0 < ttl → Until (rdb.set k v ttl w) k (time w + in_ms ttl)
  pub present :
      (w : W) (k : String) (t : ℕ) → Until w k t → time w < t → is_present (rdb.get k w) ≡ true

in_ms_near : (ttl : ℕ) → ttl < in_ms ttl + 1000000
in_ms_near ttl = elim (Bool-cases (ltb ttl 1000000)) [
  | inl short ↦ rw short (ground arith)
  | inr long ↦ rw long (omega arith)
]

late_enough :
    (exp now v u kept : ℕ) → now ≤ v → v ≤ u → exp - now < kept + 1000000 → exp < u + kept + 1000000
late_enough exp now v u kept h k l = omega arith

module _ {W P : Type 0} (s : Service W P) (store : RedisRevocationStore W)
    (lives : Lifetimes store.rdb s.runtime) where
  -- The token has an id, and its key stays until less than a millisecond before the token's expiry, or
  -- that has passed.
  abbrev pub IsKept : W → String → ℕ → Type 0
  IsKept w id exp =
      (id ≢ "")
      × (((t : ℕ) × lives.Until w (key s.runtime store id) t × (exp < t + 1000000))
          ⊎ (exp ≤ lives.time w))

  revoke-IsKept :
      (id : String) (exp : ℕ) (w w' : W)
      → id ≢ ""
      → revoke s.runtime store id exp w ≡ (ok tt, w')
      → IsKept w' id exp
  unfolding revoke send ◌>>=◌
  revoke-IsKept id exp w w' named h =
      let unnamed = ne→==-false id "" named in
      let (now, v) = s.runtime.now w in
      let (_, read) = lives.clock w in
      elim (Bool-cases (eqb (exp - now) 0)) [
        | inl expired ↦
            let last : v ≡ w' = ground arith in
            let over : exp ≤ lives.time v = ground arith in (named, inr (rw (sym last) over))
        | inr alive ↦ elim (Bool-cases (store.rdb.connection v).0) [
          | inr down ↦ absurd (ground arith)
          | inl up ↦
              let u = (store.rdb.connection v).1 in
              let last : store.rdb.set (key s.runtime store id) "1" (exp - now) u ≡ w' =
                ground arith in
              let reached = lives.server v in
              let near = in_ms_near (exp - now) in
              let late : exp < lives.time u + in_ms (exp - now) + 1000000 =
                late_enough exp now (lives.time v) (lives.time u) (in_ms (exp - now)) read reached
                  near in
              let kept =
                lives.set_until (key s.runtime store id) "1" (exp - now) u (ground arith) in
              (named, inl (lives.time u + in_ms (exp - now), rw last at kept, late))
        ]
      ]

  -- Where the check reaches the server a millisecond or more before the expiry.
  abbrev pub InTime : W → ℕ → Type 0
  InTime v exp = lives.time (store.rdb.connection (s.runtime.now v).1).1 + 1000000 ≤ exp

  IsKept-refuses :
      (v : W) (id : String) (exp : ℕ)
      → IsKept v id exp
      → InTime v exp
      → (is_revoked s.runtime store id (s.runtime.now v).1).0 ≢ ok false
  unfolding is_revoked send
  IsKept-refuses v id exp (named, inr passed) early h =
      let (before, after) = lives.clock v in
      let reached = lives.server (s.runtime.now v).1 in absurd (omega arith)
  IsKept-refuses v id exp (named, inl (t, stays, near)) early h =
      let unnamed = ne→==-false id "" named in
      let u = (s.runtime.now v).1 in
      let u' = (store.rdb.connection u).1 in
      let there = lives.server_keeps u _ t (lives.clock_keeps v _ t stays) in
      let in_time : lives.time u' < t = omega arith in
      let found = lives.present u' (key s.runtime store id) t there in_time in
      elim (Bool-cases (store.rdb.connection u).0) [
        | inr down ↦ absurd (ground arith)
        | inl up ↦ absurd (ground arith)
      ]

  later-IsKept :
      (w v : W) (id : String) (exp : ℕ)
      → ((k : String) (t : ℕ) → lives.Until w k t → lives.Until v k t)
      → lives.time w ≤ lives.time v
      → IsKept w id exp
      → IsKept v id exp
  later-IsKept w v id exp stands onward (named, inl (t, stays, near)) =
      (named, inl (t, stands _ t stays, near))
  later-IsKept w v id exp stands onward (named, inr passed) = (named, inr (omega arith))

  -- Over a Redis that keeps a key for the time that SET gives it, which go-redis rounds down to a whole
  -- millisecond, with a clock that is the server's and does not run back while a call is made, for a token that reads as the same claims,
  -- with an id and an expiry, whenever it reads: once a refresh with the token has returned
  -- a pair, the token is refused by a refresh and by a revocation in every later state in which the keys
  -- that were then kept are kept until the same times, in which time has not run back, and from which
  -- the check of the token reaches the server a millisecond or more before the token's expiry.
  pub redis_refresh_serves_once :
      (token : String) (c : Claims) (exp : ℕ) (w w' v v' : W) (pair pair' : TokenPair)
      → s.refresh_token_revocations ≡ some (revocation_store s.runtime store)
      → ReadsAs s.jwt s.token_cfg.public_key (trim_space token) c exp
      → refresh_session s token w ≡ (ok pair, w')
      → ((k : String) (t : ℕ) → lives.Until w' k t → lives.Until v k t)
      → lives.time w' ≤ lives.time v
      → InTime v exp
      → (refresh_session s token v ≢ (ok pair', v')) × (revoke_session s token v ≢ (ok tt, v'))
  unfolding revocation_store
  redis_refresh_serves_once token c exp w w' v v' pair pair' configured reads h stands onward
        early =
      let cache = revocation_store s.runtime store in
      let (u, told) = refresh_session-tells s cache configured token c exp reads w w' pair h in
      let kept = revoke-IsKept c.token_id exp u w' reads.identified told in
      Refusing-dead s cache configured token c exp reads v v' pair' λ current.
        IsKept-refuses v c.token_id exp (later-IsKept w' v c.token_id exp stands onward kept) early
