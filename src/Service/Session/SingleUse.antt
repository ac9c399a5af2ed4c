-- ===== src/Service/Session/SingleUse.antt =====
-- A refresh token serves once, over a revocation store that keeps what it is told.
use identra.Common.{ℕ, String, ◌≡◌, ◌≢◌, ap, ◌<◌, Bool, false, Option, some, arith}
use identra.Common.Exec.{Result, ok, bind-elim, refuse-elim}
use identra.Text.{trim_space}
use identra.Security.Tokens.{Claims, TokenPair, Jwt, validate_refresh_token}
use identra.Security.Keys.{PublicKey}
use identra.Service.{Service, Fault, RefreshTokenRevocationStore}
use identra.Service.Blocks.{attempt-eq-ok}
use identra.Service.Session.{
  ensure_refresh_token_active, revoke_in, revoke_refresh_claims, refresh_session, revoke_session,
}
use identra.Service.Session.Rotation.{
  FoundActive, FoundSpent, refresh_session_sound, validated_refresh-eq-ok, ensure_active_in-eq-ok,
}

-- What the handlers rely on. `Spent v id exp` says that in the state `v` the token with this id and
-- expiry has been revoked.
pub record RevocationLaws {W P : Type 0} (s : Service W P) (store : RefreshTokenRevocationStore W)
    : Type 1 where
  pub Spent : W → String → ℕ → Type 0
  -- a revocation that is answered has been written
  pub spends :
      (id : String) (exp : ℕ) (w w' : W)
      → id ≢ ""
      → store.revoke id exp w ≡ (ok tt, w')
      → Spent w' id exp
  -- a token that is revoked and not yet expired is not said to be active
  pub refuses :
      (v : W) (id : String) (exp : ℕ)
      → Spent v id exp
      → (s.runtime.now v).0 < exp
      → (store.is_revoked id (s.runtime.now v).1).0 ≢ ok false

-- What the library answers for a token's text: the same claims whenever it answers, with an id and
-- with an expiry that has not passed.
pub record ReadsAs {P : Type 0} (jwt : Jwt P) (key : Option PublicKey) (token : String) (c : Claims)
    (exp : ℕ) : Type 0 where
  pub same : (now : ℕ) (d : Claims) → validate_refresh_token jwt token key now ≡ ok d → d ≡ c
  pub dated : c.expires_at ≡ some exp
  pub identified : c.token_id ≢ ""
  pub current : (now : ℕ) (d : Claims) → validate_refresh_token jwt token key now ≡ ok d → now < exp

module _ {W P : Type 0} (s : Service W P) (store : RefreshTokenRevocationStore W)
    (configured : s.refresh_token_revocations ≡ some store) (token : String) (c : Claims) (exp : ℕ)
    (reads : ReadsAs s.jwt s.token_cfg.public_key (trim_space token) c exp) where
  revoke_refresh_claims-tells :
      (d : Claims) (w w' : W)
      → d ≡ c
      → revoke_refresh_claims s d w ≡ (ok tt, w')
      → store.revoke c.token_id exp w ≡ (ok tt, w')
  unfolding revoke_refresh_claims
  revoke_refresh_claims-tells d w w' same h =
      let h1 : revoke_in (some store) (some exp) c.token_id w ≡ (ok tt, w') =
        rw (same, configured, reads.dated) at h in
      attempt-eq-ok _ _ w h1

  -- A refresh that returns has told the store last that the token is revoked.
  pub refresh_session-tells :
      (w w' : W) (pair : TokenPair)
      → refresh_session s token w ≡ (ok pair, w')
      → (u : W) × (store.revoke c.token_id exp u ≡ (ok tt, w'))
  refresh_session-tells w w' pair h =
      let r = refresh_session_sound s token w w' pair h in
      let spent : FoundSpent (some store) (some exp) c.token_id r.issued w' =
        rw (reads.same _ _ r.valid, configured, reads.dated) at r.spent in
      (r.issued, spent)

  -- Where the store does not say of a token that is current that it is active.
  abbrev pub Refusing : W → Type 0
  Refusing v =
      (s.runtime.now v).0 < exp → (store.is_revoked c.token_id (s.runtime.now v).1).0 ≢ ok false

  Refusing-inactive :
      (v v' : W) (d : Claims)
      → Refusing v
      → validate_refresh_token s.jwt (trim_space token) s.token_cfg.public_key (s.runtime.now v).0
        ≡ ok d
      → FoundActive s.refresh_token_revocations d.token_id (s.runtime.now v).1 v'
      → ⊥
  Refusing-inactive v v' d refuses valid active =
      let answer : FoundActive (some store) c.token_id (s.runtime.now v).1 v' =
        rw (configured, reads.same _ _ valid) at active in
      refuses (reads.current _ _ valid) (ap (λ (r : Result Fault Bool × W). r.0) answer)

  -- There the token opens neither a refresh nor a revocation.
  pub Refusing-dead :
      (v v' : W) (pair : TokenPair)
      → Refusing v
      → (refresh_session s token v ≢ (ok pair, v')) × (revoke_session s token v ≢ (ok tt, v'))
  unfolding revoke_session ensure_refresh_token_active
  Refusing-dead v v' pair refuses = (
    λ h.
        let r = refresh_session_sound s token v v' pair h in
        Refusing-inactive v r.asked r.claims refuses r.valid (rw r.clock at r.active),
    λ h. refuse-elim _ _ _ v h λ _ h0. bind-elim _ _ v h0 λ d v1 e1 h1.
        bind-elim _ _ v1 h1 λ _ v2 e2 h2.
          let (valid, at) = validated_refresh-eq-ok s _ v e1 in
          Refusing-inactive v v2 d refuses valid
            (rw at at (ensure_active_in-eq-ok s.refresh_token_revocations d.token_id v1 e2)),
  )

module _ {W P : Type 0} (s : Service W P) (store : RefreshTokenRevocationStore W)
    (laws : RevocationLaws s store) (configured : s.refresh_token_revocations ≡ some store)
    (token : String) (c : Claims) (exp : ℕ)
    (reads : ReadsAs s.jwt s.token_cfg.public_key (trim_space token) c exp) where
  revoke-spends :
      (d : Claims) (w w' : W)
      → d ≡ c
      → revoke_refresh_claims s d w ≡ (ok tt, w')
      → laws.Spent w' c.token_id exp
  revoke-spends d w w' same h =
      laws.spends c.token_id exp w w' reads.identified
        (revoke_refresh_claims-tells s store configured token c exp reads d w w' same h)

  -- A token that is spent opens neither a refresh nor a revocation.
  pub spent_is_dead :
      (v v' : W) (pair : TokenPair)
      → laws.Spent v c.token_id exp
      → (refresh_session s token v ≢ (ok pair, v')) × (revoke_session s token v ≢ (ok tt, v'))
  spent_is_dead v v' pair spent =
      Refusing-dead s store configured token c exp reads v v' pair
        (λ early. laws.refuses v c.token_id exp spent early)

  -- Over a revocation store that keeps what it is told, for a token that reads as the same claims, with an
  -- id and an expiry, whenever it reads: once a refresh with the token has returned a
  -- pair, in every later state in which the revocations that were then written stand, the same token
  -- is refused by a refresh and by a revocation.
  pub refresh_token_serves_once :
      (w w' v v' : W) (pair pair' : TokenPair)
      → refresh_session s token w ≡ (ok pair, w')
      → ((id : String) (e : ℕ) → laws.Spent w' id e → laws.Spent v id e)
      → (refresh_session s token v ≢ (ok pair', v')) × (revoke_session s token v ≢ (ok tt, v'))
  refresh_token_serves_once w w' v v' pair pair' h stands =
      let (u, told) = refresh_session-tells s store configured token c exp reads w w' pair h in
      spent_is_dead v v' pair' (stands _ _ (laws.spends c.token_id exp u w' reads.identified told))

  -- Over a revocation store that keeps what it is told, for a token that reads as the same claims, with an id and an expiry,
  -- whenever it reads: once a revocation of the token has succeeded, in
  -- every later state in which the revocations that were then written stand, the same token is refused by
  -- a refresh and by a revocation.
  pub revoked_token_is_dead :
      (w w' v v' : W) (pair : TokenPair)
      → revoke_session s token w ≡ (ok tt, w')
      → ((id : String) (e : ℕ) → laws.Spent w' id e → laws.Spent v id e)
      → (refresh_session s token v ≢ (ok pair, v')) × (revoke_session s token v ≢ (ok tt, v'))
  unfolding revoke_session
  revoked_token_is_dead w w' v v' pair h stands = refuse-elim _ _ _ w h λ _ h0.
      bind-elim _ _ w h0 λ d w1 e1 h1. bind-elim _ _ w1 h1 λ _ w2 e2 h2.
        bind-elim _ _ w2 h2 λ _ w3 e3 h3.
          let (valid, at) = validated_refresh-eq-ok s _ w e1 in
          let last : w3 ≡ w' = ground arith in
          spent_is_dead v v' pair
            (stands _ _ (revoke-spends d w2 w' (reads.same _ _ valid) (rw last at e3)))
