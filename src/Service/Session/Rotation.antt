-- ===== src/Service/Session/Rotation.antt =====
-- What a refresh has checked, and that a refresh token serves once.
use identra.Common.{
  ℕ, String, ◌==◌, eq_iff, ap, inl, inr, Bool-cases, Option-cases, ◌≡◌, ◌∙◌, sym, false, Option,
  none, some, arith,
}
use identra.Common.Exec.{ok, bind-elim, bind-run, refuse-elim}
use identra.Text.{trim_space}
use identra.Security.Tokens.{
  Claims, TokenPair, Jwt, validate_refresh_token, new_token_pair, refresh_token_type,
}
use identra.Security.Keys.{PublicKey}
use identra.Service.{Service, UserModel, RefreshTokenRevocationStore}
use identra.Service.Blocks.{attempt-eq-ok}
use identra.Service.Session.{
  revoke_in, validated_refresh, ensure_active_in, ensure_refresh_token_active,
  revoke_refresh_claims, token_user, refresh_session,
}

-- The revocation store, if there is one, was asked in the first state, answered that the token is
-- not revoked, and left the second.
abbrev pub FoundActive :
    {W : Type 0} → Option (RefreshTokenRevocationStore W) → String → W → W → Type 0
FoundActive none token_id v v' = v ≡ v'
FoundActive (some store) token_id v v' = store.is_revoked token_id v ≡ (ok false, v')

-- The revocation store, if there is one, was told of the token's expiry, if there is one, and did not fail.
abbrev pub FoundSpent :
    {W : Type 0} → Option (RefreshTokenRevocationStore W) → Option ℕ → String → W → W → Type 0
FoundSpent none expires_at token_id v v' = v ≡ v'
FoundSpent (some store) none token_id v v' = v ≡ v'
FoundSpent (some store) (some expires_at) token_id v v' =
    store.revoke token_id expires_at v ≡ (ok tt, v')

revoke_in-eq-ok :
    {W : Type 0} (o : Option (RefreshTokenRevocationStore W)) (expires_at : Option ℕ)
    (token_id : String) (v : W) {v' : W}
    → revoke_in o expires_at token_id v ≡ (ok tt, v')
    → FoundSpent o expires_at token_id v v'
unfolding revoke_in
revoke_in-eq-ok none expires_at token_id v h = ap (λ x. x.1) h
revoke_in-eq-ok (some store) none token_id v h = ap (λ x. x.1) h
revoke_in-eq-ok (some store) (some expires_at) token_id v h = attempt-eq-ok _ _ v h

validate_refresh_token-eq-ok :
    {P : Type 0} (jwt : Jwt P) (token : String) (key : Option PublicKey) (now : ℕ) {c : Claims}
    → validate_refresh_token jwt token key now ≡ ok c
    → (jwt.parse token key now ≡ some c) × (c.token_type ≡ refresh_token_type)
unfolding validate_refresh_token
validate_refresh_token-eq-ok jwt token key now {c} h =
    elim (Option-cases (jwt.parse token key now)) [
      | inl unread ↦ let h1 = rw unread at h in absurd (ground arith)
      | inr (d, read) ↦
          let h1 = rw read at h in
          elim (Bool-cases (d.token_type == refresh_token_type)) [
            | inr other ↦ let h2 = rw other at h1 in absurd (ground arith)
            | inl same ↦
                let h2 = rw same at h1 in
                let is : d ≡ c = ground arith in
                (read ∙ ap some is, ap (λ x. x.token_type) (sym is) ∙ (eq_iff _ _).0 same)
          ]
    ]

pub ensure_active_in-eq-ok :
    {W : Type 0} (o : Option (RefreshTokenRevocationStore W)) (token_id : String) (v : W) {v' : W}
    → ensure_active_in o token_id v ≡ (ok tt, v')
    → FoundActive o token_id v v'
unfolding ensure_active_in
ensure_active_in-eq-ok none token_id v h = ground arith
ensure_active_in-eq-ok (some store) token_id v h = ground arith

module _ {W P : Type 0} (s : Service W P) where
  -- The calls of a refresh that returns, each from the state that the one before it left.
  pub record Refreshed (token : String) (w : W) (pair : TokenPair) (w' : W) : Type 0 where
    pub claims : Claims
    pub user : UserModel
    pub checked : W
    pub asked : W
    pub looked_up : W
    pub issued : W
    pub clock : checked ≡ (s.runtime.now w).1
    pub given : (trim_space token == "") ≡ false
    pub valid :
        validate_refresh_token s.jwt (trim_space token) s.token_cfg.public_key (s.runtime.now w).0
        ≡ ok claims
    pub read :
        s.jwt.parse (trim_space token) s.token_cfg.public_key (s.runtime.now w).0 ≡ some claims
    pub is_refresh : claims.token_type ≡ refresh_token_type
    pub active : FoundActive s.refresh_token_revocations claims.token_id checked asked
    pub exists_user : s.user_store.get_by_id claims.user_id asked ≡ (ok user, looked_up)
    pub pair_issued :
        new_token_pair s.runtime s.jwt claims.user_id s.token_cfg looked_up ≡ (ok pair, issued)
    pub spent : FoundSpent s.refresh_token_revocations claims.expires_at claims.token_id issued w'

  pub validated_refresh-eq-ok :
      (token : String) (w : W) {c : Claims} {v : W}
      → validated_refresh s token w ≡ (ok c, v)
      → (validate_refresh_token s.jwt token s.token_cfg.public_key (s.runtime.now w).0 ≡ ok c)
        × (v ≡ (s.runtime.now w).1)
  unfolding validated_refresh
  validated_refresh-eq-ok token w h =
      let h1 = attempt-eq-ok _ _ (s.runtime.now w).1 (sym (bind-run _ _ w) ∙ h) in
      (ground arith, ground arith)

  token_user-eq-ok :
      (c : Claims) (v : W) {user : UserModel} {v' : W}
      → token_user s c v ≡ (ok user, v')
      → s.user_store.get_by_id c.user_id v ≡ (ok user, v')
  unfolding token_user
  token_user-eq-ok c v h = ground arith

  -- A refresh that returns a pair has read the token, trimmed and not empty, as claims of the type of refresh tokens,
  -- has asked the revocation store, if there is one, which said that the token is not revoked, has
  -- found the claims' user, has issued the pair for that user, and last has had the token's id revoked until its
  -- expiry by the store (where there is a store and the claims have an expiry), each in the state that the call before left.
  pub refresh_session_sound :
      (token : String) (w w' : W) (pair : TokenPair)
      → refresh_session s token w ≡ (ok pair, w')
      → Refreshed token w pair w'
  unfolding refresh_session ensure_refresh_token_active revoke_refresh_claims
  refresh_session_sound token w w' pair h = refuse-elim _ _ _ w h λ given h0.
      bind-elim _ _ w h0 λ c w1 e1 h1. bind-elim _ _ w1 h1 λ _ w2 e2 h2.
        bind-elim _ _ w2 h2 λ user w3 e3 h3. bind-elim _ _ w3 h3 λ p w4 e4 h4.
          bind-elim _ _ w4 h4 λ _ w5 e5 h5.
            let last : w5 ≡ w' = ground arith in
            let (valid, at) = validated_refresh-eq-ok _ w e1 in
            let (read, kind) = validate_refresh_token-eq-ok _ _ _ _ valid in
            record {
              claims = c;
              user = user;
              checked = w1;
              asked = w2;
              looked_up = w3;
              issued = w4;
              clock = at;
              given = given;
              valid = valid;
              read = read;
              is_refresh = kind;
              active = ensure_active_in-eq-ok _ _ w1 e2;
              exists_user = token_user-eq-ok c w2 e3;
              pair_issued = ground (arith, attempt-eq-ok _ _ w3 e4);
              spent = rw (sym last) (revoke_in-eq-ok _ _ _ w4 e5);
            }
