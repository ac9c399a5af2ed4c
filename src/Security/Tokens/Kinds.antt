-- ===== src/Security/Tokens/Kinds.antt =====
-- A token is accepted as the kind that it was issued as, and as no other.
use identra.Common.{ℕ, String, ◌≡◌, refl, ◌≤◌, ◌<◌, ◌+◌, Option, some, arith}
use identra.Common.Exec.{ok, err}
use identra.Security.Keys.{PublicKey}
use identra.Security.Tokens.{
  Claims, TokenConfig, TokenPair, Jwt, Runtime, invalid_claims, new_token_pair,
  validate_access_token, validate_refresh_token, validate_service_token, access_token_type,
  refresh_token_type,
}
use identra.Security.Tokens.Pair.{new_token_pair-IsSigned, access_begins, refresh_begins}

-- Within the time that the claims allow.
pub record IsCurrent (c : Claims) (now : ℕ) : Type 0 where
  pub begun : (n : ℕ) → c.not_before ≡ some n → n ≤ now
  pub not_over : (n : ℕ) → c.expires_at ≡ some n → now < n

within :
    (c : Claims) (now : ℕ) {begin end : ℕ}
    → c.not_before ≡ some begin
    → c.expires_at ≡ some end
    → begin ≤ now
    → now < end
    → IsCurrent c now
within c now begins ends begun early = record {
  begun = λ n h. ground arith;
  not_over = λ n h. ground arith;
}

-- What the program relies on: a signature is read back by the matching public key in its time.
pub record JwtLaws {P : Type 0} (jwt : Jwt P) (public_of : P → PublicKey) : Type 0 where
  pub parse-sign :
      (c : Claims) (p : P) (kid token : String) (now : ℕ)
      → jwt.sign c (some p) kid ≡ some token
      → IsCurrent c now
      → jwt.parse token (some (public_of p)) now ≡ some c

module _ {P : Type 0} (jwt : Jwt P) where
  -- The answers of the three validators on claims that the library has read.
  abbrev pub AcceptedAsAccess : String → Option PublicKey → ℕ → Claims → Type 0
  AcceptedAsAccess token key now c =
      (validate_access_token jwt token key now ≡ ok c)
      × (validate_refresh_token jwt token key now ≡ err invalid_claims)
      × (validate_service_token jwt token key now ≡ err invalid_claims)

  abbrev pub AcceptedAsRefresh : String → Option PublicKey → ℕ → Claims → Type 0
  AcceptedAsRefresh token key now c =
      (validate_refresh_token jwt token key now ≡ ok c)
      × (validate_access_token jwt token key now ≡ err invalid_claims)
      × (validate_service_token jwt token key now ≡ err invalid_claims)

  access_only :
      (token : String) (key : Option PublicKey) (now : ℕ) (c : Claims)
      → jwt.parse token key now ≡ some c
      → c.token_type ≡ access_token_type
      → AcceptedAsAccess token key now c
  unfolding validate_access_token validate_refresh_token validate_service_token
  access_only token key now c read kind = rw (read, kind) (refl, refl, refl)

  refresh_only :
      (token : String) (key : Option PublicKey) (now : ℕ) (c : Claims)
      → jwt.parse token key now ≡ some c
      → c.token_type ≡ refresh_token_type
      → AcceptedAsRefresh token key now c
  unfolding validate_access_token validate_refresh_token validate_service_token
  refresh_only token key now c read kind = rw (read, kind) (refl, refl, refl)

module _ {W P : Type 0} (runtime : Runtime W) (jwt : Jwt P) (public_of : P → PublicKey) where
  -- A pair that is issued under a private key, with the matching public key configured, states as the
  -- expiries of its tokens the time at which the issue began and the two configured durations. From the
  -- time at which its claims were stamped until its expiry, both as the library rounds them, the
  -- access token is accepted as an access token of the user, and neither as a refresh token nor as a service token;
  -- the refresh token is accepted as a refresh token of the user, and neither as an access token
  -- nor as a service token.
  pub issued_pair_kinds :
      (user_id : String) (config : TokenConfig P) (p : P) (w w' : W) (pair : TokenPair)
      → JwtLaws jwt public_of
      → config.private_key ≡ some p
      → config.public_key ≡ some (public_of p)
      → new_token_pair runtime jwt user_id config w ≡ (ok pair, w')
      → ((c : Claims) × (c.user_id ≡ user_id)
          × (pair.access_token.expires_at ≡ (runtime.now w).0 + config.access_token_expiration)
          × ((now : ℕ)
              → jwt.numeric_date (access_begins runtime jwt w) ≤ now
              → now < jwt.numeric_date pair.access_token.expires_at
              → AcceptedAsAccess jwt pair.access_token.value config.public_key now c))
        × ((c : Claims) × (c.user_id ≡ user_id)
            × (pair.refresh_token.expires_at ≡ (runtime.now w).0 + config.refresh_token_expiration)
            × ((now : ℕ)
                → jwt.numeric_date (refresh_begins runtime jwt w) ≤ now
                → now < jwt.numeric_date pair.refresh_token.expires_at
                → AcceptedAsRefresh jwt pair.refresh_token.value config.public_key now c))
  issued_pair_kinds user_id config p w w' pair laws private public issued =
      let (
        (a, a_signed, a_user, a_kind, _, a_over, a_begun, a_end),
        (r, r_signed, r_user, r_kind, _, r_over, r_begun, r_end),
      ) =
        new_token_pair-IsSigned runtime jwt user_id config w w' pair issued in
      (
        (
          a,
          a_user,
          a_end,
          λ now begun early. rw public (
              access_only jwt _ _ now a
                (laws.parse-sign a p _ _ now (rw private at a_signed)
                  (within a now a_begun a_over begun early))
                a_kind),
        ),
        (
          r,
          r_user,
          r_end,
          λ now begun early. rw public (
              refresh_only jwt _ _ now r
                (laws.parse-sign r p _ _ now (rw private at r_signed)
                  (within r now r_begun r_over begun early))
                r_kind),
        ),
      )
