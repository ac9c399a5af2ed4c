-- ===== src/Security/Tokens/Pair.antt =====
-- What holds of the tokens that are issued.
use identra.Common.{ℕ, String, ◌≡◌, Option, some, ◌+◌, arith, ap, ◌∙◌, sym}
use identra.Common.Exec.{bind-eq-ok, bind-run, ok}
use identra.Security.Tokens.{
  Claims, TokenConfig, Token, TokenPair, Jwt, Runtime, new_standard_claims, generate_token,
  new_token_pair, access_token_type, refresh_token_type,
}

module _ {W P : Type 0} (runtime : Runtime W) (jwt : Jwt P) where
  -- The state in which the claims are stamped, and the one that they leave.
  abbrev pub stamped_in : W → W
  stamped_in w = (runtime.random_hex 16 w).1

  abbrev pub stamped_out : W → W
  stamped_out w = (runtime.now (stamped_in w)).1

  -- The clock, when the claims of the access token and of the refresh token of a pair are stamped.
  abbrev pub access_begins : W → ℕ
  access_begins w = (runtime.now (stamped_in (runtime.now w).1)).0

  abbrev pub refresh_begins : W → ℕ
  refresh_begins w = (runtime.now (stamped_in (stamped_out (runtime.now w).1))).0

  -- The token's text is a signature, under the configured key, of claims for the user.
  abbrev pub IsSigned : TokenConfig P → String → String → Token → ℕ → ℕ → Type 0
  IsSigned config user_id kind token begins ends =
      (c : Claims) × (jwt.sign c config.private_key config.key_id ≡ some token.value)
      × (c.user_id ≡ user_id)
      × (c.token_type ≡ kind)
      × (c.issuer ≡ config.issuer)
      × (c.expires_at ≡ some (jwt.numeric_date token.expires_at))
      × (c.not_before ≡ some (jwt.numeric_date begins))
      × (token.expires_at ≡ ends)

  new_standard_claims_fields :
      (user_id kind issuer : String) (expires : ℕ) (w : W) {c : Claims} {w' : W}
      → new_standard_claims runtime jwt user_id kind issuer expires w ≡ (ok c, w')
      → (c.user_id ≡ user_id)
        × (c.token_type ≡ kind)
        × (c.issuer ≡ issuer)
        × (c.expires_at ≡ some (jwt.numeric_date expires))
        × (c.not_before ≡ some (jwt.numeric_date (runtime.now (stamped_in w)).0))
        × (w' ≡ stamped_out w)
  unfolding new_standard_claims
  new_standard_claims_fields user_id kind issuer expires w h =
      let h0 = sym (bind-run _ _ w) ∙ h in
      let (id, w2, e2, h2) = bind-eq-ok _ _ (stamped_in w) h0 in
      let at : stamped_in w ≡ w2 = ap (λ x. x.1) e2 in
      let h3 = sym (bind-run _ _ w2) ∙ h2 in
      let stamp : (runtime.now (stamped_in w)) ≡ runtime.now w2 = ap (λ v. runtime.now v) at in
      (
        ground arith,
        ground arith,
        ground arith,
        ground arith,
        rw stamp (ground arith),
        sym (ap (λ x. x.1) h3) ∙ ap (λ x. x.1) (sym stamp),
      )

  generate_token_signed :
      (c : Claims) (key : Option P) (kid : String) (w : W) {token : String} {w' : W}
      → generate_token runtime jwt c key kid w ≡ (ok token, w')
      → jwt.sign c key kid ≡ some token
  unfolding generate_token
  generate_token_signed c key kid w h = ground arith

  -- If a token pair is issued, each of its tokens is a signature, under the configured key and key
  -- id, of claims for the user with the configured issuer and with the expiry that the pair states;
  -- the one has the type `access`, the other the type `refresh`.
  pub new_token_pair-IsSigned :
      (user_id : String) (config : TokenConfig P) (w w' : W) (pair : TokenPair)
      → new_token_pair runtime jwt user_id config w ≡ (ok pair, w')
      → IsSigned config user_id access_token_type pair.access_token
          (access_begins w)
          ((runtime.now w).0 + config.access_token_expiration)
        × IsSigned config user_id refresh_token_type pair.refresh_token
            (refresh_begins w)
            ((runtime.now w).0 + config.refresh_token_expiration)
  unfolding new_token_pair
  new_token_pair-IsSigned user_id config w w' pair h =
      let h1 = sym (bind-run _ _ w) ∙ h in
      let (ac, w2, e2, h2) = bind-eq-ok _ _ (runtime.now w).1 h1 in
      let (at, w3, e3, h3) = bind-eq-ok _ _ w2 h2 in
      let (rc, w4, e4, h4) = bind-eq-ok _ _ w3 h3 in
      let (rt, w5, e5, h5) = bind-eq-ok _ _ w4 h4 in
      let (u1, u2, u3, u4, u5, u6) = new_standard_claims_fields _ _ _ _ (runtime.now w).1 e2 in
      let (v1, v2, v3, v4, v5, v6) = new_standard_claims_fields _ _ _ _ w3 e4 in
      let at3 : w3 ≡ stamped_out (runtime.now w).1 = sym (ap (λ x. x.1) e3) ∙ u6 in
      let s1 = generate_token_signed _ _ _ _ e3 in
      let s2 = generate_token_signed _ _ _ _ e5 in
      (
        (ac, ground (arith, s1), u1, u2, u3, ground (arith, u4), u5, ground arith),
        (
          rc,
          ground (arith, s2),
          v1,
          v2,
          v3,
          ground (arith, v4),
          v5 ∙ ap (λ v. some (jwt.numeric_date (runtime.now (stamped_in v)).0)) at3,
          ground arith,
        ),
      )
