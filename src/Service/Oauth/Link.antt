-- ===== src/Service/Oauth/Link.antt =====
-- Whose account a provider's account is after a link.
use identra.Common.{String, ◌==◌, ◌≡◌, refl, sym, ap, ◌∙◌, eq_iff, false, not, Option, some, arith}
use identra.Common.Exec.{Result, ok, err, bind-elim, bind-run, refuse-elim, refuse_if-eq-ok}
use identra.Security.Tokens.{Claims, TokenPair, validate_access_token, new_token_pair}
use identra.Service.{
  Status, Fault, missing, exists, other, UserModel, ExternalIdentityModel, OAuthState, Service,
  Metadata,
}
use identra.Service.Blocks.{attempt-eq-ok, answer-eq-ok, pair_path, found-eq-ok}
use identra.Service.RateLimit.{access_token_from_metadata}
use identra.Service.Login.{record_login}
use identra.Service.Password.{answer}
use identra.Service.Providers.{UserInfo, UserInfoProvider, Github}
use identra.Service.Oauth.{
  OauthConfig, Oauth2, Profile, new_identity, linked_elsewhere, verify_owner, linked_or_verified,
  create_link, link_identity, consumed_state, or_refused, provider_user, link_oauth_account,
}

module _ {W P : Type 0} (s : Service W P) (provider id user_id : String) where
  -- Between the two states the identity store has answered for the provider's account: that it is the
  -- user's already; or that there was none and it has been created for the user; or that there was none,
  -- that another request created it in between, and that it is the user's.
  pub data Owned (v v' : W) : Type 0 where
    already :
        (identity : ExternalIdentityModel)
        → s.external_identity_store.get_by_provider_id provider id v ≡ (ok identity, v')
        → identity.user_id ≡ user_id
        → Owned v v'
    made :
        (u : W)
        → s.external_identity_store.get_by_provider_id provider id v ≡ (err missing, u)
        → s.external_identity_store.create (new_identity user_id provider id) u ≡ (ok tt, v')
        → Owned v v'
    raced :
        (u u' : W) (identity : ExternalIdentityModel)
        → s.external_identity_store.get_by_provider_id provider id v ≡ (err missing, u)
        → s.external_identity_store.create (new_identity user_id provider id) u ≡ (err exists, u')
        → s.external_identity_store.get_by_provider_id provider id u' ≡ (ok identity, v')
        → identity.user_id ≡ user_id
        → Owned v v'

  same_owner :
      (i : ExternalIdentityModel) → not (i.user_id == user_id) ≡ false → i.user_id ≡ user_id
  same_owner i h = (eq_iff i.user_id user_id).0 (ground arith)

  create_to :
      (v u : W) (e e' : Status) (r : Result Fault (Unit {0})) (u' : W) {v' : W}
      → s.external_identity_store.get_by_provider_id provider id v ≡ (err missing, u)
      → s.external_identity_store.create (new_identity user_id provider id) u ≡ (r, u')
      → linked_or_verified s provider id user_id e e' r u' ≡ (ok tt, v')
      → Owned v v'
  unfolding linked_or_verified verify_owner
  create_to v u e e' (ok tt) u' absent at h =
      let (_, end) = answer-eq-ok _ _ h in made u absent (at ∙ pair_path refl end)
  create_to v u e e' (err exists) u' absent at h = bind-elim _ _ u' h λ identity w1 e1 h1.
      let (same, end) =
        refuse_if-eq-ok (not (identity.user_id == user_id)) linked_elsewhere w1 h1 in
      raced u u' identity absent at (attempt-eq-ok _ _ u' e1 ∙ pair_path refl end)
        (same_owner identity same)
  create_to v u e e' (err missing) u' absent at h = absurd (ground arith)
  create_to v u e e' (err other) u' absent at h = absurd (ground arith)

  pub link_to :
      (v : W) (r : Result Fault ExternalIdentityModel) (u : W) {v' : W}
      → s.external_identity_store.get_by_provider_id provider id v ≡ (r, u)
      → link_identity s provider id user_id r u ≡ (ok tt, v')
      → Owned v v'
  unfolding link_identity create_link
  link_to v (ok identity) u at h =
      let (same, end) = refuse_if-eq-ok (not (identity.user_id == user_id)) linked_elsewhere u h in
      already identity (at ∙ pair_path refl end) (same_owner identity same)
  link_to v (err missing) u at h = create_to v u _ _ _ _ at refl (sym (bind-run _ _ u) ∙ h)
  link_to v (err exists) u at h = absurd (ground arith)
  link_to v (err other) u at h = absurd (ground arith)

module _ {W P : Type 0} (s : Service W P) (github : Github W) (oauth2 : Oauth2 W)
    (config : OauthConfig) (md : Metadata) (code state : String) where
  -- The calls of a link that returns, each from the state that the one before it left.
  pub record Linked (w : W) (pair : TokenPair) (w' : W) : Type 0 where
    pub claims : Claims
    pub user : UserModel
    pub state_data : OAuthState
    pub provider : UserInfoProvider W
    pub token : String
    pub info : UserInfo
    pub found : W
    pub consumed : W
    pub told : W
    pub owned_at : W
    pub valid :
        validate_access_token s.jwt
          (access_token_from_metadata md)
          s.token_cfg.public_key
          (s.runtime.now w).0
        ≡ ok claims
    pub bound : s.user_store.get_by_id claims.user_id (s.runtime.now w).1 ≡ (ok user, found)
    pub state_consumed : s.oauth_state_store.consume state found ≡ (ok (some state_data), consumed)
    pub provider_told :
        provider_user s github oauth2 config code state_data consumed
        ≡ (ok (provider, (token, info)), told)
    pub id_given : (info.id == "") ≡ false
    pub owned : Owned s state_data.provider info.id user.id told owned_at
    pub issued :
        new_token_pair s.runtime s.jwt user.id s.token_cfg (record_login s user owned_at).1
        ≡ (ok pair, w')

  or-eq-ok :
      (o : Option OAuthState) (e : Status) (v : W) {d : OAuthState} {v' : W}
      → answer (or_refused e o) v ≡ (ok d, v')
      → (o ≡ some d) × (v ≡ v')
  or-eq-ok o e v h = ground arith

  consumed_to :
      (v : W) {d : OAuthState} {v' : W}
      → consumed_state s state v ≡ (ok d, v')
      → s.oauth_state_store.consume state v ≡ (ok (some d), v')
  unfolding consumed_state
  consumed_to v h = bind-elim _ _ v h λ o v1 e1 h1.
      let (is, end) = or-eq-ok o _ v1 h1 in attempt-eq-ok _ _ v e1 ∙ pair_path (ap ok is) end

  -- A link that returns has read the access token's user from the store, has consumed the state, has
  -- been told by the provider an account that has an id, and leaves that account with that user: it
  -- was the user's, or was created for the user, or was created for the user by another request meanwhile.
  -- The tokens are issued for that user.
  pub link_oauth_account_sound :
      (w w' : W) (pair : TokenPair) (profile : Profile)
      → link_oauth_account s github oauth2 config md code state w ≡ (ok (pair, profile), w')
      → Linked w pair w'
  unfolding link_oauth_account
  link_oauth_account_sound w w' pair profile h = refuse-elim _ _ _ w h λ _ h1.
      refuse-elim _ _ _ w h1 λ _ h2. refuse-elim _ _ _ w h2 λ _ h3.
        let h4 = sym (bind-run _ _ w) ∙ h3 in
        bind-elim _ _ _ h4 λ claims w1 e5 h5.
          let h6 = sym (bind-run _ _ w1) ∙ h5 in
          bind-elim _ _ _ h6 λ user w2 e7 h7. bind-elim _ _ w2 h7 λ d w3 e8 h8.
            bind-elim _ _ w3 h8 λ told w4 e9 h9. refuse-elim _ _ _ w4 h9 λ given h10.
              let h11 = sym (bind-run _ _ w4) ∙ h10 in
              bind-elim _ _ _ h11 λ _ w5 e12 h12.
                let h13 = sym (bind-run _ _ w5) ∙ h12 in
                bind-elim _ _ _ h13 λ p w6 e14 h14.
                  let (same, end) = answer-eq-ok _ _ h14 in
                  let (known, at2) = found-eq-ok _ _ e7 in
                  let verdict = attempt-eq-ok _ _ _ e5 in
                  let at1 : (s.runtime.now w).1 ≡ w1 = ap (λ x. x.1) verdict in
                  let pair_is : p ≡ pair = ground arith in
                  record {
                    claims = claims;
                    user = user;
                    state_data = d;
                    provider = told.0;
                    token = told.1.0;
                    info = told.1.1;
                    found = w2;
                    consumed = w3;
                    told = w4;
                    owned_at = w5;
                    valid = ap (λ x. x.0) verdict;
                    bound = ap (s.user_store.get_by_id claims.user_id) at1 ∙ pair_path known at2;
                    state_consumed = consumed_to w2 e8;
                    provider_told = e9;
                    id_given = given;
                    owned = link_to s d.provider told.1.1.id user.id w4 _ _ refl e12;
                    issued = attempt-eq-ok _ _ _ e14 ∙ pair_path (ap ok pair_is) end;
                  }
