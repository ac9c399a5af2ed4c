-- ===== src/Service/CurrentUser/Answer.antt =====
-- Whom `GetCurrentUser` shows.
use identra.Common.{◌==◌, ◌≡◌, refl, sym, ap, ◌∙◌, ◌↔◌, false, List, arith}
use identra.Common.Exec.{Result, ok, bind-elim, bind-run, bind_ok, refuse-elim}
use identra.Security.Tokens.{Claims, validate_access_token}
use identra.Service.{Fault, UserModel, ExternalIdentityModel, Service, Metadata}
use identra.Service.Blocks.{
  attempt-eq-ok, attempt_ok, refuse_if-false, answer-eq-ok, pair_path, found-eq-ok,
}
use identra.Service.RateLimit.{access_token_from_metadata}
use identra.Service.Password.{found_or_refused}
use identra.Service.CurrentUser.{User, user_response, get_current_user}
use identra.Service.CurrentUser.Shape.{Answered, user_response_iff}

ap_ok : {E A : Type 0} {a b : A} → ◌≡◌ {A = Result E A} (ok a) (ok b) → b ≡ a
ap_ok h = ground arith

module _ {W P : Type 0} (s : Service W P) (md : Metadata) where
  -- The calls of a request that returns, each from the state that the one before it left.
  pub record Shown (w : W) (shown : User) (w' : W) : Type 0 where
    pub claims : Claims
    pub user : UserModel
    pub found : W
    pub identities : Result Fault (List ExternalIdentityModel)
    pub token_given : (access_token_from_metadata md == "") ≡ false
    pub valid :
        validate_access_token s.jwt
          (access_token_from_metadata md)
          s.token_cfg.public_key
          (s.runtime.now w).0
        ≡ ok claims
    pub fetched : s.user_store.get_by_id claims.user_id (s.runtime.now w).1 ≡ (ok user, found)
    pub listed : s.external_identity_store.get_by_user_id user.id found ≡ (identities, w')
    pub answered : Answered s user identities shown

  show_to : (w w' : W) (shown : User) → get_current_user s md w ≡ (ok shown, w') → Shown w shown w'
  unfolding get_current_user
  show_to w w' shown h = refuse-elim _ _ _ w h λ given h1.
      let h2 = sym (bind-run _ _ w) ∙ h1 in
      bind-elim _ _ _ h2 λ claims w1 e3 h3.
        let h4 = sym (bind-run _ _ w1) ∙ h3 in
        bind-elim _ _ _ h4 λ user w2 e5 h5.
          let (same, end) = answer-eq-ok _ _ (sym (bind-run _ _ w2) ∙ h5) in
          let verdict = attempt-eq-ok _ _ _ e3 in
          let (known, at2) = found-eq-ok _ _ e5 in
          let at1 : (s.runtime.now w).1 ≡ w1 = ap (λ x. x.1) verdict in
          record {
            claims = claims;
            user = user;
            found = w2;
            identities = (s.external_identity_store.get_by_user_id user.id w2).0;
            token_given = given;
            valid = ap (λ x. x.0) verdict;
            fetched = ap (s.user_store.get_by_id claims.user_id) at1 ∙ pair_path known at2;
            listed = pair_path refl end;
            answered = (user_response_iff s user _ shown).0 (ap_ok same);
          }

  show_from :
      (w w' : W) (shown : User) → Shown w shown w' → get_current_user s md w ≡ (ok shown, w')
  unfolding get_current_user
  show_from w w' shown h =
      refuse_if-false _ _ _ w h.token_given
      ∙ bind-run _ _ w
      ∙ bind_ok _ _ {a = h.claims} {v = (s.runtime.now w).1} (attempt_ok _ _ _ (ground arith))
      ∙ bind-run _ _ _
      ∙ bind_ok _ _ {a = h.user} {v = h.found} (ap (λ x. (found_or_refused x.0, x.1)) h.fetched)
      ∙ bind-run _ _ h.found
      ∙ ap (λ x. (ok (user_response s h.user x.0), x.1)) h.listed
      ∙ pair_path (ap ok (sym ((user_response_iff s h.user h.identities shown).1 h.answered))) refl

  -- A user is shown exactly when the metadata holds a bearer token that is a valid access token at that
  -- time, and the store finds the user of its claims. The answer has the id and the e-mail of that user,
  -- says that a password is set where the user's hash is more than white space, and has one linked account for
  -- each identity that the identity store lists, in their order, with its id at the provider and GitHub as the provider where
  -- the provider's name, trimmed and in lower case, is `github`; or none where that store fails: its failure
  -- does not fail the request.
  pub get_current_user_iff :
      (w w' : W) (shown : User) → (get_current_user s md w ≡ (ok shown, w')) ↔ Shown w shown w'
  get_current_user_iff w w' shown = (show_to w w' shown, show_from w w' shown)
