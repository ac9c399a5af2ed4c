-- ===== src/Service/Accounts/Authorization.antt =====
-- Whom `authorizeServiceAccount` lets in.
use identra.Common.{
  ℕ, String, ◌==◌, ◌≡◌, refl, sym, ap, ◌∙◌, ◌↔◌, inl, inr, false, Bool-cases, Option, none, some,
  List, [], ◌∷◌, Any, arith,
}
use mathlib.Core.Path.{subst}
use identra.Common.Exec.{Result, ok, err, bind-elim, bind-run, bind_ok, refuse-elim}
use identra.Security.Tokens.{Claims, validate_service_token}
use identra.ServiceAccount.{Account, AccountError}
use identra.Service.{Service, Metadata}
use identra.Service.Blocks.{
  attempt-eq-ok, attempt_ok, refuse_if-false, pair_path, answer_at, answer-eq-ok,
}
use identra.Service.RateLimit.{access_token_from_metadata}
use identra.Service.Accounts.{
  has_service_scope, active_account, first_granted, enabled, authorize_service_account,
}
use identra.Service.Accounts.Scopes.{Covers, has_service_scope_iff}

-- Some required scope is covered by a scope of the list.
abbrev pub IsGranted : List String → List String → Type 0
IsGranted scopes required = Any (λ r. Any (λ scope. Covers scope r) scopes) required

enabled_to :
    (account : Account) (o : Option ℕ) {a : Account}
    → enabled account o ≡ ok a
    → (account ≡ a) × (o ≡ none)
enabled_to account none h = (ground arith, refl)
enabled_to account (some t) h = absurd (ground arith)

active_account_to :
    (r : Result AccountError Account) {a : Account}
    → active_account r ≡ ok a
    → (r ≡ ok a) × (a.disabled_at ≡ none)
unfolding active_account
active_account_to (err e) h = absurd (ground arith)
active_account_to (ok account) {a} h =
    let (same, on) = enabled_to account account.disabled_at h in
    (ap ok same, ap (λ x. x.disabled_at) (sym same) ∙ on)

active_account_from :
    (r : Result AccountError Account) {a : Account}
    → r ≡ ok a
    → a.disabled_at ≡ none
    → active_account r ≡ ok a
unfolding active_account
active_account_from r {a} h on = ap active_account h ∙ ap (enabled a) on

first_granted_to :
    (account : Account) (required : List String) {a : Account}
    → first_granted account required ≡ ok a
    → (account ≡ a) × IsGranted account.scopes required
unfolding first_granted
first_granted_to account [] h = absurd (ground arith)
first_granted_to account (r ∷ rest) h = elim (Bool-cases (has_service_scope account.scopes r)) [
  | inl has ↦ (ground arith, inl ((has_service_scope_iff account.scopes r).0 has))
  | inr lacks ↦
      let (same, granted) = first_granted_to account rest (ground arith) in (same, inr granted)
]

first_granted_from :
    (account : Account) (required : List String)
    → IsGranted account.scopes required
    → first_granted account required ≡ ok account
unfolding first_granted
first_granted_from account [] h = absurd h
first_granted_from account (r ∷ rest) (inl here) =
    ground (arith, (has_service_scope_iff account.scopes r).1 here)
first_granted_from account (r ∷ rest) (inr there) =
    ground (arith, first_granted_from account rest there)

module _ {W P : Type 0} (s : Service W P) (md : Metadata) (required : List String) where
  -- What a call that is let in has shown, and the states that its two collaborators leave.
  pub record Authorized (w : W) (account : Account) (w' : W) : Type 0 where
    pub claims : Claims
    pub token_given : (access_token_from_metadata md == "") ≡ false
    pub valid :
        validate_service_token s.jwt
          (access_token_from_metadata md)
          s.token_cfg.public_key
          (s.runtime.now w).0
        ≡ ok claims
    pub fetched :
        s.service_account_store.get_by_id claims.service_account_id (s.runtime.now w).1
        ≡ (ok account, w')
    pub enabled : account.disabled_at ≡ none
    pub granted : IsGranted account.scopes required

  authorize_to :
      (w w' : W) (account : Account)
      → authorize_service_account s md required w ≡ (ok account, w')
      → Authorized w account w'
  unfolding authorize_service_account
  authorize_to w w' account h = refuse-elim _ _ _ w h λ given h0.
      let h1 = sym (bind-run _ _ w) ∙ h0 in
      bind-elim _ _ _ h1 λ claims w2 e2 h2.
        let h3 = sym (bind-run _ _ w2) ∙ h2 in
        bind-elim _ _ _ h3 λ a w4 e4 h4.
          let valid = attempt-eq-ok _ _ _ e2 in
          let (on, at4) = answer-eq-ok _ _ e4 in
          let (found, is_enabled) = active_account_to _ on in
          let (let_in, at) = answer-eq-ok _ w4 h4 in
          let (same, is_granted) = first_granted_to a required let_in in
          let at2 : (s.runtime.now w).1 ≡ w2 = ap (λ x. x.1) valid in
          record {
            claims = claims;
            token_given = given;
            valid = ap (λ x. x.0) valid;
            fetched =
                ap (s.service_account_store.get_by_id claims.service_account_id) at2
                ∙ pair_path (found ∙ ap ok same) (at4 ∙ at);
            enabled = ap (λ x. x.disabled_at) (sym same) ∙ is_enabled;
            granted = subst (λ x. IsGranted x.scopes required) same is_granted;
          }

  authorize_from :
      (w w' : W) (account : Account)
      → Authorized w account w'
      → authorize_service_account s md required w ≡ (ok account, w')
  unfolding authorize_service_account
  authorize_from w w' account h =
      refuse_if-false _ _ _ w h.token_given
      ∙ bind-run _ _ w
      ∙ bind_ok _ _ {a = h.claims} {v = (s.runtime.now w).1} (attempt_ok _ _ _ (ground arith))
      ∙ bind-run _ _ _
      ∙ bind_ok _ _ {a = account} {v = w'} (
          answer_at (active_account_from _ (ap (λ x. x.0) h.fetched) h.enabled)
            (ap (λ x. x.1) h.fetched))
      ∙ answer_at (first_granted_from account required h.granted) refl

  -- A management call is let in, for an account, exactly when: the metadata holds a bearer token; the
  -- token is a valid service token at that time; the store finds the account of its claims; the account
  -- is not disabled; and one of the required scopes is covered by one of the account's.
  pub authorize_service_account_iff :
      (w w' : W) (account : Account)
      → (authorize_service_account s md required w ≡ (ok account, w')) ↔ Authorized w account w'
  authorize_service_account_iff w w' account =
      (authorize_to w w' account, authorize_from w w' account)
