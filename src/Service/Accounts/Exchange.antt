-- ===== src/Service/Accounts/Exchange.antt =====
-- When an exchange of a credential issues a service token, and what the other outcomes leave.
use identra.Common.{
  String, ◌≡◌, refl, sym, ap, ◌∙◌, ◌↔◌, inl, inr, true, Bool-cases, some, arith, ◌==◌, ◌||◌, false,
}
use identra.Common.Exec.{Result, ok, err, bind-elim, bind-run, bind_ok, bind_err, refuse-elim}
use identra.Text.{trim_space}
use identra.Security.Tokens.{Token, new_service_token}
use identra.ServiceAccount.{Account, AccountError, authenticate}
use identra.Service.{internal, unauthenticated, status, Fault, RateLimiter, Service}
use identra.Service.Blocks.{attempt-eq-ok, attempt_ok}
use identra.Service.Limits.{
  LetThroughClosed, after_reset, exchange_guard_iff, forget_failures-after,
}
use identra.Service.Accounts.Handlers.{
  exchange_key, exchange_guard, note_exchange, is_wrong_credential, finish_exchange,
  exchange_service_token,
}

module _ {W P : Type 0} (s : Service W P) (client_id secret : String) where
  abbrev pub key : String
  key = exchange_key (trim_space client_id)

  -- The calls of an exchange that returns, each from the state that the one before it left.
  pub record Exchanged (w : W) (token : Token) (w' : W) : Type 0 where
    pub account : Account
    pub guarded : W
    pub known : W
    pub let_through : LetThroughClosed s.service_token_rate_limiter key w guarded
    pub given : ((trim_space client_id == "") || (trim_space secret == "")) ≡ false
    pub authenticated :
        s.service_account_store.authenticate
          (trim_space client_id)
          (s.secrets.secret_hash (trim_space secret))
          (s.runtime.now guarded).0
          (s.runtime.now guarded).1
        ≡ (ok account, known)
    pub issued :
        new_service_token s.runtime s.jwt account.id account.scopes s.token_cfg
          (after_reset s.service_token_rate_limiter key known)
        ≡ (ok token, w')

  finish_exchange_to :
      (found : Result AccountError Account) (v : W) {token : Token} {w' : W}
      → finish_exchange s key found v ≡ (ok token, w')
      → (account : Account) × (found ≡ ok account)
        × (new_service_token s.runtime s.jwt account.id account.scopes s.token_cfg
              (after_reset s.service_token_rate_limiter key v)
            ≡ (ok token, w'))
  unfolding finish_exchange
  finish_exchange_to (ok account) v h = (
    account,
    refl,
    rw (forget_failures-after s.service_token_rate_limiter key v) at
        (attempt-eq-ok _ _ _ (sym (bind-run _ _ v) ∙ h)),
  )
  finish_exchange_to (err e) v h = elim (Bool-cases (is_wrong_credential e)) [
    | inl wrong ↦ let h1 = sym (bind-run _ _ v) ∙ (rw wrong at h) in absurd (ground arith)
    | inr fault ↦ let h1 = rw fault at h in absurd (ground arith)
  ]

  authenticate_to :
      (v v' : W) (account : Account)
      → authenticate s.runtime s.secrets s.service_account_store client_id secret v
        ≡ (ok account, v')
      → (((trim_space client_id == "") || (trim_space secret == "")) ≡ false)
        × (s.service_account_store.authenticate
              (trim_space client_id)
              (s.secrets.secret_hash (trim_space secret))
              (s.runtime.now v).0
              (s.runtime.now v).1
            ≡ (ok account, v'))
  unfolding authenticate
  authenticate_to v v' account h =
      refuse-elim _ _ _ v h λ given h1. (given, sym (bind-run _ _ v) ∙ h1)

  authenticate_from :
      (v v' : W) (account : Account)
      → ((trim_space client_id == "") || (trim_space secret == "")) ≡ false
      → s.service_account_store.authenticate
          (trim_space client_id)
          (s.secrets.secret_hash (trim_space secret))
          (s.runtime.now v).0
          (s.runtime.now v).1
        ≡ (ok account, v')
      → authenticate s.runtime s.secrets s.service_account_store client_id secret v
        ≡ (ok account, v')
  unfolding authenticate
  authenticate_from v v' account given h =
      bind_ok _ _ {a = tt} {v = v} (ground arith) ∙ bind-run _ _ v ∙ h

  exchange_to :
      (w w' : W) (token : Token)
      → exchange_service_token s client_id secret w ≡ (ok token, w')
      → Exchanged w token w'
  unfolding exchange_service_token
  exchange_to w w' token h = bind-elim _ _ w h λ _ v e h1.
      let h2 = sym (bind-run _ _ v) ∙ h1 in
      let (account, found, issued) = finish_exchange_to _ _ h2 in
      let (given, known) =
        authenticate_to v
          (authenticate s.runtime s.secrets s.service_account_store client_id secret v).1 account
          (λ i. (
            found i,
            (authenticate s.runtime s.secrets s.service_account_store client_id secret v).1,
          )) in
      record {
        account = account;
        guarded = v;
        known = (authenticate s.runtime s.secrets s.service_account_store client_id secret v).1;
        let_through = (exchange_guard_iff _ key w v).0 e;
        given = given;
        authenticated = known;
        issued = issued;
      }

  exchange_from :
      (w w' : W) (token : Token)
      → Exchanged w token w'
      → exchange_service_token s client_id secret w ≡ (ok token, w')
  unfolding exchange_service_token finish_exchange
  exchange_from w w' token h =
      bind_ok _ _ ((exchange_guard_iff _ key w h.guarded).1 h.let_through)
      ∙ bind-run _ _ h.guarded
      ∙ ap (λ x. finish_exchange s key x.0 x.1)
          (authenticate_from h.guarded h.known h.account h.given h.authenticated)
      ∙ bind-run _ _ h.known
      ∙ attempt_ok _ _ _
          (rw (forget_failures-after s.service_token_rate_limiter key h.known) h.issued)

  -- An exchange returns a token exactly when the limiter, if there is one, answers that it allows the
  -- client's key (a limiter that fails lets nothing through), the client id and the secret, both trimmed,
  -- are given, the store authenticates them, the secret as its hash, at the present time, and, after the client's
  -- key has been reset at the limiter, the token is issued for that account and its scopes; each in the state that the call before left.
  pub exchange_service_token_iff :
      (w w' : W) (token : Token)
      → (exchange_service_token s client_id secret w ≡ (ok token, w')) ↔ Exchanged w token w'
  exchange_service_token_iff w w' token = (exchange_to w w' token, exchange_from w w' token)

  -- Where the limiter lets the client through and the authentication fails with an invalid credential or
  -- an unknown account: the attempt is counted against the client, nothing else is written after the
  -- store's answer, and the exchange is refused as not authenticated.
  pub wrong_credential_counts :
      (w v v' : W) (e : AccountError)
      → exchange_guard s.service_token_rate_limiter key w ≡ (ok tt, v)
      → authenticate s.runtime s.secrets s.service_account_store client_id secret v ≡ (err e, v')
      → is_wrong_credential e ≡ true
      → exchange_service_token s client_id secret w ≡ (
        err (status unauthenticated "invalid service-account credential"),
        (note_exchange s.service_token_rate_limiter key v').1,
      )
  unfolding exchange_service_token finish_exchange
  wrong_credential_counts w v v' e let_in failed wrong =
      bind_ok _ _ let_in
      ∙ bind-run _ _ v
      ∙ ap (λ x. finish_exchange s key x.0 x.1) failed
      ∙ rw wrong (bind-run _ _ v')

  -- Where there is a limiter and it fails, the exchange fails with an internal error, in the state that
  -- the limiter left: no credential is looked at.
  pub limiter_fault_closes :
      (w w' : W) (limiter : RateLimiter W) (fault : Fault)
      → s.service_token_rate_limiter ≡ some limiter
      → limiter.is_allowed key w ≡ (err fault, w')
      → exchange_service_token s client_id secret w
        ≡ (err (status internal "failed to check service-token rate limit"), w')
  unfolding exchange_service_token exchange_guard
  limiter_fault_closes w w' limiter fault has fails =
      bind_err _ _ (ap (λ o. exchange_guard o key w) has ∙ ground arith)
