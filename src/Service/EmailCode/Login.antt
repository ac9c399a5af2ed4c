-- ===== src/Service/EmailCode/Login.antt =====
-- When a login with a code issues tokens, and what a wrong code leaves behind.
use identra.Common.{
  String, ◌==◌, ◌≡◌, refl, sym, ◌∙◌, ◌||◌, Bool, true, false, List, none, arith, ap, ◌↔◌,
}
use identra.Common.Exec.{Result, ok, err, bind-elim, bind-run, bind_ok, refuse-elim}
use identra.Text.{trim_space}
use identra.Security.Tokens.{TokenPair, new_token_pair}
use identra.Service.{
  status, unauthenticated, Fault, missing, exists, other, UserModel, Service, Metadata,
}
use identra.Service.Blocks.{attempt-eq-ok, attempt_ok, refuse_if-false, answer-eq-ok, pair_path}
use identra.Service.RateLimit.{rate_limit_keys, email_rate_limit_key}
use identra.Service.Login.{limit_guard, note_failure, too_many_attempts}
use identra.Service.Limits.{LetThrough, after_reset, after_record, limit_guard_iff, login_written}
use identra.Service.Password.{new_user}
use identra.Service.EmailCode.{found_or_created, finish_code_login, login_with_email_code}

module _ {W P : Type 0} (s : Service W P) (md : Metadata) (given_email given_code : String) where
  abbrev pub email : String
  email = trim_space given_email

  abbrev pub code_keys : List String
  code_keys = rate_limit_keys s.lower_rune md "login" email

  -- The user of the address, or a new one where the store has none.
  pub data UserOf (v : W) (user : UserModel) (v' : W) : Type 0 where
    found : s.user_store.get_by_email email v ≡ (ok user, v') → UserOf v user v'
    made :
        (u : W)
        → s.user_store.get_by_email email v ≡ (err missing, u)
        → s.user_store.create (new_user email none) u ≡ (ok user, v')
        → UserOf v user v'

  -- The calls of a login that returns, each from the state that the one before it left.
  pub record CodeLogin (w : W) (pair : TokenPair) (w' : W) : Type 0 where
    pub user : UserModel
    pub guarded : W
    pub consumed : W
    pub looked_up : W
    pub given : ((email == "") || (trim_space given_code == "")) ≡ false
    pub let_through : LetThrough s.login_rate_limiter code_keys w guarded
    pub code_consumed :
        s.email_code_store.consume email (trim_space given_code) guarded ≡ (ok true, consumed)
    pub user_of : UserOf consumed user looked_up
    pub issued :
        new_token_pair s.runtime s.jwt user.id s.token_cfg (
          after_record s user (
            after_reset s.login_rate_limiter
              (email_rate_limit_key s.lower_rune "login" email)
              looked_up))
        ≡ (ok pair, w')

  user_to :
      (r : Result Fault UserModel) (v u : W) {user : UserModel} {v' : W}
      → s.user_store.get_by_email email v ≡ (r, u)
      → found_or_created s email r u ≡ (ok user, v')
      → UserOf v user v'
  unfolding found_or_created
  user_to (ok user) v u at h =
      let (same, end) = answer-eq-ok _ u h in found (at ∙ pair_path (ground arith) end)
  user_to (err missing) v u at h = made u at (attempt-eq-ok _ _ u h)
  user_to (err exists) v u at h = absurd (ground arith)
  user_to (err other) v u at h = absurd (ground arith)

  finish-eq-ok :
      (w w' w1 w2 : W) (pair : TokenPair) (valid : Bool)
      → ((email == "") || (trim_space given_code == "")) ≡ false
      → limit_guard s.login_rate_limiter code_keys too_many_attempts w ≡ (ok tt, w1)
      → s.email_code_store.consume email (trim_space given_code) w1 ≡ (ok valid, w2)
      → finish_code_login s md email valid w2 ≡ (ok pair, w')
      → CodeLogin w pair w'
  unfolding finish_code_login
  finish-eq-ok w w' w1 w2 pair false given e1 e2 k =
      let k1 = sym (bind-run _ _ w2) ∙ k in absurd (ground arith)
  finish-eq-ok w w' w1 w2 pair true given e1 e2 k =
      let k1 = sym (bind-run _ _ w2) ∙ k in
      bind-elim _ _ _ k1 λ user w3 e3 k2.
        let k3 = sym (bind-run _ _ w3) ∙ k2 in
        let k4 = sym (bind-run _ _ _) ∙ k3 in
        record {
          user = user;
          guarded = w1;
          consumed = w2;
          looked_up = w3;
          given = given;
          let_through = (limit_guard_iff _ code_keys too_many_attempts w w1).0 e1;
          code_consumed = e2;
          user_of = user_to _ w2 _ refl e3;
          issued = rw (login_written s s.login_rate_limiter _ user w3) at (attempt-eq-ok _ _ _ k4);
        }

  login_to :
      (w w' : W) (pair : TokenPair)
      → login_with_email_code s md given_email given_code w ≡ (ok pair, w')
      → CodeLogin w pair w'
  unfolding login_with_email_code
  login_to w w' pair h = refuse-elim _ _ _ w h λ given h1. bind-elim _ _ w h1 λ _ w1 e1 h2.
      bind-elim _ _ w1 h2
        λ valid w2 e2 h3. finish-eq-ok w w' w1 w2 pair valid given e1 (attempt-eq-ok _ _ w1 e2) h3

  user_from :
      (v v' : W) (user : UserModel)
      → UserOf v user v'
      → found_or_created s email
          (s.user_store.get_by_email email v).0
          (s.user_store.get_by_email email v).1
        ≡ (ok user, v')
  unfolding found_or_created
  user_from v v' user (found h) = ap (λ x. found_or_created s email x.0 x.1) h
  user_from v v' user (made u h k) =
      ap (λ x. found_or_created s email x.0 x.1) h ∙ attempt_ok _ _ u k

  login_from :
      (w w' : W) (pair : TokenPair)
      → CodeLogin w pair w'
      → login_with_email_code s md given_email given_code w ≡ (ok pair, w')
  unfolding login_with_email_code finish_code_login
  login_from w w' pair l =
      refuse_if-false _ _ _ w l.given
      ∙ bind_ok _ _ (
          (limit_guard_iff s.login_rate_limiter code_keys too_many_attempts w l.guarded).1
            l.let_through)
      ∙ bind_ok _ _ {a = true} {v = l.consumed} (attempt_ok _ _ l.guarded l.code_consumed)
      ∙ bind-run _ _ l.consumed
      ∙ bind_ok _ _ {a = l.user} {v = l.looked_up} (user_from _ _ _ l.user_of)
      ∙ bind-run _ _ l.looked_up
      ∙ bind-run _ _ _
      ∙ attempt_ok _ _ _ (rw (login_written s s.login_rate_limiter _ l.user l.looked_up) l.issued)

  -- A login with a code returns a token pair exactly when: the e-mail and the code, both trimmed, are given;
  -- the limiter, if there is one, is asked for the login keys in their order and allows each, or
  -- fails at one; the code store says that the code is right for the e-mail; the user store finds the user of
  -- that e-mail, or has none and creates one; and, after the key of the e-mail has been reset at the
  -- limiter and the user has been stored with the present time as its last login (whether or not these
  -- calls fail), the pair is issued for that user. Each call is made in the state that the one before
  -- it left, and the pair and the last state are those of the issue.
  pub login_with_email_code_iff :
      (w w' : W) (pair : TokenPair)
      → (login_with_email_code s md given_email given_code w ≡ (ok pair, w')) ↔ CodeLogin w pair w'
  login_with_email_code_iff w w' pair = (login_to w w' pair, login_from w w' pair)

  -- Where an e-mail and a code are given, the limiter lets the attempt through, and the code store says
  -- that the code is not right: the attempt is counted under the login keys, nothing else is written after
  -- the code store's answer, and the login is refused as not authenticated.
  pub wrong_code_counts :
      (w v v' : W)
      → ((email == "") || (trim_space given_code == "")) ≡ false
      → limit_guard s.login_rate_limiter code_keys too_many_attempts w ≡ (ok tt, v)
      → s.email_code_store.consume email (trim_space given_code) v ≡ (ok false, v')
      → login_with_email_code s md given_email given_code w ≡ (
        err (status unauthenticated "invalid or expired code"),
        (note_failure s.login_rate_limiter code_keys v').1,
      )
  unfolding login_with_email_code finish_code_login
  wrong_code_counts w v v' given through wrong =
      refuse_if-false _ _ _ w given
      ∙ bind_ok _ _ through
      ∙ bind_ok _ _ {a = false} {v = v'} (attempt_ok _ _ v wrong)
      ∙ bind-run _ _ v'
