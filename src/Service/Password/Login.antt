-- ===== src/Service/Password/Login.antt =====
-- When a password login issues tokens, and what the other outcomes leave behind.
use identra.Common.{
  String, ◌≡◌, refl, ◌∙◌, sym, ◌↔◌, ◌==◌, Bool, true, false, List, Option, some, arith,
}
use identra.Common.Exec.{ok, err, bind-elim, bind-run, bind_ok, refuse-elim}
use identra.Text.{trim_space}
use identra.Security.Tokens.{TokenPair, new_token_pair}
use identra.Service.{status, UserModel, Service, Metadata, unauthenticated}
use identra.Service.Blocks.{attempt-eq-ok, attempt_ok, refuse_if-false, found-eq-ok}
use identra.Service.RateLimit.{rate_limit_keys, email_rate_limit_key}
use identra.Service.Login.{limit_guard, note_failure, too_many_attempts}
use identra.Service.Limits.{LetThrough, after_reset, after_record, limit_guard_iff, login_written}
use identra.Service.Password.{login_with_password, finish_login, hash_or_refused, answer}

module _ {W P : Type 0} (s : Service W P) (md : Metadata) (given_email password : String) where
  abbrev pub login_keys : List String
  login_keys = rate_limit_keys s.lower_rune md "login" (trim_space given_email)

  -- The calls of a login that returns, each from the state that the one before it left.
  pub record LoggedIn (w : W) (pair : TokenPair) (w' : W) : Type 0 where
    pub user : UserModel
    pub hash : String
    pub guarded : W
    pub found : W
    pub email_given : (trim_space given_email == "") ≡ false
    pub password_given : (password == "") ≡ false
    pub let_through : LetThrough s.login_rate_limiter login_keys w guarded
    pub user_found : s.user_store.get_by_email (trim_space given_email) guarded ≡ (ok user, found)
    pub has_hash : user.hashed_password ≡ some hash
    pub verified : s.passwords.verify_password password hash ≡ ok true
    pub issued :
        new_token_pair s.runtime s.jwt user.id s.token_cfg (
          after_record s user (
            after_reset s.login_rate_limiter
              (email_rate_limit_key s.lower_rune "login" (trim_space given_email))
              found))
        ≡ (ok pair, w')

  finish_login-eq-ok :
      (email : String) (user : UserModel) (valid : Bool) (v : W) {pair : TokenPair} {w' : W}
      → finish_login s md email user valid v ≡ (ok pair, w')
      → (valid ≡ true)
        × (new_token_pair s.runtime s.jwt user.id s.token_cfg (
              after_record s user (
                after_reset s.login_rate_limiter
                  (email_rate_limit_key s.lower_rune "login" email)
                  v))
            ≡ (ok pair, w'))
  unfolding finish_login
  finish_login-eq-ok email user false v h = let h1 = sym (bind-run _ _ v) ∙ h in cc
  finish_login-eq-ok email user true v h =
      let h1 = sym (bind-run _ _ v) ∙ h in
      let h2 = sym (bind-run _ _ _) ∙ h1 in
      (refl, rw (login_written s s.login_rate_limiter _ user v) at (attempt-eq-ok _ _ _ h2))

  hash-eq-ok :
      (o : Option String) (v : W) {hash : String} {v' : W}
      → answer (hash_or_refused o) v ≡ (ok hash, v')
      → (o ≡ some hash) × (v ≡ v')
  hash-eq-ok o v h = ground arith

  login_to :
      (w w' : W) (pair : TokenPair)
      → login_with_password s md given_email password w ≡ (ok pair, w')
      → LoggedIn w pair w'
  unfolding login_with_password
  login_to w w' pair h = refuse-elim _ _ _ w h λ given h0. bind-elim _ _ w h0 λ _ w1 e1 h1.
      let h2 = sym (bind-run _ _ w1) ∙ h1 in
      bind-elim _ _ _ h2 λ user w3 e3 h3. bind-elim _ _ w3 h3 λ hash w4 e4 h4.
        bind-elim _ _ w4 h4 λ valid w5 e5 h5.
          let (found, at3) = found-eq-ok _ _ e3 in
          let (has, at4) = hash-eq-ok _ w3 e4 in
          let verdict = attempt-eq-ok _ _ w4 e5 in
          let (accepted, issued) = finish_login-eq-ok _ user valid w5 h5 in
          let at5 : w5 ≡ w3 = ground arith in
          record {
            user = user;
            hash = hash;
            guarded = w1;
            found = w3;
            email_given = ground arith;
            password_given = ground arith;
            let_through = (limit_guard_iff _ login_keys too_many_attempts w w1).0 e1;
            user_found = ground arith;
            has_hash = has;
            verified = ground arith;
            issued = rw at5 at issued;
          }

  login_from :
      (w w' : W) (pair : TokenPair)
      → LoggedIn w pair w'
      → login_with_password s md given_email password w ≡ (ok pair, w')
  unfolding login_with_password finish_login
  login_from w w' pair l =
      refuse_if-false _ _ _ w (ground arith)
      ∙ bind_ok _ _ (
          (limit_guard_iff s.login_rate_limiter login_keys too_many_attempts w l.guarded).1
            l.let_through)
      ∙ bind-run _ _ l.guarded
      ∙ bind_ok _ _ {a = l.user} {v = l.found} (ground arith)
      ∙ bind_ok _ _ {a = l.hash} {v = l.found} (ground arith)
      ∙ bind_ok _ _ {a = true} {v = l.found} (attempt_ok _ _ l.found (ground arith))
      ∙ bind-run _ _ l.found
      ∙ bind-run _ _ _
      ∙ attempt_ok _ _ _ (rw (login_written s s.login_rate_limiter _ l.user l.found) l.issued)

  -- A password login returns a token pair exactly when: the e-mail (trimmed) and the password are
  -- given; the limiter, if there is one, is asked for the login keys in their order and allows each, or
  -- fails at one; the user store finds the user of that e-mail; the
  -- user has a password hash, and the password matches it; and, after the key of the
  -- e-mail has been reset at the limiter and the user has been stored with the present time as its last
  -- login (whether or not these calls fail), the pair is issued for that user. Each call is made in the
  -- state that the one before it left, and the pair and the last state are those of the issue.
  pub login_with_password_iff :
      (w w' : W) (pair : TokenPair)
      → (login_with_password s md given_email password w ≡ (ok pair, w')) ↔ LoggedIn w pair w'
  login_with_password_iff w w' pair = (login_to w w' pair, login_from w w' pair)

  -- Where an e-mail and a password are given, the limiter lets the attempt through, the e-mail's user is
  -- found and has a hash, and the password does not match it: the attempt is counted under the login
  -- keys, nothing else is written after the look-up, and the login is refused as not authenticated.
  pub wrong_password_counts :
      (w v v' : W) (user : UserModel) (hash : String)
      → (trim_space given_email == "") ≡ false
      → (password == "") ≡ false
      → limit_guard s.login_rate_limiter login_keys too_many_attempts w ≡ (ok tt, v)
      → s.user_store.get_by_email (trim_space given_email) v ≡ (ok user, v')
      → user.hashed_password ≡ some hash
      → s.passwords.verify_password password hash ≡ ok false
      → login_with_password s md given_email password w ≡ (
        err (status unauthenticated "invalid credentials"),
        (note_failure s.login_rate_limiter login_keys v').1,
      )
  unfolding login_with_password finish_login
  wrong_password_counts w v v' user hash email given through found has wrong =
      refuse_if-false _ _ _ w (ground arith)
      ∙ bind_ok _ _ through
      ∙ bind-run _ _ v
      ∙ bind_ok _ _ {a = user} {v = v'} (ground arith)
      ∙ bind_ok _ _ {a = hash} {v = v'} (ground arith)
      ∙ bind_ok _ _ {a = false} {v = v'} (attempt_ok _ _ v' (ground arith))
      ∙ bind-run _ _ v'
