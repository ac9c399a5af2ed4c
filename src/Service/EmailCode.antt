-- ===== src/Service/EmailCode.antt =====
-- internal/identra/service_email_code.go: codes sent by e-mail, and login with such a code.
pub mod Login
use Prim.Native.String
use identra.Common.{
  String, ◌==◌, Bool, true, false, ◌||◌, Option, none, some, List, [], ◌∷◌, ℕ, zero, suc, ◌/◌, ◌%◌,
}
use identra.Common.Exec.{Result, ok, err, Action, pure, raise, run, ◌>>=◌, ◌>>◌, refuse_if}
use identra.Text.{trim_space}
use identra.Security.Tokens.{TokenPair, new_token_pair}
use identra.Service.{
  invalid_argument, resource_exhausted, failed_precondition, internal, unauthenticated, Status,
  status, Fault, missing, UserModel, EmailMessage, EmailSender, RateLimiter, Service, Handler,
  Metadata, attempt,
}
use identra.Service.RateLimit.{
  rate_limit_keys, email_rate_limit_key, rate_limit_allowed, record_rate_limit,
}
use identra.Service.Login.{
  limit_guard, note_failure, forget_failures, record_login, too_many_attempts,
}
use identra.Service.Password.{answer, new_user}

abbrev nth : List String → ℕ → String
nth [] n = ""
nth (s ∷ ss) zero = s
nth (s ∷ ss) (suc n) = nth ss n

-- the decimal digit of a number below ten
abbrev digit : ℕ → String
digit = nth ("0" ∷ "1" ∷ "2" ∷ "3" ∷ "4" ∷ "5" ∷ "6" ∷ "7" ∷ "8" ∷ "9" ∷ [])

abbrev joined : List String → String
joined [] = ""
joined (s ∷ ss) = String.◌++◌ s (joined ss)

-- `%06d` of a number below a million
unfoldable pub six_digits : ℕ → String
six_digits n = joined (
    digit (n / 100000 % 10)
    ∷ digit (n / 10000 % 10)
    ∷ digit (n / 1000 % 10)
    ∷ digit (n / 100 % 10)
    ∷ digit (n / 10 % 10)
    ∷ digit (n % 10)
    ∷ [])

-- The lines of the template before the code, and those after it.
abbrev html_head : List String
html_head =
    "\n" ∷ "<!DOCTYPE html>\n" ∷ "<html>\n" ∷ "<head>\n" ∷ "\t<meta charset=\"UTF-8\">\n"
    ∷ "\t<style>\n"
    ∷ "\t\tbody { font-family: Arial, sans-serif; line-height: 1.6; color: #333; }\n"
    ∷ "\t\t.container { max-width: 600px; margin: 0 auto; padding: 20px; }\n"
    ∷ "\t\t.header { background-color: #4CAF50; color: white; padding: 20px; text-align: center; }\n"
    ∷ "\t\t.content { background-color: #f9f9f9; padding: 30px; border-radius: 5px; margin-top: 20px; }\n"
    ∷ "\t\t.code { font-size: 32px; font-weight: bold; color: #4CAF50; text-align: center; letter-spacing: 5px; padding: 20px; background-color: #fff; border-radius: 5px; margin: 20px 0; }\n"
    ∷ "\t\t.footer { text-align: center; margin-top: 20px; color: #666; font-size: 12px; }\n"
    ∷ "\t</style>\n" ∷ "</head>\n" ∷ "<body>\n" ∷ "\t<div class=\"container\">\n"
    ∷ "\t\t<div class=\"header\">\n" ∷ "\t\t\t<h1>Verification Code</h1>\n" ∷ "\t\t</div>\n"
    ∷ "\t\t<div class=\"content\">\n" ∷ "\t\t\t<p>Hello,</p>\n"
    ∷ "\t\t\t<p>You have requested a verification code. Please use the code below to complete your verification:</p>\n"
    ∷ "\t\t\t<div class=\"code\">" ∷ []

abbrev html_tail : List String
html_tail =
    "</div>\n" ∷ "\t\t\t<p>This code will expire in <strong>10 minutes</strong>.</p>\n"
    ∷ "\t\t\t<p>If you did not request this code, please ignore this email.</p>\n" ∷ "\t\t</div>\n"
    ∷ "\t\t<div class=\"footer\">\n"
    ∷ "\t\t\t<p>This is an automated message, please do not reply.</p>\n" ∷ "\t\t</div>\n"
    ∷ "\t</div>\n" ∷ "</body>\n" ∷ "</html>\n" ∷ []

-- The codes expire after ten minutes, says the mail.
unfoldable pub verification_mail : String → String → Bool → EmailMessage
verification_mail to code true = record {
  to_emails = to ∷ [];
  subject = "Your Verification Code";
  body = String.◌++◌ (joined html_head) (String.◌++◌ code (joined html_tail));
  is_html = true;
}
verification_mail to code false = record {
  to_emails = to ∷ [];
  subject = "Your Verification Code";
  body = joined ("Your verification code is: " ∷ code ∷ " (valid for 10 minutes)" ∷ []);
  is_html = false;
}

abbrev pub too_many_requests : Status
too_many_requests =
    status resource_exhausted "too many verification code requests, please try again later"

-- A request that is let through is counted, unless the limiter has failed.
abbrev pub counted_if_ok :
    {W : Type 0} → RateLimiter W → List String → Result Fault Bool → Handler W (Unit {0})
counted_if_ok limiter keys (err e) w = (ok tt, w)
counted_if_ok limiter keys (ok false) w = (err too_many_requests, w)
counted_if_ok limiter keys (ok true) w = (ok tt, (record_rate_limit limiter keys w).1)

module _ {W : Type 0} where
  unfoldable pub send_guard : Option (RateLimiter W) → List String → Handler W (Unit {0})
  send_guard none keys w = (ok tt, w)
  send_guard (some limiter) keys w =
      let (allowed, w') = rate_limit_allowed limiter keys w in counted_if_ok limiter keys allowed w'

abbrev pub or_internal : {A : Type 0} → String → Option A → Result Status A
or_internal message none = err (status internal message)
or_internal message (some a) = ok a

module _ {W P : Type 0} (s : Service W P) where
  unfoldable pub send_login_code : Metadata → EmailSender W → String → Bool → Handler W (Unit {0})
  send_login_code md mailer given_email use_html =
      let email = trim_space given_email in
      do
        refuse_if (email == "") (status invalid_argument "email is required")
        send_guard s.send_code_rate_limiter (rate_limit_keys s.lower_rune md "send_code" email)
        drawn ← run (s.runtime.random_below 1000000)
        number ← answer (or_internal "failed to generate code" drawn)
        attempt (s.email_code_store.set email (six_digits number))
            (status internal "failed to store verification code")
        attempt (mailer.send_email (verification_mail email (six_digits number) use_html))
            (status internal "failed to send verification email")

  mailed : Option (EmailSender W) → (EmailSender W → Handler W (Unit {0})) → Handler W (Unit {0})
  mailed none send = raise (status failed_precondition "mail service is disabled")
  mailed (some mailer) send = send mailer

  unfoldable pub request_email_login_code : Metadata → String → Bool → Handler W (Unit {0})
  unfolding mailed
  request_email_login_code md email use_html =
      mailed s.mailer λ mailer. send_login_code md mailer email use_html

  -- The user of an address that has just been proved; a user that is missing is created.
  unfoldable pub found_or_created : String → Result Fault UserModel → Handler W UserModel
  found_or_created email (ok user) = pure user
  found_or_created email (err missing) =
      attempt (s.user_store.create (new_user email none)) (status internal "failed to create user")
  found_or_created email (err _) = raise (status internal "failed to fetch user")

  -- The part of a login after the code has been looked at.
  unfoldable pub finish_code_login : Metadata → String → Bool → Handler W TokenPair
  finish_code_login md email false = do
    run (note_failure s.login_rate_limiter (rate_limit_keys s.lower_rune md "login" email))
    raise (status unauthenticated "invalid or expired code")
  finish_code_login md email true = do
    found ← run (s.user_store.get_by_email email)
    user ← found_or_created email found
    run (forget_failures s.login_rate_limiter (email_rate_limit_key s.lower_rune "login" email))
    run (record_login s user)
    attempt (new_token_pair s.runtime s.jwt user.id s.token_cfg)
        (status internal "failed to create token pair")

  unfoldable pub login_with_email_code : Metadata → String → String → Handler W TokenPair
  login_with_email_code md given_email given_code =
      let email = trim_space given_email in
      let code = trim_space given_code in
      do
        refuse_if (email == "" || code == "")
            (status invalid_argument "email and code are required")
        limit_guard s.login_rate_limiter (rate_limit_keys s.lower_rune md "login" email)
            too_many_attempts
        valid ←
            attempt (s.email_code_store.consume email code)
              (status internal "failed to validate code")
        finish_code_login md email valid
