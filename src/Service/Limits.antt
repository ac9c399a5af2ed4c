-- ===== src/Service/Limits.antt =====
-- What the limiters' blocks of the handlers do, told by the calls of the limiter alone.
use identra.Common.{
  String, ◌≡◌, refl, ◌↔◌, ◌⊎◌, inl, inr, ap, ◌∙◌, Bool, true, false, Option, none, some, List, [],
  ◌∷◌, arith,
}
use identra.Common.Exec.{Result, ok, err}
use identra.Service.{Fault, Status, UserModel, RateLimiter, Service}
use identra.Service.Blocks.{pair_path}
use identra.Service.RateLimit.{rate_limit_allowed}
use identra.Service.Login.{limit_guard, forget_failures, record_login, open_or_refused}
use identra.Service.Accounts.Handlers.{exchange_guard}

module _ {W : Type 0} (limiter : RateLimiter W) where
  -- The limiter is asked for one key after the other. It allows each, or fails at one, after which it is
  -- not asked again.
  abbrev pub Admits : List String → W → W → Type 0
  Admits [] w w' = w ≡ w'
  Admits (key ∷ keys) w w' =
      ((v : W) × (limiter.is_allowed key w ≡ (ok true, v)) × Admits keys v w')
      ⊎ ((e : Fault) × (limiter.is_allowed key w ≡ (err e, w')))

module _ {W : Type 0} where
  abbrev pub LetThrough : Option (RateLimiter W) → List String → W → W → Type 0
  LetThrough none keys w w' = w ≡ w'
  LetThrough (some limiter) keys w w' = Admits limiter keys w w'

  -- Here a failure of the limiter lets nothing through.
  abbrev pub LetThroughClosed : Option (RateLimiter W) → String → W → W → Type 0
  LetThroughClosed none key w w' = w ≡ w'
  LetThroughClosed (some limiter) key w w' = limiter.is_allowed key w ≡ (ok true, w')

  -- The state after the failures of the key have been reset, where there is a limiter.
  abbrev pub after_reset : Option (RateLimiter W) → String → W → W
  after_reset none key w = w
  after_reset (some limiter) key w = (limiter.reset key w).1

module _ {W P : Type 0} (s : Service W P) where
  -- The state after the store has been given the user with the present time as that of the last login.
  abbrev pub after_record : UserModel → W → W
  after_record user w =
      (s.user_store.update (record user { last_login_at = some (s.runtime.now w).0 })
        (s.runtime.now w).1).1

  pub record_login-after :
      (user : UserModel) (w : W) → (record_login s user w).1 ≡ after_record user w
  unfolding record_login
  record_login-after user w = refl

answer_cases :
    {W : Type 0} (r : Result Fault Bool × W)
    → ((v : W) × (r ≡ (ok true, v)))
      ⊎ (((v : W) × (r ≡ (ok false, v))) ⊎ ((e : Fault) × (v : W) × (r ≡ (err e, v))))
answer_cases (ok true, v) = inl (v, refl)
answer_cases (ok false, v) = inr (inl (v, refl))
answer_cases (err e, v) = inr (inr (e, v, refl))

module _ {W : Type 0} where
  pub forget_failures-after :
      (o : Option (RateLimiter W)) (key : String) (w : W)
      → (forget_failures o key w).1 ≡ after_reset o key w
  unfolding forget_failures
  forget_failures-after none key w = refl
  forget_failures-after (some limiter) key w = refl

  module _ (limiter : RateLimiter W) (refusal : Status) where
    Admits-to :
        (keys : List String) (w w' : W)
        → open_or_refused refusal (rate_limit_allowed limiter keys w).0 ≡ ok tt
        → (rate_limit_allowed limiter keys w).1 ≡ w'
        → Admits limiter keys w w'
    unfolding rate_limit_allowed
    Admits-to [] w w' h at = at
    Admits-to (key ∷ keys) w w' h at = elim (answer_cases (limiter.is_allowed key w)) [
      | inl (v, allowed) ↦
          inl (v, allowed, Admits-to keys v w' (rw allowed at h) (rw allowed at at))
      | inr (inl (v, denied)) ↦ let h1 = rw denied at h in absurd (ground arith)
      | inr (inr (e, v, failed)) ↦ inr (e, failed ∙ ap (λ x. (err e, x)) (rw failed at at))
    ]

    Admits-from :
        (keys : List String) (w w' : W)
        → Admits limiter keys w w'
        → (open_or_refused refusal (rate_limit_allowed limiter keys w).0 ≡ ok tt)
          × ((rate_limit_allowed limiter keys w).1 ≡ w')
    unfolding rate_limit_allowed
    Admits-from [] w w' h = (refl, h)
    Admits-from (key ∷ keys) w w' (inl (v, allowed, more)) = rw allowed (Admits-from keys v w' more)
    Admits-from (key ∷ keys) w w' (inr (e, failed)) = rw failed (refl, refl)

  pub limit_guard_iff :
      (o : Option (RateLimiter W)) (keys : List String) (refusal : Status) (w w' : W)
      → (limit_guard o keys refusal w ≡ (ok tt, w')) ↔ LetThrough o keys w w'
  unfolding limit_guard
  limit_guard_iff none keys refusal w w' = (λ h. ap (λ x. x.1) h, λ h. pair_path refl h)
  limit_guard_iff (some limiter) keys refusal w w' = (
    λ h. Admits-to limiter refusal keys w w' (ap (λ x. x.0) h) (ap (λ x. x.1) h),
    λ h. let (admitted, at) = Admits-from limiter refusal keys w w' h in pair_path admitted at,
  )

  pub exchange_guard_iff :
      (o : Option (RateLimiter W)) (key : String) (w w' : W)
      → (exchange_guard o key w ≡ (ok tt, w')) ↔ LetThroughClosed o key w w'
  unfolding exchange_guard
  exchange_guard_iff none key w w' = (λ h. ap (λ x. x.1) h, λ h. pair_path refl h)
  exchange_guard_iff (some limiter) key w w' = (
    λ h. elim (answer_cases (limiter.is_allowed key w)) [
      | inl (v, allowed) ↦ allowed ∙ ap (λ x. (ok true, x)) (ap (λ x. x.1) (rw allowed at h))
      | inr (inl (v, denied)) ↦ let h1 = rw denied at h in absurd (ground arith)
      | inr (inr (e, v, failed)) ↦ let h1 = rw failed at h in absurd (ground arith)
    ],
    λ h. rw h refl,
  )

module _ {W P : Type 0} (s : Service W P) where
  -- What a login writes after it has let the user in.
  pub login_written :
      (o : Option (RateLimiter W)) (key : String) (user : UserModel) (w : W)
      → (record_login s user (forget_failures o key w).1).1
        ≡ after_record s user (after_reset o key w)
  login_written o key user w =
      record_login-after s user _ ∙ ap (after_record s user) (forget_failures-after o key w)
