-- ===== src/Common/Exec.antt =====
-- Calls that change state and may fail. What was written before an error stays written, so the
-- state comes back beside the error too, as in Go.
use mathlib.Core.Bool.{Bool, true, false}
use native.Mathlib.Omega.{arith}
use mathlib.Core.Path.{◌≡◌, refl}
use mathlib.Core.Logic.{◌⊎◌, inl, inr}
use identra.Common.Tests.{if◌then◌else◌}

-- A Go pair (value, error), of which exactly one is meaningful.
pub data Result (E A : Type 0) : Type 0 where
  ok : A → Result E A
  err : E → Result E A

pub Result-cases :
    {E A : Type 0} (r : Result E A) → ((a : A) × (r ≡ ok a)) ⊎ ((e : E) × (r ≡ err e))
Result-cases (ok a) = inl (a, refl)
Result-cases (err e) = inr (e, refl)

-- A call on the state `W`, with no error of its own.
abbrev pub Action : Type 0 → Type 0 → Type 0
Action W A = W → A × W

abbrev pub Exec : Type 0 → Type 0 → Type 0 → Type 0
Exec W E A = W → Result E A × W

module _ {W E A : Type 0} where
  abbrev pub pure : A → Exec W E A
  pure a w = (ok a, w)

  abbrev pub raise : E → Exec W E A
  raise e w = (err e, w)

  -- An action whose answer the code inspects itself.
  abbrev pub run : Action W A → Exec W E A
  run m w = let (a, w') = m w in (ok a, w')

module _ {W E A B : Type 0} where
  infixl 5 ◌>>=◌
  unfoldable pub ◌>>=◌ : Exec W E A → (A → Exec W E B) → Exec W E B
  ◌>>=◌ m f w = elim ((m w).0) [ ok a ↦ f a (m w).1 | err e ↦ (err e, (m w).1) ]

module _ {W E B : Type 0} where
  infixl 5 ◌>>◌
  abbrev pub ◌>>◌ : Exec W E (Unit {0}) → Exec W E B → Exec W E B
  m >> k = m >>= λ _. k

module _ {W E : Type 0} where
  -- An early return with an error.
  abbrev pub refuse_if : Bool → E → Exec W E (Unit {0})
  refuse_if b e w = (if b then err e else ok tt, w)

module _ {W E A B : Type 0} where
  -- A block that returns has been through each of its calls.
  pub bind-eq-ok :
      (m : Exec W E A) (f : A → Exec W E B) (w : W) {b : B} {w' : W}
      → (m >>= f) w ≡ (ok b, w')
      → (a : A) × (v : W) × (m w ≡ (ok a, v)) × (f a v ≡ (ok b, w'))
  unfolding ◌>>=◌
  bind-eq-ok m f w h = elim (Result-cases (m w).0) [
    | inl (a, returned) ↦ (a, (m w).1, ground arith, ground arith)
    | inr (e, failed) ↦ absurd (ground arith)
  ]

  -- The same, handing the parts over.
  pub bind-elim :
      (m : Exec W E A) (f : A → Exec W E B) (w : W) {b : B} {w' : W} {C : Type 0}
      → (m >>= f) w ≡ (ok b, w')
      → ((a : A) (v : W) → m w ≡ (ok a, v) → f a v ≡ (ok b, w') → C)
      → C
  bind-elim m f w h use_parts = let (a, v, e, k) = bind-eq-ok m f w h in use_parts a v e k

  pub bind-run : (m : Action W A) (f : A → Exec W E B) (w : W) → (run m >>= f) w ≡ f (m w).0 (m w).1
  unfolding ◌>>=◌
  bind-run m f w = refl

  pub bind_ok :
      (m : Exec W E A) (f : A → Exec W E B) {w : W} {a : A} {v : W}
      → m w ≡ (ok a, v)
      → (m >>= f) w ≡ f a v
  unfolding ◌>>=◌
  bind_ok m f h = ground arith

  pub bind_err :
      (m : Exec W E A) (f : A → Exec W E B) {w : W} {e : E} {v : W}
      → m w ≡ (err e, v)
      → (m >>= f) w ≡ (err e, v)
  unfolding ◌>>=◌
  bind_err m f h = ground arith

module _ {W E : Type 0} where
  pub refuse_if-eq-ok :
      (b : Bool) (e : E) (w : W) {w' : W} → refuse_if b e w ≡ (ok tt, w') → (b ≡ false) × (w ≡ w')
  refuse_if-eq-ok b e w h = ground arith

module _ {W E B : Type 0} where
  -- A block that returns has passed its guard.
  pub refuse-elim :
      (b : Bool) (e : E) (f : Exec W E B) (w : W) {a : B} {w' : W} {C : Type 0}
      → (refuse_if b e >> f) w ≡ (ok a, w')
      → (b ≡ false → f w ≡ (ok a, w') → C)
      → C
  unfolding ◌>>=◌
  refuse-elim true e f w h use_parts = absurd (ground arith)
  refuse-elim false e f w h use_parts = use_parts refl h
