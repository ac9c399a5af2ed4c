-- ===== src/Sqlite/Migrations/Ends.antt =====
-- How a chain of calls ends, by a condition for its errors and one for its answers.
use identra.Common.{◌≡◌, refl, Bool, true, false, Option, none, some}
use identra.Common.Exec.{Result, ok, err, Exec, Action, ◌>>=◌, refuse_if}
use identra.Sqlite.Migrations.{MigrationError, passed, undone, found}

-- How a call ends: with `P` of the state where it fails, and with `Q` of answer and state else.
abbrev pub Ends :
    {W A : Type 0} → (W → Type 0) → (A → W → Type 0) → Result MigrationError A × W → Type 0
Ends P Q (err e, w) = P w
Ends P Q (ok a, w) = Q a w

module _ {W A : Type 0} (P : W → Type 0) (Q : A → W → Type 0) where
  pub Ends-found :
      (e : MigrationError) (o : Option A) (w : W)
      → P w
      → ((a : A) → o ≡ some a → Q a w)
      → Ends P Q (found e o w)
  Ends-found e none w h k = h
  Ends-found e (some a) w h k = k a refl

  pub Ends-weaken :
      (P2 : W → Type 0) (Q2 : A → W → Type 0) (r : Result MigrationError A × W)
      → Ends P Q r
      → ((v : W) → P v → P2 v)
      → ((a : A) (v : W) → Q a v → Q2 a v)
      → Ends P2 Q2 r
  Ends-weaken P2 Q2 (ok a, w) h p q = q a w h
  Ends-weaken P2 Q2 (err e, w) h p q = p w h

  module _ {B : Type 0} (R : B → W → Type 0) (f : A → Exec W MigrationError B) where
    Ends-bind_at :
        (r : Result MigrationError A × W)
        → Ends P Q r
        → ((a : A) (v : W) → Q a v → Ends P R (f a v))
        → Ends P R (elim r.0 [ ok a ↦ f a r.1 | err e ↦ (err e, r.1) ])
    Ends-bind_at (ok a, w) h k = k a w h
    Ends-bind_at (err e, w) h k = h

    pub Ends-bind :
        (m : Exec W MigrationError A) (w : W)
        → Ends P Q (m w)
        → ((a : A) (v : W) → Q a v → Ends P R (f a v))
        → Ends P R ((m >>= f) w)
    unfolding ◌>>=◌
    Ends-bind m w h k = Ends-bind_at (m w) h k

module _ {W : Type 0} (P : W → Type 0) (Q : Unit {0} → W → Type 0) where
  pub Ends-passed :
      (e : MigrationError) (r : Bool × W)
      → (r.0 ≡ true → Q tt r.1)
      → (r.0 ≡ false → P r.1)
      → Ends P Q (passed e r)
  Ends-passed e (true, w) h k = h refl
  Ends-passed e (false, w) h k = k refl

  pub Ends-undone :
      (back : Action W (Unit {0})) (e : MigrationError) (r : Bool × W)
      → (r.0 ≡ true → Q tt r.1)
      → P (back r.1).1
      → Ends P Q (undone back e r)
  Ends-undone back e (true, w) h k = h refl
  Ends-undone back e (false, w) h k = k

  pub Ends-refuse_if :
      (b : Bool) (e : MigrationError) (w : W)
      → P w
      → (b ≡ false → Q tt w)
      → Ends P Q (refuse_if b e w)
  Ends-refuse_if true e w h k = h
  Ends-refuse_if false e w h k = k refl
