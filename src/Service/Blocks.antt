-- ===== src/Service/Blocks.antt =====
-- Rules for the blocks of the handlers.
use identra.Common.{◌≡◌, ap, Bool, false, arith}
use identra.Common.Exec.{Result, ok, Exec, ◌>>◌, bind_ok, refuse_if}
use identra.Service.{Fault, UserModel, Status, attempt}
use identra.Service.Password.{answer, found_or_refused}

pub attempt-eq-ok :
    {W E A : Type 0} (m : Exec W E A) (e : Status) (w : W) {a : A} {v : W}
    → attempt m e w ≡ (ok a, v)
    → m w ≡ (ok a, v)
unfolding attempt
attempt-eq-ok m e w h = ground arith

pub attempt_ok :
    {W E A : Type 0} (m : Exec W E A) (e : Status) (w : W) {a : A} {v : W}
    → m w ≡ (ok a, v)
    → attempt m e w ≡ (ok a, v)
unfolding attempt
attempt_ok m e w h = ground arith

pub refuse_if-false :
    {W A : Type 0} (b : Bool) (e : Status) (f : Exec W Status A) (w : W)
    → b ≡ false
    → (refuse_if b e >> f) w ≡ f w
refuse_if-false b e f w h = bind_ok _ _ (ground arith)

pub pair_path : {A B : Type 0} {p : A × B} {a : A} {b : B} → p.0 ≡ a → p.1 ≡ b → p ≡ (a, b)
pair_path h k i = (h i, k i)

pub answer_at :
    {W A : Type 0} {r r' : Result Status A} {w w' : W} → r ≡ r' → w ≡ w' → answer r w ≡ (r', w')
answer_at p q i = (p i, q i)

pub answer-eq-ok :
    {W A : Type 0} (r : Result Status A) (w : W) {a : A} {w' : W}
    → answer r w ≡ (ok a, w')
    → (r ≡ ok a) × (w ≡ w')
answer-eq-ok r w h = (ap (λ x. x.0) h, ap (λ x. x.1) h)

pub found-eq-ok :
    {W : Type 0} (r : Result Fault UserModel) (v : W) {user : UserModel} {v' : W}
    → answer (found_or_refused r) v ≡ (ok user, v')
    → (r ≡ ok user) × (v ≡ v')
found-eq-ok r v h = ground arith
