-- ===== src/Sqlite/Kept.antt =====
-- Lists of which a test keeps some, as WHERE, LIMIT and OFFSET do.
use mathlib.Core.Path.{subst}
use identra.Common.{
  ℕ, zero, suc, ◌≡◌, refl, sym, ap, ◌∙◌, ◌&&◌, true, false, Bool, List, [], ◌∷◌, any, keep, take,
  drop, length, map, Any, inl, inr, Bool-cases, arith,
}
use identra.Sqlite.{count_where}

pub cons_eq : {A : Type 0} {a b : A} {xs ys : List A} → a ≡ b → xs ≡ ys → (a ∷ xs) ≡ (b ∷ ys)
cons_eq p q i = p i ∷ q i

and_false : (a b : Bool) → b ≡ false → (a && b) ≡ false
and_false a b e = ground arith

module _ {R : Type 0} where
  pub keep_yes : (p : R → Bool) (x : R) (rs : List R) → p x ≡ true → keep p (x ∷ rs) ≡ x ∷ keep p rs
  keep_yes p x rs h = ground arith

  pub keep_no : (p : R → Bool) (x : R) (rs : List R) → p x ≡ false → keep p (x ∷ rs) ≡ keep p rs
  keep_no p x rs h = ground arith

  pub keep-none : (p : R → Bool) (rs : List R) → any p rs ≡ false → keep p rs ≡ []
  keep-none p [] h = refl
  keep-none p (x ∷ rs) h = elim (Bool-cases (p x)) [
    | inl holds ↦ absurd (ground arith)
    | inr fails ↦ keep_no p x rs fails ∙ keep-none p rs (ground arith)
  ]

  pub keep-keep :
      (p q t : R → Bool) (rs : List R)
      → ((r : R) → (p r && q r) ≡ t r)
      → keep p (keep q rs) ≡ keep t rs
  keep-keep p q t [] h = refl
  keep-keep p q t (x ∷ rs) h = elim (Bool-cases (q x)) [
    | inl holds ↦ elim (Bool-cases (p x)) [
      | inl also ↦
          let is : t x ≡ true = sym (h x) ∙ ap (λ b. p x && b) holds ∙ ap (λ b. b && true) also in
          ap (keep p) (keep_yes q x rs holds)
          ∙ keep_yes p x (keep q rs) also
          ∙ cons_eq refl (keep-keep p q t rs h)
          ∙ sym (keep_yes t x rs is)
      | inr not_p ↦
          let is : t x ≡ false = sym (h x) ∙ ap (λ b. b && q x) not_p in
          ap (keep p) (keep_yes q x rs holds)
          ∙ keep_no p x (keep q rs) not_p
          ∙ keep-keep p q t rs h
          ∙ sym (keep_no t x rs is)
    ]
    | inr fails ↦
        let is : t x ≡ false = sym (h x) ∙ and_false (p x) (q x) fails in
        ap (keep p) (keep_no q x rs fails) ∙ keep-keep p q t rs h ∙ sym (keep_no t x rs is)
  ]

  pub Any-keep :
      (p : R → Bool) (r : R) (rs : List R)
      → Any (λ s. s ≡ r) (keep p rs)
      → (p r ≡ true) × Any (λ s. s ≡ r) rs
  Any-keep p r [] h = absurd h
  Any-keep p r (x ∷ rs) h = elim (Bool-cases (p x)) [
    | inl holds ↦ elim (subst (Any (λ s. s ≡ r)) (keep_yes p x rs holds) h) [
      | inl here ↦ (ap p (sym here) ∙ holds, inl here)
      | inr later ↦ let (is, there) = Any-keep p r rs later in (is, inr there)
    ]
    | inr fails ↦
        let (is, there) = Any-keep p r rs (subst (Any (λ s. s ≡ r)) (keep_no p x rs fails) h) in
        (is, inr there)
  ]

  pub keep-Any :
      (p : R → Bool) (r : R) (rs : List R)
      → p r ≡ true
      → Any (λ s. s ≡ r) rs
      → Any (λ s. s ≡ r) (keep p rs)
  keep-Any p r [] is h = absurd h
  keep-Any p r (x ∷ rs) is (inl here) =
      subst (Any (λ s. s ≡ r)) (sym (keep_yes p x rs (ap p here ∙ is))) (inl here)
  keep-Any p r (x ∷ rs) is (inr later) = elim (Bool-cases (p x)) [
    | inl holds ↦
        subst (Any (λ s. s ≡ r)) (sym (keep_yes p x rs holds)) (inr (keep-Any p r rs is later))
    | inr fails ↦ subst (Any (λ s. s ≡ r)) (sym (keep_no p x rs fails)) (keep-Any p r rs is later)
  ]

  kept_yes :
      {B : Type 0} (f : R → B) (p : B → Bool) (x : R) (rs : List R)
      → p (f x) ≡ true
      → keep p (map f (x ∷ rs)) ≡ f x ∷ keep p (map f rs)
  kept_yes f p x rs h = ground arith

  kept_no :
      {B : Type 0} (f : R → B) (p : B → Bool) (x : R) (rs : List R)
      → p (f x) ≡ false
      → keep p (map f (x ∷ rs)) ≡ keep p (map f rs)
  kept_no f p x rs h = ground arith

  pub map-keep :
      {B : Type 0} (f : R → B) (p : B → Bool) (q : R → Bool) (rs : List R)
      → ((r : R) → p (f r) ≡ q r)
      → keep p (map f rs) ≡ map f (keep q rs)
  map-keep f p q [] h = refl
  map-keep f p q (x ∷ rs) h = elim (Bool-cases (q x)) [
    | inl holds ↦
        kept_yes f p x rs (h x ∙ holds)
        ∙ cons_eq refl (map-keep f p q rs h)
        ∙ ap (map f) (sym (keep_yes q x rs holds))
    | inr fails ↦
        kept_no f p x rs (h x ∙ fails)
        ∙ map-keep f p q rs h
        ∙ ap (map f) (sym (keep_no q x rs fails))
  ]

  pub drop-map :
      {B : Type 0} (f : R → B) (n : ℕ) (rs : List R) → drop n (map f rs) ≡ map f (drop n rs)
  drop-map f zero rs = refl
  drop-map f (suc n) [] = refl
  drop-map f (suc n) (x ∷ rs) = drop-map f n rs

  pub take-map :
      {B : Type 0} (f : R → B) (n : ℕ) (rs : List R) → take n (map f rs) ≡ map f (take n rs)
  take-map f zero rs = refl
  take-map f (suc n) [] = refl
  take-map f (suc n) (x ∷ rs) = cons_eq refl (take-map f n rs)

  pub length-map : {B : Type 0} (f : R → B) (rs : List R) → length (map f rs) ≡ length rs
  length-map f [] = refl
  length-map f (x ∷ rs) = ap suc (length-map f rs)

  pub count-keep : (p : R → Bool) (rs : List R) → count_where p rs ≡ length (keep p rs)
  unfolding count_where
  count-keep p [] = refl
  count-keep p (x ∷ rs) = ground (arith, count-keep p rs)
