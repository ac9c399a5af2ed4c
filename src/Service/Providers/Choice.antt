-- ===== src/Service/Providers/Choice.antt =====
-- Which of a user's addresses the program takes.
use identra.Common.{
  String, ◌==◌, ◌≡◌, ap, ◌∙◌, refl, eq_iff, Bool, true, false, not, ◌&&◌, List, [], ◌∷◌, Bool-cases,
  inl, inr, if◌then◌else◌, arith,
}
use identra.Service.Providers.{Email, choose_email}

-- The first address that is not empty and passes the test, or the empty text.
unfoldable pub first_address : (Email → Bool) → List Email → String
first_address p [] = ""
first_address p (e ∷ es) =
    let rest = first_address p es in if not (e.address == "") && p e then e.address else rest

-- The second text where the first is empty.
abbrev pub or_else : String → String → String
or_else s t = if s == "" then t else s

chosen :
    (b : Bool) (v a x verified any : String)
    → (x == "") ≡ false
    → or_else
        (if (v == "") && b then x else v)
        (or_else verified (or_else (if a == "" then x else a) any))
      ≡ or_else v (or_else (if b then x else verified) (or_else a x))
chosen true v a x verified any full = ground arith
chosen false v a x verified any full = ground arith

choose_from :
    (v a : String) (es : List Email)
    → choose_email v a es
      ≡ or_else (first_address (λ e. e.primary && e.verified) es) (
          or_else v (
            or_else
              (first_address (λ e. e.verified) es)
              (or_else a (first_address (λ e. true) es))))
unfolding choose_email first_address
choose_from v a [] = ground (arith, eq_iff a "")
choose_from v a (e ∷ es) = elim (Bool-cases (e.address == "")) [
  | inl blank ↦ rw blank (choose_from v a es)
  | inr full ↦ elim (Bool-cases (e.primary && e.verified)) [
    | inl best ↦ rw (full, best) (rw full refl)
    | inr not_best ↦
        rw (full, not_best)
          (choose_from (if (v == "") && e.verified then e.address else v)
              (if a == "" then e.address else a) es
            ∙ ap (or_else (first_address (λ e'. e'.primary && e'.verified) es))
                (chosen e.verified v a e.address _ _ full))
  ]
]

-- The address is that of the first e-mail that is primary and verified; without one, of the first that is
-- verified; without one, of the first; and e-mails without an address are passed over.
pub choose_email_lem :
    (es : List Email)
    → choose_email "" "" es
      ≡ or_else
          (first_address (λ e. e.primary && e.verified) es)
          (or_else (first_address (λ e. e.verified) es) (first_address (λ e. true) es))
choose_email_lem es = choose_from "" "" es
