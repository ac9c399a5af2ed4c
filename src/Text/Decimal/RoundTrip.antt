-- ===== src/Text/Decimal/RoundTrip.antt =====
-- A number that was printed is read back.
use Prim.Native.Char.{Char, code}
use identra.Common.{
  ℕ, zero, suc, String, ◌==◌, eq_iff, ◌-◌, leb, ◌&&◌, false, ◌≡◌, refl, ap, ◌∙◌, true, false,
  Bool-cases, inl, inr, some, ◌+◌, ◌*◌, ◌/◌, ◌%◌, ◌<◌, ltb, arith,
}
use identra.Text.{is_empty, is_space, trim_left, trim_right, trim_space}
use identra.Text.Decimal.{
  int64_limit, int64_modulus, digit_char, digits_before, itoa, value_after, digits_value,
  atoi_natural,
}

abbrev power : ℕ → ℕ
power zero = 1
power (suc n) = 10 * power n

digit_code : (n : ℕ) → n < 10 → code (digit_char n) ≡ 48 + n
digit_code zero h = refl
digit_code (suc zero) h = refl
digit_code (suc (suc zero)) h = refl
digit_code (suc (suc (suc zero))) h = refl
digit_code (suc (suc (suc (suc zero)))) h = refl
digit_code (suc (suc (suc (suc (suc zero))))) h = refl
digit_code (suc (suc (suc (suc (suc (suc zero)))))) h = refl
digit_code (suc (suc (suc (suc (suc (suc (suc zero))))))) h = refl
digit_code (suc (suc (suc (suc (suc (suc (suc (suc zero)))))))) h = refl
digit_code (suc (suc (suc (suc (suc (suc (suc (suc (suc zero))))))))) h = refl
digit_code (suc (suc (suc (suc (suc (suc (suc (suc (suc (suc n)))))))))) h = absurd (ground arith)

is_digit : (n : ℕ) → n < 10 → (leb 48 (48 + n) && leb (48 + n) 57) ≡ true
is_digit n h = ground arith

minus_code : (n : ℕ) → 48 + n - 48 ≡ n
minus_code n = omega arith

value_after-digit :
    (v n : ℕ) (s : String)
    → n < 10
    → value_after v (String.◌∷◌ (digit_char n) s) ≡ value_after (v * 10 + n) s
unfolding value_after
value_after-digit v n s h = rw (digit_code n h, is_digit n h, minus_code n) refl

value-digits :
    (room n : ℕ) (s : String)
    → n < power room
    → value_after 0 (digits_before room n s) ≡ value_after n s
unfolding digits_before
value-digits zero n s h = ap (λ m. value_after m s) (ground arith)
value-digits (suc room) n s h = elim (Bool-cases (ltb n 10)) [
  | inl small ↦
      rw small (value_after-digit 0 n s (ground arith) ∙ ap (λ m. value_after m s) (ground arith))
  | inr large ↦ rw large (
      value-digits room (n / 10) _ (ground arith)
      ∙ value_after-digit (n / 10) (n % 10) s (ground arith)
      ∙ ap (λ m. value_after m s) (ground arith))
]

digits_before_some :
    (room n : ℕ) (s : String) → is_empty s ≡ false → is_empty (digits_before room n s) ≡ false
unfolding digits_before
digits_before_some zero n s h = h
digits_before_some (suc room) n s h = elim (Bool-cases (ltb n 10)) [
  | inl small ↦ rw small refl
  | inr large ↦ rw large (digits_before_some room (n / 10) _ refl)
]

digits_some : (room n : ℕ) → is_empty (digits_before (suc room) n "") ≡ false
unfolding digits_before
digits_some room n = elim (Bool-cases (ltb n 10)) [
  | inl small ↦ rw small refl
  | inr large ↦ rw large (digits_before_some room (n / 10) _ refl)
]

atoi_value :
    (s : String) (v : ℕ)
    → is_empty s ≡ false
    → value_after 0 s ≡ some v
    → v < int64_limit
    → atoi_natural s ≡ some v
unfolding atoi_natural digits_value value_after
atoi_value String.[] v some_text h small = absurd (ground arith)
atoi_value (String.◌∷◌ c s) v some_text h small = ground arith

-- A number below 2 ^ 63 is read back from the text that it prints as.
pub atoi_natural-itoa : (n : ℕ) → n < int64_limit → atoi_natural (itoa n) ≡ some n
unfolding itoa
atoi_natural-itoa n h =
    let same : n % int64_modulus ≡ n = ground arith in
    let under : ltb n int64_limit ≡ true = ground arith in
    rw (same, under)
      (atoi_value (digits_before 20 n "") n (digits_some 19 n)
        (value-digits 20 n "" (ground arith) ∙ unfold value_after in refl) h)

-- The text of a number below 2 ^ 63 is digits, whose value is the number.
pub itoa_digits :
    (n : ℕ) → n < int64_limit → (is_empty (itoa n) ≡ false) × (value_after 0 (itoa n) ≡ some n)
unfolding itoa
itoa_digits n h =
    let same : n % int64_modulus ≡ n = ground arith in
    let under : ltb n int64_limit ≡ true = ground arith in
    (
      rw (same, under) (digits_some 19 n),
      rw (same, under) (value-digits 20 n "" (ground arith) ∙ unfold value_after in refl),
    )

not_empty : (c : Char) (s : String) → (String.◌∷◌ c s == "") ≡ false
not_empty c s = elim (Bool-cases (String.◌∷◌ c s == "")) [
  | inr no_match ↦ no_match
  | inl match ↦
      let same : false ≡ true = ap is_empty ((eq_iff (String.◌∷◌ c s) "").0 match) in
      absurd (ground arith)
]

digit_is_no_space : (n : ℕ) → leb 48 n ≡ true → leb n 57 ≡ true → is_space n ≡ false
digit_is_no_space n low high = ground arith

trim_value :
    (s : String) (v : ℕ)
    → is_empty s ≡ false
    → value_after 0 s ≡ some v
    → (trim_space s == "") ≡ false
unfolding trim_space trim_left trim_right value_after
trim_value String.[] v some_text h = absurd (ground arith)
trim_value (String.◌∷◌ c s) v some_text h =
    let low : leb 48 (code c) ≡ true = ground arith in
    let high : leb (code c) 57 ≡ true = ground arith in
    rw (digit_is_no_space (code c) low high)
      (rw (digit_is_no_space (code c) low high) (not_empty c _))

pub trim_space-itoa : (n : ℕ) → n < int64_limit → (trim_space (itoa n) == "") ≡ false
unfolding itoa
trim_space-itoa n h =
    let same : n % int64_modulus ≡ n = ground arith in
    let under : ltb n int64_limit ≡ true = ground arith in
    rw (same, under)
      (trim_value (digits_before 20 n "") n (digits_some 19 n)
        (value-digits 20 n "" (ground arith) ∙ unfold value_after in refl))
