-- ===== src/Text/Scan.antt =====
-- What the program uses of fmt.Sscanf: literal text and the verb `%d`, for a signed number whose
-- value is not read and for an unsigned number of so many bits.
use Prim.Native.Char.{Char, code}
use Prim.Native.String.append
use Prim.Native.String
use identra.Common.{
  ℕ, suc, String, ◌≡◌, refl, ap, ◌∙◌, Bool, true, false, ◌&&◌, Option, none, some, ◌+◌, ◌-◌, ◌*◌,
  ◌<◌, ltb, leb, eqb, if◌then◌else◌, arith, Bool-cases, lt→ltb, inl, inr,
}
use identra.Text.{is_space, is_empty}
use identra.Text.Decimal.{int64_limit, value_after}
use identra.Text.Split.{lacks}

-- What is left after a literal text of the format.
unfoldable pub after_literal : String → String → Option String
after_literal String.[] s = some s
after_literal (String.◌∷◌ d t) String.[] = none
after_literal (String.◌∷◌ d t) (String.◌∷◌ c s) =
    let rest = after_literal t s in if eqb (code c) (code d) then rest else none

-- Spaces before a number are skipped; a line feed is an error.
unfoldable pub skip_space : String → Option String
skip_space String.[] = some String.[]
skip_space (String.◌∷◌ c s) =
    let rest = skip_space s in
    if eqb (code c) 10 then none else if is_space (code c) then rest else some (String.◌∷◌ c s)

abbrev is_digit : Char → Bool
is_digit c = leb 48 (code c) && leb (code c) 57

-- The value of the digits at the front, after a value, and what is left.
unfoldable pub take_digits : ℕ → String → ℕ × String
take_digits v String.[] = (v, String.[])
take_digits v (String.◌∷◌ c s) =
    let more = take_digits (v * 10 + (code c - 48)) s in
    if is_digit c then more else (v, String.◌∷◌ c s)

-- A number below the limit, of one digit or more.
unfoldable pub scan_number : ℕ → String → Option (ℕ × String)
scan_number limit String.[] = none
scan_number limit (String.◌∷◌ c s) =
    let number = take_digits 0 (String.◌∷◌ c s) in
    if is_digit c && ltb number.0 limit then some number else none

-- `%d` into an unsigned variable
unfoldable pub scan_unsigned : ℕ → String → Option (ℕ × String)
scan_unsigned limit s = elim (skip_space s) [ none ↦ none | some t ↦ scan_number limit t ]

abbrev after_sign : String → Option (ℕ × String)
after_sign String.[] = none
after_sign (String.◌∷◌ c s) =
    if eqb (code c) b'-'
    then scan_number (suc int64_limit) s
    else if eqb (code c) b'+'
    then scan_number int64_limit s
    else scan_number int64_limit (String.◌∷◌ c s)

-- `%d` into a signed variable, as its magnitude
unfoldable pub scan_signed : String → Option (ℕ × String)
scan_signed s = elim (skip_space s) [ none ↦ none | some t ↦ after_sign t ]

pub after_literal_append : (t s : String) → after_literal t (String.◌++◌ t s) ≡ some s
unfolding after_literal
after_literal_append String.[] s = ap some (append.nil s)
after_literal_append (String.◌∷◌ d t) s =
    ap (after_literal (String.◌∷◌ d t)) (append.cons d t s)
    ∙ ground (arith, after_literal_append t s)

take_digits_value : (v n : ℕ) (s : String) → value_after v s ≡ some n → take_digits v s ≡ (n, "")
unfolding take_digits value_after
take_digits_value v n String.[] h = ground arith
take_digits_value v n (String.◌∷◌ c s) h = elim (Bool-cases (is_digit c)) [
  | inl digit ↦ rw digit (take_digits_value (v * 10 + (code c - 48)) n s (rw digit at h))
  | inr other ↦ absurd (ground arith)
]

first_digit :
    (v n : ℕ) (c : Char) (s : String) → value_after v (String.◌∷◌ c s) ≡ some n → is_digit c ≡ true
unfolding value_after
first_digit v n c s h = ground arith

-- A digit is neither white space nor a sign.
digit_facts :
    (n : ℕ)
    → (leb 48 n && leb n 57) ≡ true
    → (eqb n 10 ≡ false) × (is_space n ≡ false) × (eqb n 45 ≡ false) × (eqb n 43 ≡ false)
digit_facts n h = (ground arith, ground arith, ground arith, ground arith)

scan_number_value :
    (limit n : ℕ) (c : Char) (s : String)
    → value_after 0 (String.◌∷◌ c s) ≡ some n
    → n < limit
    → scan_number limit (String.◌∷◌ c s) ≡ some (n, "")
unfolding scan_number
scan_number_value limit n c s h small =
    rw (take_digits_value 0 n (String.◌∷◌ c s) h, first_digit 0 n c s h, lt→ltb n limit small) refl

skip_no_space :
    (c : Char) (s : String)
    → eqb (code c) 10 ≡ false
    → is_space (code c) ≡ false
    → skip_space (String.◌∷◌ c s) ≡ some (String.◌∷◌ c s)
unfolding skip_space
skip_no_space c s no_feed no_space = rw (no_feed, no_space) refl

after_no_sign :
    (c : Char) (s : String)
    → eqb (code c) 45 ≡ false
    → eqb (code c) 43 ≡ false
    → after_sign (String.◌∷◌ c s) ≡ scan_number int64_limit (String.◌∷◌ c s)
after_no_sign c s no_minus no_plus = rw (no_minus, no_plus) refl

-- Digits alone are scanned to the end.
pub scan_signed_value :
    (n : ℕ) (s : String)
    → is_empty s ≡ false
    → value_after 0 s ≡ some n
    → n < int64_limit
    → scan_signed s ≡ some (n, "")
unfolding scan_signed
scan_signed_value n String.[] some_text h small = absurd (ground arith)
scan_signed_value n (String.◌∷◌ c s) some_text h small =
    let (no_feed, no_space, no_minus, no_plus) = digit_facts (code c) (first_digit 0 n c s h) in
    ap (λ o. elim o [ none ↦ none | some t ↦ after_sign t ]) (skip_no_space c s no_feed no_space)
    ∙ after_no_sign c s no_minus no_plus
    ∙ scan_number_value int64_limit n c s h small

-- A number has no code point but digits.
pub lacks_value : (b v n : ℕ) (s : String) → b < 48 → value_after v s ≡ some n → lacks b s ≡ true
unfolding lacks value_after
lacks_value b v n String.[] low h = refl
lacks_value b v n (String.◌∷◌ c s) low h = elim (Bool-cases (is_digit c)) [
  | inl digit ↦
      let more = lacks_value b (v * 10 + (code c - 48)) n s low (rw digit at h) in ground arith
  | inr other ↦ absurd (ground arith)
]
