-- ===== src/Text/Decimal.antt =====
-- What the program uses of Go's `strconv` for page tokens, on numbers of 64 bits.
pub mod RoundTrip
use Prim.Native.Char.{Char, char, code}
use Prim.Native.String
use identra.Common.{
  ℕ, zero, suc, String, Bool, true, false, ◌&&◌, ◌||◌, Option, none, some, ◌+◌, ◌-◌, ◌*◌, ◌/◌, ◌%◌,
  ltb, leb, eqb, if◌then◌else◌,
}
use identra.Text.{is_empty}

-- 2 ^ 63 and 2 ^ 64
abbrev pub int64_limit : ℕ
int64_limit = 9223372036854775808

abbrev pub int64_modulus : ℕ
int64_modulus = 18446744073709551616

abbrev pub digit_char : ℕ → Char
digit_char zero = char 48 tt
digit_char (suc zero) = char 49 tt
digit_char (suc (suc zero)) = char 50 tt
digit_char (suc (suc (suc zero))) = char 51 tt
digit_char (suc (suc (suc (suc zero)))) = char 52 tt
digit_char (suc (suc (suc (suc (suc zero))))) = char 53 tt
digit_char (suc (suc (suc (suc (suc (suc zero)))))) = char 54 tt
digit_char (suc (suc (suc (suc (suc (suc (suc zero))))))) = char 55 tt
digit_char (suc (suc (suc (suc (suc (suc (suc (suc zero)))))))) = char 56 tt
digit_char (suc (suc (suc (suc (suc (suc (suc (suc (suc n))))))))) = char 57 tt

-- The digits of a number in front of a text, at most so many.
unfoldable pub digits_before : ℕ → ℕ → String → String
digits_before zero n s = s
digits_before (suc room) n s =
    let rest = digits_before room (n / 10) (String.◌∷◌ (digit_char (n % 10)) s) in
    if ltb n 10 then String.◌∷◌ (digit_char n) s else rest

-- strconv.Itoa of a sum, which wraps around; twenty digits are enough below 2 ^ 64.
unfoldable pub itoa : ℕ → String
itoa n =
    let m = n % int64_modulus in
    if ltb m int64_limit
    then digits_before 20 m ""
    else String.◌++◌ "-" (digits_before 20 (int64_modulus - m) "")

-- The value of digits after a value.
unfoldable pub value_after : ℕ → String → Option ℕ
value_after v String.[] = some v
value_after v (String.◌∷◌ c s) =
    let rest = value_after (v * 10 + (code c - 48)) s in
    if leb 48 (code c) && leb (code c) 57 then rest else none

unfoldable pub digits_value : String → Option ℕ
digits_value s = if is_empty s then none else value_after 0 s

abbrev pub below : ℕ → Option ℕ → Option ℕ
below limit none = none
below limit (some v) = if ltb v limit then some v else none

-- strconv.Atoi, where its result is not negative; `none` where it errs or is negative.
unfoldable pub atoi_natural : String → Option ℕ
atoi_natural String.[] = none
atoi_natural (String.◌∷◌ c s) =
    if eqb (code c) b'-'
    then below 1 (digits_value s)
    else if eqb (code c) b'+'
    then below int64_limit (digits_value s)
    else below int64_limit (digits_value (String.◌∷◌ c s))
