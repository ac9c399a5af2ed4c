-- ===== src/Text/Base64.antt =====
-- base64.RawStdEncoding of Go's encoding/base64, over bytes as numbers below 256.
use Prim.Native.Char.{Char, char, code}
use identra.Common.{
  ℕ, zero, suc, String, ◌≡◌, refl, ap, ◌∙◌, Bool, true, false, not, ◌&&◌, ◌||◌, Option, none, some,
  List, [], ◌∷◌, ◌+◌, ◌-◌, ◌*◌, ◌/◌, ◌%◌, ◌<◌, leb, eqb, if◌then◌else◌, arith, Bool-cases, inl, inr,
}
use identra.Text.Split.{lacks}

abbrev alphabet : String
alphabet = "ABCDEFGHIJKLMNOPQRSTUVWXYZabcdefghijklmnopqrstuvwxyz0123456789+/"

char_at : ℕ → String → Char
char_at n String.[] = char 47 tt
char_at zero (String.◌∷◌ c s) = c
char_at (suc n) (String.◌∷◌ c s) = char_at n s

abbrev sextet_char : ℕ → Char
sextet_char n = char_at n alphabet

-- the value of a code point of the alphabet
abbrev pub sextet_of : ℕ → Option ℕ
sextet_of c =
    if leb 65 c && leb c 90
    then some (c - 65)
    else if leb 97 c && leb c 122
    then some (c - 71)
    else if leb 48 c && leb c 57
    then some (c + 4)
    else if eqb c 43
    then some 62
    else if eqb c 47
    then some 63
    else none

unfoldable pub sextets : List ℕ → List ℕ
sextets [] = []
sextets (a ∷ []) = (a / 4) ∷ (a % 4 * 16) ∷ []
sextets (a ∷ b ∷ []) = (a / 4) ∷ (a % 4 * 16 + b / 16) ∷ (b % 16 * 4) ∷ []
sextets (a ∷ b ∷ c ∷ bytes) =
    (a / 4) ∷ (a % 4 * 16 + b / 16) ∷ (b % 16 * 4 + c / 64) ∷ (c % 64) ∷ sextets bytes

unfoldable pub spell : List ℕ → String
unfolding char_at
spell [] = String.[]
spell (n ∷ ns) = String.◌∷◌ (sextet_char n) (spell ns)

-- EncodeToString
unfoldable pub encode_base64 : List ℕ → String
unfolding sextets spell
encode_base64 bytes = spell (sextets bytes)

-- Line ends are skipped, and any other code point outside the alphabet is an error.
abbrev ends_line : ℕ → Bool
ends_line c = eqb c 10 || eqb c 13

abbrev read_char : ℕ → Option (List ℕ) → Option (List ℕ)
read_char c rest = if ends_line c then rest else elim (sextet_of c) [
  | none ↦ none
  | some n ↦ elim rest [ none ↦ none | some ns ↦ some (n ∷ ns) ]
]

unfoldable pub unspell : String → Option (List ℕ)
unspell String.[] = some []
unspell (String.◌∷◌ c s) = read_char (code c) (unspell s)

abbrev three_more : ℕ → ℕ → ℕ → ℕ → Option (List ℕ) → Option (List ℕ)
three_more x y z t none = none
three_more x y z t (some bytes) =
    some ((x * 4 + y / 16) ∷ (y % 16 * 16 + z / 4) ∷ (z % 4 * 64 + t) ∷ bytes)

-- Bits that are left over are not checked.
unfoldable pub bytes_of : List ℕ → Option (List ℕ)
bytes_of [] = some []
bytes_of (x ∷ []) = none
bytes_of (x ∷ y ∷ []) = some ((x * 4 + y / 16) ∷ [])
bytes_of (x ∷ y ∷ z ∷ []) = some ((x * 4 + y / 16) ∷ (y % 16 * 16 + z / 4) ∷ [])
bytes_of (x ∷ y ∷ z ∷ t ∷ more) = three_more x y z t (bytes_of more)

-- DecodeString
unfoldable pub decode_base64 : String → Option (List ℕ)
unfolding unspell bytes_of
decode_base64 s = elim (unspell s) [ none ↦ none | some ns ↦ bytes_of ns ]

-- Every number of the list is below the limit.
abbrev pub Below : ℕ → List ℕ → Type 0
Below m [] = Unit
Below m (n ∷ ns) = (n < m) × Below m ns

sextets-Below : (bytes : List ℕ) → Below 256 bytes → Below 64 (sextets bytes)
unfolding sextets
sextets-Below [] h = tt
sextets-Below (a ∷ []) h = (omega arith, (omega arith, tt))
sextets-Below (a ∷ b ∷ []) h = (omega arith, (omega arith, (omega arith, tt)))
sextets-Below (a ∷ b ∷ c ∷ bytes) (ha, (hb, (hc, h))) =
    (omega arith, (omega arith, (omega arith, (omega arith, sextets-Below bytes h))))

cons_eq : {m n : ℕ} {ms ns : List ℕ} → m ≡ n → ms ≡ ns → (m ∷ ms) ≡ (n ∷ ns)
cons_eq p q i = p i ∷ q i

bytes_of-sextets : (bytes : List ℕ) → Below 256 bytes → bytes_of (sextets bytes) ≡ some bytes
unfolding sextets bytes_of
bytes_of-sextets [] h = refl
bytes_of-sextets (a ∷ []) h = ap some (cons_eq (omega arith) refl)
bytes_of-sextets (a ∷ b ∷ []) h = ap some (cons_eq (omega arith) (cons_eq (omega arith) refl))
bytes_of-sextets (a ∷ b ∷ c ∷ bytes) (ha, (hb, (hc, h))) =
    ap (three_more _ _ _ _) (bytes_of-sextets bytes h)
    ∙ ap some (cons_eq (omega arith) (cons_eq (omega arith) (cons_eq (omega arith) refl)))

-- The character of a sextet is read back, and is no line end and no `$`.
is_value : ℕ → Option ℕ → Bool
is_value n none = false
is_value n (some v) = eqb v n

reads_back : ℕ → Bool
unfolding char_at is_value
reads_back n =
    let c = code (sextet_char n) in not (ends_line c) && not (eqb c 36) && is_value n (sextet_of c)

three_parts :
    (l d : Bool) (n : ℕ) (o : Option ℕ)
    → (not l && not d && is_value n o) ≡ true
    → (l ≡ false) × (d ≡ false) × (o ≡ some n)
unfolding is_value
three_parts l d n none h = absurd (ground arith)
three_parts l d n (some v) h = (ground arith, ground arith, ap some (ground arith))

all_read_back : ℕ → Bool
all_read_back zero = true
all_read_back (suc n) = reads_back n && all_read_back n

all_read_back_64 : all_read_back 64 ≡ true
unfolding all_read_back reads_back
all_read_back_64 = refl

read_back_below : (m n : ℕ) → all_read_back m ≡ true → n < m → reads_back n ≡ true
unfolding all_read_back
read_back_below zero n h small = absurd (omega arith)
read_back_below (suc m) n h small = elim (Bool-cases (eqb n m)) [
  | inl last ↦ ground arith
  | inr earlier ↦ read_back_below m n (ground arith) (ground arith)
]

reads_back_lem : (n : ℕ) → n < 64 → reads_back n ≡ true
reads_back_lem n h = read_back_below 64 n all_read_back_64 h

sextet_char_lem :
    (n : ℕ)
    → n < 64
    → (ends_line (code (sextet_char n)) ≡ false)
      × (eqb (code (sextet_char n)) 36 ≡ false)
      × (sextet_of (code (sextet_char n)) ≡ some n)
unfolding reads_back
sextet_char_lem n h = three_parts _ _ n _ (reads_back_lem n h)

read_sextet :
    (c n : ℕ) (ns : List ℕ)
    → ends_line c ≡ false
    → sextet_of c ≡ some n
    → read_char c (some ns) ≡ some (n ∷ ns)
read_sextet c n ns no_end is = rw (no_end, is) refl

unspell-spell : (ns : List ℕ) → Below 64 ns → unspell (spell ns) ≡ some ns
unfolding unspell spell
unspell-spell [] h = refl
unspell-spell (n ∷ ns) (small, h) =
    let (no_end, _, is) = sextet_char_lem n small in
    ap (read_char (code (sextet_char n))) (unspell-spell ns h)
    ∙ read_sextet (code (sextet_char n)) n ns no_end is

spell-lacks : (ns : List ℕ) → Below 64 ns → lacks 36 (spell ns) ≡ true
unfolding lacks spell
spell-lacks [] h = refl
spell-lacks (n ∷ ns) (small, h) =
    let (_, no_dollar, _) = sextet_char_lem n small in rw (no_dollar, spell-lacks ns h) refl

pub encode_base64-lacks : (bytes : List ℕ) → Below 256 bytes → lacks 36 (encode_base64 bytes) ≡ true
unfolding encode_base64
encode_base64-lacks bytes h = spell-lacks (sextets bytes) (sextets-Below bytes h)

-- Bytes that were encoded are decoded to themselves.
pub decode_base64-encode_base64 :
    (bytes : List ℕ) → Below 256 bytes → decode_base64 (encode_base64 bytes) ≡ some bytes
unfolding decode_base64 encode_base64
decode_base64-encode_base64 bytes h =
    ap (λ o. elim o [ none ↦ none | some ns ↦ bytes_of ns ])
      (unspell-spell (sextets bytes) (sextets-Below bytes h))
    ∙ bytes_of-sextets bytes h
