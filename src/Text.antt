-- ===== src/Text.antt =====
-- What the program uses of Go's `strings`, over texts as sequences of code points: gRPC refuses a
-- string that is not UTF-8.
pub mod Trim
pub mod Affixes
pub mod Decimal
pub mod Base64
pub mod Scan
pub mod Split
use Prim.Native.Char.{Char, code}
use Prim.Native.String
use identra.Common.{
  ℕ, String, Bool, true, false, ◌&&◌, ◌||◌, List, [], ◌∷◌, leb, eqb, if◌then◌else◌, ◌+◌, ◌==◌,
}

-- unicode.IsSpace
abbrev pub is_space : ℕ → Bool
is_space c =
    (leb 0x9 c && leb c 0xd)
    || eqb c 0x20
    || eqb c 0x85
    || eqb c 0xa0
    || eqb c 0x1680
    || (leb 0x2000 c && leb c 0x200a)
    || eqb c 0x2028
    || eqb c 0x2029
    || eqb c 0x202f
    || eqb c 0x205f
    || eqb c 0x3000

abbrev pub lower_ascii : ℕ → ℕ
lower_ascii c = if leb 0x41 c && leb c 0x5a then c + 0x20 else c

abbrev pub is_empty : String → Bool
is_empty String.[] = true
is_empty (String.◌∷◌ c s) = false

unfoldable pub trim_left : String → String
trim_left String.[] = String.[]
trim_left (String.◌∷◌ c s) = if is_space (code c) then trim_left s else String.◌∷◌ c s

unfoldable pub trim_right : String → String
trim_right String.[] = String.[]
trim_right (String.◌∷◌ c s) =
    let rest = trim_right s in
    if is_space (code c) && is_empty rest then String.[] else String.◌∷◌ c rest

-- strings.TrimSpace
unfoldable pub trim_space : String → String
unfolding trim_left trim_right
trim_space s = trim_right (trim_left s)

-- The text before the first code point `b`; the whole text, if there is none.
unfoldable pub before : ℕ → String → String
before b String.[] = String.[]
before b (String.◌∷◌ c s) = if eqb (code c) b then String.[] else String.◌∷◌ c (before b s)

abbrev push : Char → Bool → List String → List String
push c true parts = "" ∷ parts
push c false [] = []
push c false (part ∷ parts) = String.◌∷◌ c part ∷ parts

-- strings.Split with a separator of one code point
unfoldable pub split : ℕ → String → List String
split b String.[] = "" ∷ []
split b (String.◌∷◌ c s) = push c (eqb (code c) b) (split b s)

-- The words of a text: `drop_empty` of a split at white space.
words_from : Bool → String → List String
words_from started String.[] = if started then "" ∷ [] else []
words_from started (String.◌∷◌ c s) =
    let after = words_from false s in
    let inside = words_from true s in
    if is_space (code c) then (if started then "" ∷ after else after) else push c false inside

-- strings.Fields
unfoldable pub fields : String → List String
unfolding words_from
fields s = words_from false s

-- strings.EqualFold against a text whose letters have no other case than `A` to `Z`, which holds of
-- all of ASCII but `k` and `s`.
unfoldable pub equal_fold : String → String → Bool
equal_fold String.[] String.[] = true
equal_fold (String.◌∷◌ c s) (String.◌∷◌ d t) =
    eqb (lower_ascii (code c)) (lower_ascii (code d)) && equal_fold s t
equal_fold _ _ = false

module _ (lower_rune : Char → Char) where
  -- strings.ToLower, for a table of the lower-case form of each code point
  unfoldable pub to_lower : String → String
  to_lower String.[] = String.[]
  to_lower (String.◌∷◌ c s) = String.◌∷◌ (lower_rune c) (to_lower s)

-- strings.HasSuffix(s, "*")
unfoldable pub ends_in_star : String → Bool
ends_in_star String.[] = false
ends_in_star (String.◌∷◌ c s) = if is_empty s then eqb (code c) b'*' else ends_in_star s

-- strings.TrimSuffix(s, "*")
unfoldable pub without_star : String → String
without_star String.[] = String.[]
without_star (String.◌∷◌ c s) =
    if is_empty s && eqb (code c) b'*' then String.[] else String.◌∷◌ c (without_star s)

-- strings.HasPrefix
unfoldable pub has_prefix : String → String → Bool
has_prefix s String.[] = true
has_prefix String.[] (String.◌∷◌ d t) = false
has_prefix (String.◌∷◌ c s) (String.◌∷◌ d t) = eqb (code c) (code d) && has_prefix s t

-- strings.Contains
unfoldable pub has_text : String → String → Bool
unfolding has_prefix
has_text String.[] t = is_empty t
has_text (String.◌∷◌ c s) t = has_prefix (String.◌∷◌ c s) t || has_text s t

-- strings.HasSuffix
unfoldable pub has_suffix : String → String → Bool
has_suffix String.[] t = is_empty t
has_suffix (String.◌∷◌ c s) t = (String.◌∷◌ c s == t) || has_suffix s t
