-- ===== src/Text/Affixes.antt =====
-- Prefixes and the wildcard `*` at the end of a text.
use Prim.Native.Char.{Char, code}
use Prim.Native.String.append
use Prim.Native.String
use text.Mathlib.TextEquality.{Char-path}
use identra.Common.{
  String, ◌≡◌, refl, sym, ap, ◌∙◌, ◌↔◌, Bool, true, false, eqb, ◌&&◌, if◌then◌else◌, arith,
}
use identra.Text.{is_empty, ends_in_star, without_star, has_prefix}

-- What is left of a text after a prefix.
abbrev pub Continues : String → String → Type 0
Continues t s = (rest : String) × (String.◌++◌ t rest ≡ s)

cons_path : {c d : Char} {s t : String} → c ≡ d → s ≡ t → String.◌∷◌ c s ≡ String.◌∷◌ d t
cons_path p q i = String.◌∷◌ (p i) (q i)

and_true : (a b : Bool) → (a && b) ≡ true → (a ≡ true) × (b ≡ true)
and_true a b h = (ground arith, ground arith)

eqb-true : (m n : _) → eqb m n ≡ true → m ≡ n
eqb-true m n h = ground arith

eqb_refl : (n : _) → eqb n n ≡ true
eqb_refl n = ground arith

has_prefix_to : (s t : String) → has_prefix s t ≡ true → Continues t s
unfolding has_prefix
has_prefix_to s String.[] h = (s, append.nil s)
has_prefix_to String.[] (String.◌∷◌ d t) h = absurd (ground arith)
has_prefix_to (String.◌∷◌ c s) (String.◌∷◌ d t) h =
    let (same, more) = and_true _ _ h in
    let (rest, is) = has_prefix_to s t more in
    (rest, append.cons d t rest ∙ cons_path (sym (Char-path c d (eqb-true _ _ same))) is)

has_prefix_append : (t rest : String) → has_prefix (String.◌++◌ t rest) t ≡ true
unfolding has_prefix
has_prefix_append String.[] rest = refl
has_prefix_append (String.◌∷◌ d t) rest =
    ap (λ u. has_prefix u (String.◌∷◌ d t)) (append.cons d t rest)
    ∙ ground (arith, has_prefix_append t rest)

-- `has_prefix` holds exactly of the texts that start with the other.
pub has_prefix_iff : (s t : String) → (has_prefix s t ≡ true) ↔ Continues t s
has_prefix_iff s t =
    (has_prefix_to s t, λ h. ap (λ u. has_prefix u t) (sym h.1) ∙ has_prefix_append t h.0)

star_char : (c : Char) → eqb (code c) 42 ≡ true → String.◌∷◌ c String.[] ≡ "*"
star_char c h = cons_path (Char-path c _ (eqb-true _ _ h)) refl

pub star_last : (s : String) → ends_in_star s ≡ true → String.◌++◌ (without_star s) "*" ≡ s
unfolding ends_in_star without_star
star_last String.[] h = absurd (ground arith)
star_last (String.◌∷◌ c String.[]) h =
    ap (λ b. String.◌++◌ (if b then String.[] else String.◌∷◌ c String.[]) "*") h
    ∙ append.nil "*"
    ∙ sym (star_char c h)
star_last (String.◌∷◌ c (String.◌∷◌ d s)) h =
    append.cons c _ "*" ∙ cons_path refl (star_last (String.◌∷◌ d s) h)

is_empty_star : (p : String) → is_empty (String.◌++◌ p "*") ≡ false
is_empty_star String.[] = refl
is_empty_star (String.◌∷◌ c p) = ap is_empty (append.cons c p "*")

pub ends_in_star_append : (p : String) → ends_in_star (String.◌++◌ p "*") ≡ true
unfolding ends_in_star
ends_in_star_append String.[] = refl
ends_in_star_append (String.◌∷◌ c p) =
    ap ends_in_star (append.cons c p "*") ∙ ground (arith, is_empty_star p, ends_in_star_append p)

pub without_star_append : (p : String) → without_star (String.◌++◌ p "*") ≡ p
unfolding without_star
without_star_append String.[] = refl
without_star_append (String.◌∷◌ c p) =
    ap without_star (append.cons c p "*")
    ∙ ap
        (λ b.
          if b && eqb (code c) b'*'
          then String.[]
          else String.◌∷◌ c (without_star (String.◌++◌ p "*")))
        (is_empty_star p)
    ∙ cons_path refl (without_star_append p)
