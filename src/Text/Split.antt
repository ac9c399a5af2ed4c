-- ===== src/Text/Split.antt =====
-- What strings.Split returns of texts that were joined with the separator.
use Prim.Native.Char.{Char, code}
use Prim.Native.String.append
use Prim.Native.String
use identra.Common.{
  ℕ, String, ◌≡◌, refl, ap, ◌∙◌, Bool, true, false, not, ◌&&◌, eqb, [], ◌∷◌, arith,
}
use identra.Text.{split}

-- No code point of the text is `b`.
unfoldable pub lacks : ℕ → String → Bool
lacks b String.[] = true
lacks b (String.◌∷◌ c s) = not (eqb (code c) b) && lacks b s

part_lacks : (a b : Bool) → (not a && b) ≡ true → (a ≡ false) × (b ≡ true)
part_lacks a b h = (ground arith, ground arith)

eqb_refl : (n : ℕ) → eqb n n ≡ true
eqb_refl n = ground arith

pub lacks_append :
    (b : ℕ) (s t : String) → lacks b s ≡ true → lacks b t ≡ true → lacks b (String.◌++◌ s t) ≡ true
unfolding lacks
lacks_append b String.[] t h k = ap (lacks b) (append.nil t) ∙ k
lacks_append b (String.◌∷◌ c s) t h k =
    let (other, more) = part_lacks (eqb (code c) b) (lacks b s) h in
    ap (lacks b) (append.cons c s t) ∙ rw (other, lacks_append b s t more k) refl

-- A text without the separator is the one part.
pub split-lacks : (b : ℕ) (s : String) → lacks b s ≡ true → split b s ≡ s ∷ []
unfolding lacks split
split-lacks b String.[] h = refl
split-lacks b (String.◌∷◌ c s) h =
    let (other, more) = part_lacks (eqb (code c) b) (lacks b s) h in
    rw (other, split-lacks b s more) refl

-- A text without the separator, before one, is the first part.
pub split_append :
    (d : Char) (s t : String)
    → lacks (code d) s ≡ true
    → split (code d) (String.◌++◌ s (String.◌∷◌ d t)) ≡ s ∷ split (code d) t
unfolding lacks split
split_append d String.[] t h =
    ap (split (code d)) (append.nil (String.◌∷◌ d t)) ∙ rw (eqb_refl (code d)) refl
split_append d (String.◌∷◌ c s) t h =
    let (other, more) = part_lacks (eqb (code c) (code d)) (lacks (code d) s) h in
    ap (split (code d)) (append.cons c s (String.◌∷◌ d t))
    ∙ rw (other, split_append d s t more) refl
