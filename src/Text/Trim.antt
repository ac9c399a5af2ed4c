-- ===== src/Text/Trim.antt =====
-- Trimming.
use identra.Common.{String, ◌≡◌, refl, arith}
use identra.Text.{trim_left, trim_right, trim_space}

trim_right-trim_right : (s : String) → trim_right (trim_right s) ≡ trim_right s
unfolding trim_right
trim_right-trim_right String.[] = refl
trim_right-trim_right (String.◌∷◌ c s) = ground (arith, trim_right-trim_right s)

trim_left_between : (s : String) → trim_left (trim_right (trim_left s)) ≡ trim_right (trim_left s)
unfolding trim_left trim_right
trim_left_between String.[] = refl
trim_left_between (String.◌∷◌ c s) = ground (arith, trim_left_between s)

-- Trimming a second time changes nothing.
pub trim_space_idempotent : (s : String) → trim_space (trim_space s) ≡ trim_space s
unfolding trim_space
trim_space_idempotent s = rw trim_left_between (trim_right-trim_right (trim_left s))
