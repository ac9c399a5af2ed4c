-- ===== src/Common/Sort.antt =====
-- sort.Strings, by bytes.
use Prim.Native.String.{String, compare}
use text.Mathlib.Text.{is_le}
use mathlib.Core.Path.{◌≡◌}
use mathlib.Core.Logic.{◌⊎◌, ◌↔◌}
use mathlib.Core.List.{List, [], ◌∷◌}
use native.Mathlib.Omega.{arith}
use identra.Common.Tests.{if◌then◌else◌}
use identra.Common.Lists.{Any}

unfoldable pub insert_sorted : String → List String → List String
insert_sorted s [] = s ∷ []
insert_sorted s (t ∷ ts) = if is_le (compare s t) then s ∷ t ∷ ts else t ∷ insert_sorted s ts

unfoldable pub sort_strings : List String → List String
unfolding insert_sorted
sort_strings [] = []
sort_strings (s ∷ ss) = insert_sorted s (sort_strings ss)

abbrev pub Has : String → List String → Type 0
Has id ids = Any (λ x. x ≡ id) ids

pub Has-insert_sorted :
    (id s : String) (ts : List String) → Has id (insert_sorted s ts) ↔ ((s ≡ id) ⊎ Has id ts)
unfolding insert_sorted
Has-insert_sorted id s [] = (λ h. h, λ h. h)
Has-insert_sorted id s (t ∷ ts) = ground (arith, Has-insert_sorted id s ts)

pub Has-sort_strings : (id : String) (ss : List String) → Has id (sort_strings ss) ↔ Has id ss
unfolding sort_strings
Has-sort_strings id [] = (λ h. h, λ h. h)
Has-sort_strings id (s ∷ ss) =
    ground (arith, Has-insert_sorted id s (sort_strings ss), Has-sort_strings id ss)
