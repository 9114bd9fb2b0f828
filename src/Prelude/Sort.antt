-- ===== src/Prelude/Sort.antt =====
-- Python's `sorted` of a list, by a Boolean order.
pub mod Laws
use northgate_rmm.Prelude.Tests.{if◌then◌else◌, ◌==◌, string_eq}
use northgate_rmm.Prelude.Text.{str_leb}
use Prim.Native.String.{String}
use mathlib.Core.Bool.{Bool}
use mathlib.Core.List.{List, [], ◌∷◌}

-- `p <= q` of two pairs of texts
abbrev pub pair_leb : String × String → String × String → Bool
pair_leb (a, b) (c, d) = if a == c then str_leb b d else str_leb a c

module _ {A : Type 0} (le : A → A → Bool) where
  -- Insertion before the first item that is not smaller: `sort_by` keeps equal items in order.
  unfoldable pub insert_by : A → List A → List A
  insert_by x [] = x ∷ []
  insert_by x (y ∷ ys) = let rest = insert_by x ys in if le x y then x ∷ y ∷ ys else y ∷ rest

  unfoldable pub sort_by : List A → List A
  unfolding insert_by
  sort_by [] = []
  sort_by (x ∷ xs) = insert_by x (sort_by xs)
