-- ===== src/Common/Order.antt =====
-- Python's order of texts, by code points, and `sorted`.
use Prim.Native.Char.{code}
use Prim.Native.String.{String}
use mathlib.Core.Path.{◌≡◌, refl}
use mathlib.Core.Bool.{Bool, true, false, ◌&&◌, ◌||◌}
use mathlib.Core.List.{List, [], ◌∷◌}
use native.Mathlib.Omega.{arith}
use text.Mathlib.Text.{◌==◌}
use refactor_agent.Common.Tests.{ltb, eqb, if◌then◌else◌}
use refactor_agent.Common.Lists.{contains}

-- `s <= t`
unfoldable text_leb : String → String → Bool
text_leb String.[] t = true
text_leb (String.◌∷◌ c s) String.[] = false
text_leb (String.◌∷◌ c s) (String.◌∷◌ d t) =
    let rest = text_leb s t in ltb (code c) (code d) || (eqb (code c) (code d) && rest)

unfoldable insert_text : String → List String → List String
unfolding text_leb
insert_text x [] = x ∷ []
insert_text x (y ∷ ys) = if text_leb x y then x ∷ y ∷ ys else y ∷ insert_text x ys

-- `sorted(xs)`
unfoldable pub sorted : List String → List String
unfolding insert_text
sorted [] = []
sorted (x ∷ xs) = insert_text x (sorted xs)

contains-insert_text :
    (k x : String) (ys : List String) → contains k (insert_text x ys) ≡ (x == k || contains k ys)
unfolding contains insert_text
contains-insert_text k x [] = refl
contains-insert_text k x (y ∷ ys) = ground (arith, contains-insert_text k x ys)

pub contains-sorted : (k : String) (xs : List String) → contains k (sorted xs) ≡ contains k xs
unfolding contains sorted
contains-sorted k [] = refl
contains-sorted k (x ∷ xs) =
    ground (arith, contains-insert_text k x (sorted xs), contains-sorted k xs)
