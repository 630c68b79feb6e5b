-- ===== src/Fabrication/Entries.antt =====
-- Short forms for the JSON data of the two manifests under fabrication/.
use Prim.Native.String.{String}
use lca.Prelude.{ℕ, ℤ, pos, Bool, List}
use lca.Text.{Text, codes}
use lca.Json.{Json, bool, int, string, array, items_of}

abbrev pub list : List (Json ℤ) → Json ℤ
list xs = array (items_of xs)

abbrev pub text : String → String → Text × Json ℤ
text k s = (codes k, string (codes s))

abbrev pub number : String → ℕ → Text × Json ℤ
number k n = (codes k, int (pos n))

abbrev pub flag : String → Bool → Text × Json ℤ
flag k b = (codes k, bool b)
