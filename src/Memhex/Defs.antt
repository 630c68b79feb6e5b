-- ===== src/Memhex/Defs.antt =====
-- tools/bin_to_memhex.py, from the bytes of the input to the text of the output.
use lca.Prelude.{
  ℕ, zero, suc, ◌+◌, ◌-◌, ◌*◌, ◌/◌, ◌%◌, ◌^◌, ltb, if◌then◌else◌, List, [], ◌∷◌, ◌++◌, length,
  replicate,
}
use lca.Text.{Text}

-- `data + bytes(-len(data) % 4)`
unfoldable pub padded : List ℕ → List ℕ
padded bytes = bytes ++ replicate ((4 - length bytes % 4) % 4) 0

-- `int.from_bytes(…, "little")`
abbrev pub from_bytes : List ℕ → ℕ
from_bytes [] = 0
from_bytes (b ∷ bytes) = b + 256 * from_bytes bytes

-- The words at the offsets 0, 4, 8, …; the last slice may be short.
unfoldable pub words : List ℕ → List ℕ
words [] = []
words (a ∷ []) = from_bytes (a ∷ []) ∷ []
words (a ∷ b ∷ []) = from_bytes (a ∷ b ∷ []) ∷ []
words (a ∷ b ∷ c ∷ []) = from_bytes (a ∷ b ∷ c ∷ []) ∷ []
words (a ∷ b ∷ c ∷ d ∷ rest) = from_bytes (a ∷ b ∷ c ∷ d ∷ []) ∷ words rest

abbrev pub hex_digit : ℕ → ℕ
hex_digit d = if ltb d 10 then b'0' + d else b'a' + (d - 10)

-- `f"{word:08x}"` of a word below 2 ** 32: its digits, from the highest.
unfoldable pub hex_digits : ℕ → ℕ → Text
hex_digits zero n = []
hex_digits (suc k) n = hex_digit (n / 16 ^ k % 16) ∷ hex_digits k n

abbrev pub line_feed : ℕ
line_feed = 10

unfoldable pub lines_of : List ℕ → Text
unfolding hex_digits
lines_of [] = []
lines_of (w ∷ ws) = hex_digits 8 w ++ line_feed ∷ lines_of ws

unfoldable pub memhex : List ℕ → Text
unfolding padded words lines_of
memhex bytes = lines_of (words (padded bytes))
