-- ===== src/Memhex/Examples.antt =====
-- Tests of the memory image, and the theorem at a short binary.
use lca.Prelude.{ℕ, ◌-◌, ◌%◌, ◌≡◌, refl, List, [], ◌∷◌, ◌++◌, length, replicate, arith}
use lca.Text.{codes}
use lca.Memhex.Defs.{padded, words, hex_digits, lines_of, memhex}
use lca.Memhex.RoundTrip.{read_memhex, read_memhex-memhex}

abbrev five_bytes : List ℕ
five_bytes = 19 ∷ 5 ∷ 160 ∷ 254 ∷ 7 ∷ []

memhex_five : memhex five_bytes ≡ codes "fea00513" ++ 10 ∷ codes "00000007" ++ 10 ∷ []
unfolding memhex padded words lines_of hex_digits
memhex_five = refl

read_memhex-memhex_example :
    (read_memhex 0 (memhex five_bytes)
      ≡ five_bytes ++ replicate ((4 - length five_bytes % 4) % 4) 0)
    × (length (padded five_bytes) % 4 ≡ 0)
read_memhex-memhex_example =
    read_memhex-memhex five_bytes
      (omega arith, (omega arith, (omega arith, (omega arith, (omega arith, tt)))))
