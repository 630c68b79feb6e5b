-- ===== src/Floats/Integers.antt =====
-- Operations to evaluate the tools with: integers, with a division that rounds towards zero and a
-- large number for infinity.
use lca.Prelude.{ℤ, pos, negsuc, ◌+ℤ◌, ◌-ℤ◌, ◌*ℤ◌, ltb_ℤ, ◌==ℤ◌, ◌/◌, suc, sub_ℕ}
use lca.Floats.{Floats}

abbrev quotient : ℤ → ℤ → ℤ
quotient (pos a) (pos b) = pos (a / b)
quotient (pos a) (negsuc b) = sub_ℕ 0 (a / suc b)
quotient (negsuc a) (pos b) = sub_ℕ 0 (suc a / b)
quotient (negsuc a) (negsuc b) = pos (suc a / suc b)

abbrev magnitude : ℤ → ℤ
magnitude (pos n) = pos n
magnitude (negsuc n) = pos (suc n)

abbrev pub integers : Floats
integers = record {
  Float = ℤ;
  of_int = λ n. n;
  add = λ a b. a +ℤ b;
  sub = λ a b. a -ℤ b;
  mul = λ a b. a *ℤ b;
  div = quotient;
  sqrt = λ a. a;
  abs = magnitude;
  inf = pos 1_000_000_000_000;
  lt = ltb_ℤ;
  eq = λ a b. a ==ℤ b;
}
