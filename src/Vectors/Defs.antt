-- ===== src/Vectors/Defs.antt =====
-- tools/gen_vectors.py: the regression corpus of the butterfly. `draw n m` is the value of the n-th
-- call of `rng.randrange`, with the bound `m`.
use lca.Prelude.{
  ℕ, zero, suc, ◌+◌, ◌-◌, ◌*◌, ◌/◌, ◌%◌, ◌^◌, leb, ◌==◌, ◌||◌, Bool, false, if◌then◌else◌, List, [],
  ◌∷◌, ◌++◌, ℤ, pos, Result, ok, ◌>>=◌, length,
}
use lca.Modarith.{Error, kem_q, dsa_q, word_bits, ButterflyResult, butterfly}

abbrev pub random_cases_per_modulus : ℕ
random_cases_per_modulus = 128

abbrev pub word_max : ℕ
word_max = 2 ^ word_bits - 1

abbrev pub invalid_deltas : List ℕ
invalid_deltas = 0 ∷ 1 ∷ 2 ∷ 7 ∷ 31 ∷ 255 ∷ 2048 ∷ []

pub record Vector : Type 0 where
  pub case_id : ℕ
  pub modulus_id : ℕ
  pub a : ℕ
  pub b : ℕ
  pub twiddle : ℕ
  pub expected_a : ℤ
  pub expected_b : ℤ
  pub expected_fault : ℕ
  pub hold_cycles : ℕ
  pub expected_latency : ℕ

-- The vector of a case that the butterfly answers.
abbrev pub valid_vector : ℕ → ℕ → ℕ → ℕ → ℕ → ButterflyResult → Vector
valid_vector case_id modulus_id a b twiddle result = record {
  case_id = case_id;
  modulus_id = modulus_id;
  a = a;
  b = b;
  twiddle = twiddle;
  expected_a = result.out_a;
  expected_b = result.out_b;
  expected_fault = 0;
  hold_cycles = case_id * 7 % 4;
  expected_latency = word_bits;
}

unfoldable pub valid_case : ℕ → ℕ → ℕ → ℕ → ℕ → ℕ → Result Error Vector
valid_case case_id modulus_id modulus a b twiddle = do
  result ← butterfly (pos a) (pos b) (pos twiddle) (pos modulus)
  ok (valid_vector case_id modulus_id a b twiddle result)

abbrev pub invalid_case : ℕ → ℕ → ℕ → ℕ → ℕ → Vector
invalid_case case_id modulus_id a b twiddle = record {
  case_id = case_id;
  modulus_id = modulus_id;
  a = a;
  b = b;
  twiddle = twiddle;
  expected_a = pos 0;
  expected_b = pos 0;
  expected_fault = 1;
  hold_cycles = case_id % 3 + 1;
  expected_latency = 0;
}

-- `[modulus + delta for delta in deltas if modulus + delta <= WORD_MAX]`
abbrev pub shifted : ℕ → List ℕ → List ℕ
shifted modulus [] = []
shifted modulus (delta ∷ deltas) =
    if leb (modulus + delta) word_max
    then (modulus + delta) ∷ shifted modulus deltas
    else shifted modulus deltas

abbrev pub has_number : ℕ → List ℕ → Bool
has_number n [] = false
has_number n (m ∷ ms) = n == m || has_number n ms

abbrev pub invalid_values : ℕ → List ℕ
invalid_values modulus =
    let values = shifted modulus invalid_deltas in
    if has_number word_max values then values else values ++ word_max ∷ []

-- The edge operands of a modulus.
abbrev pub edge_inputs : ℕ → List (ℕ × ℕ × ℕ)
edge_inputs modulus =
    (0, 0, 0)
    ∷ (1, 0, 0)
    ∷ (0, 1, 1)
    ∷ (1, 2, 3)
    ∷ (modulus - 1, 0, modulus - 1)
    ∷ (modulus - 1, modulus - 1, modulus - 1)
    ∷ (modulus / 2, modulus / 3, modulus / 5)
    ∷ (1_234_567 % modulus, 7_654_321 % modulus, 543_210 % modulus)
    ∷ []

-- `vectors.append(_valid_case(len(vectors), …))`
unfoldable pub append_valid : ℕ → ℕ → List Vector → ℕ × ℕ × ℕ → Result Error (List Vector)
append_valid modulus_id modulus vectors (a, b, twiddle) = do
  v ← valid_case (length vectors) modulus_id modulus a b twiddle
  ok (vectors ++ v ∷ [])

unfoldable pub append_edges : ℕ → ℕ → List Vector → List (ℕ × ℕ × ℕ) → Result Error (List Vector)
append_edges modulus_id modulus vectors [] = ok vectors
append_edges modulus_id modulus vectors (inputs ∷ rest) =
    append_valid modulus_id modulus vectors inputs >>= λ longer.
    append_edges modulus_id modulus longer rest

-- The three operands are drawn in order; `drawn` counts the draws made before.
unfoldable pub append_random :
    (ℕ → ℕ → ℕ) → ℕ → ℕ → ℕ → ℕ → List Vector → Result Error (List Vector)
append_random draw modulus_id modulus drawn zero vectors = ok vectors
append_random draw modulus_id modulus drawn (suc cases) vectors =
    append_valid modulus_id modulus vectors
      (draw drawn modulus, draw (drawn + 1) modulus, draw (drawn + 2) modulus)
    >>= λ longer. append_random draw modulus_id modulus (drawn + 3) cases longer

abbrev pub append_block : (ℕ → ℕ → ℕ) → ℕ → ℕ → ℕ → List Vector → Result Error (List Vector)
append_block draw modulus_id modulus drawn vectors =
    append_edges modulus_id modulus vectors (edge_inputs modulus) >>= λ edged.
    append_random draw modulus_id modulus drawn random_cases_per_modulus edged

-- One invalid value in the place of one operand, the others zero.
abbrev pub with_operand : ℕ → ℕ → ℕ × ℕ × ℕ
with_operand zero value = (value, 0, 0)
with_operand (suc zero) value = (0, value, 0)
with_operand (suc (suc n)) value = (0, 0, value)

abbrev pub append_invalid : ℕ → List Vector → ℕ × ℕ × ℕ → List Vector
append_invalid modulus_id vectors (a, b, twiddle) =
    vectors ++ invalid_case (length vectors) modulus_id a b twiddle ∷ []

unfoldable pub append_values : ℕ → ℕ → List Vector → List ℕ → List Vector
append_values modulus_id operand_index vectors [] = vectors
append_values modulus_id operand_index vectors (value ∷ values) =
    append_values modulus_id operand_index
      (append_invalid modulus_id vectors (with_operand operand_index value)) values

abbrev pub append_malformed : ℕ → ℕ → List Vector → List Vector
append_malformed modulus_id modulus vectors =
    append_values modulus_id 2
      (append_values modulus_id 1 (append_values modulus_id 0 vectors (invalid_values modulus))
        (invalid_values modulus))
      (invalid_values modulus)

unfoldable pub build_vectors : (ℕ → ℕ → ℕ) → Result Error (List Vector)
build_vectors draw = do
  kem ← append_block draw 0 kem_q 0 []
  valid ← append_block draw 1 dsa_q (3 * random_cases_per_modulus) kem
  let malformed = append_malformed 1 dsa_q (append_malformed 0 kem_q valid)
  ok (append_invalid 3 (append_invalid 2 malformed (0, 0, 0)) (0, 0, 0))
