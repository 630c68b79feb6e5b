-- ===== src/Activity/Defs.antt =====
-- tools/power_trace_from_vcd.py: from a parsed dump to one sample for each rising clock edge.
use lca.Prelude.{
  ℕ, suc, ◌+◌, ◌-◌, ◌*◌, ◌/◌, ◌%◌, ◌^◌, ◌==◌, max, ◌&&◌, ◌||◌, not, Bool, true, false, [], ◌∷◌,
  Option, none, some, if◌then◌else◌, ℤ, pos, negsuc, sub_ℕ, ◌==ℤ◌, Result, ok, err, length,
}
use lca.Text.{Text, codes, text_eq}
use lca.Dict.{Dict, get_or}
use lca.Vcd.{VcdError, Fraction, normalise_vector, sub_nanosecond}

unfoldable pub count_differences : Text → Text → ℕ
count_differences [] current = 0
count_differences (p ∷ previous) [] = 0
count_differences (p ∷ previous) (c ∷ current) =
    let rest = count_differences previous current in if p == c then rest else rest + 1

unfoldable pub hamming_distance : Text → Text → ℕ
unfolding count_differences
hamming_distance previous current =
    if length previous == length current
    then count_differences previous current
    else (let width = pos (max (length previous) (length current)) in
        count_differences (normalise_vector previous width) (normalise_vector current width))

abbrev pub state_idle : Text
state_idle = codes "idle"

abbrev pub state_kem : Text
state_kem = codes "kem"

abbrev pub state_dsa : Text
state_dsa = codes "dsa"

abbrev pub state_zeroize : Text
state_zeroize = codes "zeroize"

abbrev pub state_fault : Text
state_fault = codes "fault"

abbrev pub unknown : Text
unknown = codes "x"

abbrev pub high : Text
high = codes "1"

abbrev pub low : Text
low = codes "0"

pub record StateRules : Type 0 where
  pub reset_ident : Option Text
  pub reset_active_low : Bool
  pub busy_ident : Option Text
  pub modulus_ident : Option Text
  pub fault_ident : Option Text
  pub kem_modulus : ℤ
  pub dsa_modulus : ℤ
  pub default_active_state : Text

-- `raw and all(char in "01" for char in raw)`
abbrev pub all_binary : Text → Bool
all_binary [] = true
all_binary (c ∷ s) = (c == b'0' || c == b'1') && all_binary s

-- `int(raw, 2)` of binary digits.
unfoldable pub binary_value : ℕ → Text → ℕ
binary_value n [] = n
binary_value n (c ∷ s) = binary_value (2 * n + (c - b'0')) s

unfoldable pub reset_asserted : StateRules → Dict Text → Bool
reset_asserted rules values = elim rules.reset_ident [
  | none ↦ false
  | some ident ↦
      let reset = get_or ident unknown values in
      if rules.reset_active_low then text_eq reset low else text_eq reset high
]

-- `ident is not None and values.get(ident) == "1"`
unfoldable pub is_high : Option Text → Dict Text → Bool
is_high ident values = elim ident [ none ↦ false | some i ↦ text_eq (get_or i [] values) high ]

unfoldable pub active_state : StateRules → Dict Text → Text
unfolding binary_value
active_state rules values = elim rules.modulus_ident [
  | none ↦ rules.default_active_state
  | some ident ↦
      let raw = get_or ident [] values in
      let modulus = pos (binary_value 0 raw) in
      if not (text_eq raw []) && all_binary raw
      then if modulus ==ℤ rules.kem_modulus
        then state_kem
        else if modulus ==ℤ rules.dsa_modulus
        then state_dsa
        else rules.default_active_state
      else rules.default_active_state
]

unfoldable pub classify : StateRules → Dict Text → Text
unfolding reset_asserted is_high active_state
classify rules values =
    if reset_asserted rules values
    then state_zeroize
    else if is_high rules.fault_ident values
    then state_fault
    else if is_high rules.busy_ident values
    then active_state rules values
    else state_idle

-- `Fraction(time) * scale / _NANOSECOND` as an integer; the error is that its denominator is not 1.
unfoldable pub time_to_ns : ℤ → Fraction → Result VcdError ℤ
time_to_ns time scale =
    let nanos = λ (t : ℕ). t * scale.numerator * 10 ^ 9 in
    elim time [
      | pos t ↦
          if nanos t % scale.denominator == 0
          then ok (pos (nanos t / scale.denominator))
          else err sub_nanosecond
      | negsuc t ↦
          if nanos (suc t) % scale.denominator == 0
          then ok (sub_ℕ 0 (nanos (suc t) / scale.denominator))
          else err sub_nanosecond
    ]
