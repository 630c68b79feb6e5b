-- ===== src/BridgeProfile/Defs.antt =====
-- bench/bridge_profile.py: the account of one bridge operation. A mapping's keys are distinct.
use lca.Prelude.{
  ◌&&◌, not, Bool, true, false, List, [], ◌∷◌, ◌++◌, Option, none, some, if◌then◌else◌, ℤ, pos,
  ◌*ℤ◌, ltb_ℤ, leb_ℤ, Result, ok, err, ◌>>=◌, ◌>>◌, raise_if,
}
use lca.Text.{Text, codes}
use lca.Dict.{Dict, lookup}
use lca.Floats.{Floats}
use lca.Vcd.{has_text}

pub data ProfileError : Type 0 where
  negative_count negative_latency negative_energy : Text → ProfileError
  transfers_not_positive keys_mismatch : ProfileError

abbrev pub primitives : List Text
primitives = codes "kem_encaps" ∷ codes "kem_decaps" ∷ codes "dsa_sign" ∷ codes "dsa_verify" ∷ []

pub record PrimitiveCounts : Type 0 where
  pub kem_encaps : ℤ
  pub kem_decaps : ℤ
  pub dsa_sign : ℤ
  pub dsa_verify : ℤ

abbrev pub authenticated : PrimitiveCounts
authenticated = record {
  kem_encaps = pos 1;
  kem_decaps = pos 1;
  dsa_sign = pos 2;
  dsa_verify = pos 2;
}

abbrev pub minimal : PrimitiveCounts
minimal = record authenticated { dsa_sign = pos 1; dsa_verify = pos 1 }

-- `asdict(counts)`
abbrev pub count_map : PrimitiveCounts → List (Text × ℤ)
count_map c =
    (codes "kem_encaps", c.kem_encaps)
    ∷ (codes "kem_decaps", c.kem_decaps)
    ∷ (codes "dsa_sign", c.dsa_sign)
    ∷ (codes "dsa_verify", c.dsa_verify)
    ∷ []

unfoldable pub validate_counts : List (Text × ℤ) → Result ProfileError (Unit {0})
validate_counts [] = ok tt
validate_counts ((name, count) ∷ counts) = do
  raise_if (ltb_ℤ count (pos 0)) (negative_count name)
  validate_counts counts

abbrev pub all_in : List Text → List Text → Bool
unfolding has_text
all_in [] names = true
all_in (k ∷ ks) names = has_text k names && all_in ks names

abbrev pub keys_of {ℓ} : {V : Type ℓ} → Dict V → List Text
keys_of [] = []
keys_of ((k, v) ∷ d) = k ∷ keys_of d

module _ (F : Floats) where
  open F use {Float, of_int, add, mul, lt}

  pub record PrimitiveMeasurement : Type 0 where
    pub latency_ns : Float
    pub energy_uj : Option Float

  abbrev pub is_negative : Option Float → Bool
  is_negative none = false
  is_negative (some x) = lt x (of_int (pos 0))

  unfoldable pub validate_measurement : Text → PrimitiveMeasurement → Result ProfileError (Unit {0})
  validate_measurement name m = do
    raise_if (lt m.latency_ns (of_int (pos 0))) (negative_latency name)
    raise_if (is_negative m.energy_uj) (negative_energy name)

  pub record Line : Type 0 where
    pub name : Text
    pub count : ℤ
    pub latency_ns : Float
    pub energy_uj : Option Float

  -- The local variables of the loop.
  pub record Totals : Type 0 where
    pub latency_ns : Float
    pub energy_uj : Float
    pub energy_complete : Bool
    pub breakdown : List Line

  abbrev pub start_totals : Totals
  start_totals = record {
    latency_ns = of_int (pos 0);
    energy_uj = of_int (pos 0);
    energy_complete = true;
    breakdown = [];
  }

  abbrev pub line_of : Text → ℤ → PrimitiveMeasurement → Line
  line_of name count m = record {
    name = name;
    count = count;
    latency_ns = mul (of_int count) m.latency_ns;
    energy_uj = elim m.energy_uj [ none ↦ none | some e ↦ some (mul (of_int count) e) ];
  }

  abbrev pub add_line : Totals → Line → Totals
  add_line t l = record {
    latency_ns = add t.latency_ns l.latency_ns;
    energy_uj = elim l.energy_uj [ none ↦ t.energy_uj | some e ↦ add t.energy_uj e ];
    energy_complete = elim l.energy_uj [ none ↦ false | some e ↦ t.energy_complete ];
    breakdown = t.breakdown ++ l ∷ [];
  }

  -- The loop over the primitives; a missing measurement is a key mismatch, found before.
  unfoldable pub account :
      Dict PrimitiveMeasurement → ℤ → Totals → List (Text × ℤ) → Result ProfileError Totals
  unfolding lookup
  account measurements transfers t [] = ok t
  account measurements transfers t ((name, count) ∷ counts) = elim (lookup name measurements) [
    | none ↦ err keys_mismatch
    | some m ↦ validate_measurement name m >>= λ u.
        account measurements transfers (add_line t (line_of name (count *ℤ transfers) m)) counts
  ]

  pub record Summary : Type 0 where
    pub transfers : ℤ
    pub primitive_latency_sum_ns : Float
    pub primitive_energy_sum_uj : Option Float
    pub breakdown : List Line

  unfoldable pub summarize :
      PrimitiveCounts → Dict PrimitiveMeasurement → ℤ → Result ProfileError Summary
  unfolding has_text
  summarize counts measurements transfers = do
    validate_counts (count_map counts)
    raise_if (leb_ℤ transfers (pos 0)) transfers_not_positive
    raise_if
        (not (all_in primitives (keys_of measurements) && all_in (keys_of measurements) primitives))
        keys_mismatch
    t ← account measurements transfers start_totals (count_map counts)
    ok (record {
      transfers = transfers;
      primitive_latency_sum_ns = t.latency_ns;
      primitive_energy_sum_uj = if t.energy_complete then some t.energy_uj else none;
      breakdown = t.breakdown;
    })
