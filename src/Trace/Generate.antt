-- ===== src/Trace/Generate.antt =====
-- tools/power_trace_from_vcd.py: `generate`, from the text of the dump to the trace.
-- exact here, as the float division is below 2 ** 52. The constant texts of the metadata, the file's
-- digest, the tool versions and the schema check are left out.
use lca.Prelude.{
  ◌&&◌, not, Bool, if◌then◌else◌, List, [], ◌∷◌, Option, none, some, ℤ, Result, ok, err, ◌>>=◌,
}
use lca.Text.{Text, text_eq}
use lca.Floats.{Floats}
use lca.Vcd.{VcdError, VcdVar, VcdFile, parse_vcd, clock_required}
use lca.Activity.{StateRules, compute_cycle_activity}
use lca.PowerContract.{PowerTrace}
use lca.Trace.Signals.{Options, select_signals, resolve_signal, text_lt}
use lca.Trace.Build.{TraceError, vcd_error, Metadata, build_trace}

module _ (F : Floats) where
  open F use {Float}

  abbrev pub lift_vcd {ℓ} : {A : Type ℓ} → Result VcdError A → Result TraceError A
  lift_vcd (ok a) = ok a
  lift_vcd (err e) = err (vcd_error e)

  -- The least of the paths of an identifier, or a default.
  abbrev least_path : Text → Text → List VcdVar → Text
  unfolding text_lt
  least_path best ident [] = best
  least_path best ident (v ∷ vs) =
      least_path (if text_eq v.ident ident && text_lt v.path best then v.path else best) ident vs

  abbrev pub clock_path_of : Text → Text → List VcdVar → Text
  unfolding text_lt
  clock_path_of default ident [] = default
  clock_path_of default ident (v ∷ vs) =
      if text_eq v.ident ident then least_path v.path ident vs else clock_path_of default ident vs

  pub record Arguments : Type 0 where
    pub clock : Text
    pub reset : Text
    pub reset_active_high : Bool
    pub busy : Text
    pub modulus : Text
    pub fault : Text
    pub kem_modulus : ℤ
    pub dsa_modulus : ℤ
    pub default_active_state : Text
    pub scopes : List Text
    pub excludes : List Text
    pub weights : List (Text × Float)
    pub count_aliases : Bool
    pub hardware_id : Text
    pub operation : Text

  abbrev pub required : Option Text → Result VcdError Text
  required none = err clock_required
  required (some ident) = ok ident

  unfoldable pub rules_of : VcdFile → Arguments → Result VcdError StateRules
  rules_of vcd args = do
    reset ← resolve_signal vcd args.reset
    busy ← resolve_signal vcd args.busy
    modulus ← resolve_signal vcd args.modulus
    fault ← resolve_signal vcd args.fault
    ok (record {
      reset_ident = reset;
      reset_active_low = not args.reset_active_high;
      busy_ident = busy;
      modulus_ident = modulus;
      fault_ident = fault;
      kem_modulus = args.kem_modulus;
      dsa_modulus = args.dsa_modulus;
      default_active_state = args.default_active_state;
    })

  module _ (matches : Text → Text → Bool) where
    abbrev pub options_of : Arguments → Text → Options F matches
    options_of args clock_ident = record {
      scopes = args.scopes;
      excludes = args.excludes;
      weights = args.weights;
      exclude_idents = clock_ident ∷ [];
      count_aliases = args.count_aliases;
    }

    -- From the parsed file on.
    unfoldable pub generate_from :
        VcdFile → Arguments → Result TraceError (PowerTrace F × Metadata F)
    generate_from vcd args = do
      found ← lift_vcd (resolve_signal vcd args.clock)
      clock_ident ← lift_vcd (required found)
      rules ← lift_vcd (rules_of vcd args)
      let (tracked, skipped) = select_signals F matches vcd (options_of args clock_ident)
      samples ← lift_vcd (compute_cycle_activity F vcd tracked clock_ident rules)
      build_trace F samples tracked skipped (clock_path_of args.clock clock_ident vcd.variables)
          args.hardware_id args.operation

    -- `none` says that the header's rounds ran out.
    unfoldable pub generate :
        Text → Arguments → Option (Result TraceError (PowerTrace F × Metadata F))
    generate text args = elim (parse_vcd text) [
      | none ↦ none
      | some (err e) ↦ some (err (vcd_error e))
      | some (ok vcd) ↦ some (generate_from vcd args)
    ]
