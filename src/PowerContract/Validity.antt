-- ===== src/PowerContract/Validity.antt =====
-- What model/power_contract.py accepts.
use lca.Prelude.{
  ◌≡◌, ◌≢◌, ◌↔◌, refl, List, [], ◌∷◌, some, Bool, true, false, ok, arith, Result-cases, inl, inr, ℤ,
  pos, negsuc, ◌≤ℤ◌, ◌<ℤ◌, map,
}
use lca.Floats.{Floats}
use lca.Text.{Text, text_eq}
use lca.Vcd.{has_text}
use lca.PowerContract.Defs.{
  allowed_states, ActivitySample, PowerTrace, below_zero, validate_sample, validate_samples,
  validate, watts,
}

module _ (F : Floats) where
  pub record IsSample (s : ActivitySample F) : Type 0 where
    pub timestamp : pos 0 ≤ℤ s.timestamp_ns
    pub known_state : has_text s.state allowed_states ≡ true
    pub lanes : pos 0 ≤ℤ s.active_lanes
    pub clock : pos 0 <ℤ s.clock_hz
    pub estimated : below_zero F s.estimated_watts ≡ false
    pub measured : below_zero F s.measured_watts ≡ false

  validate_sample-IsSample : (s : ActivitySample F) → validate_sample F s ≡ ok tt → IsSample s
  unfolding validate_sample
  validate_sample-IsSample s h = ground arith

  IsSample-validate_sample : (s : ActivitySample F) → IsSample s → validate_sample F s ≡ ok tt
  unfolding validate_sample
  IsSample-validate_sample s v = ground arith

  -- Every sample is valid, and each stands later than the one before it, the first after `previous`.
  abbrev pub AreSamples : ℤ → List (ActivitySample F) → Type 0
  AreSamples previous [] = Unit
  AreSamples previous (s ∷ rest) =
      IsSample s × (previous <ℤ s.timestamp_ns) × AreSamples s.timestamp_ns rest

  validate_samples-AreSamples :
      (previous : ℤ) (samples : List (ActivitySample F))
      → validate_samples F previous samples ≡ ok tt
      → AreSamples previous samples
  unfolding validate_samples
  validate_samples-AreSamples previous [] h = tt
  validate_samples-AreSamples previous (s ∷ rest) h = elim (Result-cases (validate_sample F s)) [
    | inl (tt, fine) ↦ (
      validate_sample-IsSample s fine,
      ground arith,
      validate_samples-AreSamples s.timestamp_ns rest (ground arith),
    )
    | inr (e, failed) ↦ absurd (ground arith)
  ]

  AreSamples-validate_samples :
      (previous : ℤ) (samples : List (ActivitySample F))
      → AreSamples previous samples
      → validate_samples F previous samples ≡ ok tt
  unfolding validate_samples
  AreSamples-validate_samples previous [] h = refl
  AreSamples-validate_samples previous (s ∷ rest) (v, later, vs) =
      ground
        (arith, IsSample-validate_sample s v, AreSamples-validate_samples s.timestamp_ns rest vs)

  pub record IsTrace (t : PowerTrace F) : Type 0 where
    pub source : t.source ≢ []
    pub hardware_id : t.hardware_id ≢ []
    pub operation : t.operation ≢ []
    pub samples : AreSamples (negsuc 0) t.samples

text_eq-nil : (s : Text) → (s ≢ []) → text_eq s [] ≡ false
text_eq-nil [] h = absurd (h refl)
text_eq-nil (c ∷ s) h = refl

nil-text_eq : (s : Text) → text_eq s [] ≡ false → s ≢ []
nil-text_eq [] h e = cc
nil-text_eq (c ∷ s) h e = cc

module _ (F : Floats) where
  -- A trace passes validation exactly when its three names are not empty, every sample has a
  -- nonnegative time stamp, a known state, nonnegative lanes, a positive clock and no negative
  -- watts, and the time stamps rise strictly.
  pub validate_iff : (t : PowerTrace F) → (validate F t ≡ ok tt) ↔ IsTrace F t
  validate_iff t = (forth, back)
    where
      forth : validate F t ≡ ok tt → IsTrace F t
      forth h =
          unfold validate in
          record {
            source = nil-text_eq t.source (ground arith);
            hardware_id = nil-text_eq t.hardware_id (ground arith);
            operation = nil-text_eq t.operation (ground arith);
            samples = validate_samples-AreSamples F (negsuc 0) t.samples (ground arith);
          }

      back : IsTrace F t → validate F t ≡ ok tt
      back v =
          unfold validate in
          ground (
            arith,
            text_eq-nil t.source v.source,
            text_eq-nil t.hardware_id v.hardware_id,
            text_eq-nil t.operation v.operation,
            AreSamples-validate_samples F (negsuc 0) t.samples v.samples,
          )

  -- The watts of every sample, in order.
  abbrev pub Present : Bool → List (ActivitySample F) → List F.Float → Type 0
  Present measured samples values = map (watts F measured) samples ≡ map some values
