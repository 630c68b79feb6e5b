-- ===== src/Schema/Refinement.antt =====
-- The schema and the validation of model/power_contract.py accept the same traces but for the order
-- of the time stamps and the number of samples.
use lca.Prelude.{◌≡◌, ◌↔◌, ◌≤◌, ok, List, [], ◌∷◌, All, length, ℤ, negsuc, ◌<ℤ◌}
use lca.Floats.{Floats}
use lca.Json.{Fields}
use lca.PowerContract.{ActivitySample, PowerTrace, IsSample, AreSamples, validate, validate_iff}
use lca.Schema.Defs.{validate_against_schema}
use lca.Schema.Document.{trace_payload, trace_schema}
use lca.Schema.Contract.{IsDocument, trace_payload-accepted_iff}

module _ (F : Floats) where
  -- Each time stamp is later than the one before it, the first than `previous`.
  abbrev pub Rises : ℤ → List (ActivitySample F) → Type 0
  Rises previous [] = Unit
  Rises previous (s ∷ samples) = (previous <ℤ s.timestamp_ns) × Rises s.timestamp_ns samples

  AreSamples-iff :
      (previous : ℤ) (samples : List (ActivitySample F))
      → AreSamples F previous samples ↔ (All (IsSample F) samples × Rises previous samples)
  AreSamples-iff previous [] = (λ h. (tt, tt), λ h. tt)
  AreSamples-iff previous (s ∷ samples) = (
    λ h. (
      (h.0, ((AreSamples-iff s.timestamp_ns samples).0 h.2).0),
      (h.1, ((AreSamples-iff s.timestamp_ns samples).0 h.2).1),
    ),
    λ h. (h.0.0, h.1.0, (AreSamples-iff s.timestamp_ns samples).1 (h.0.1, h.1.1)),
  )

  -- A trace of at least two samples passes `validate` exactly when the schema checker accepts its
  -- payload, with any metadata, under the schema of power traces and its time stamps rise
  -- strictly from above -1.
  pub validate-accepted_iff :
      (t : PowerTrace F) (metadata : Fields F.Float)
      → ((validate F t ≡ ok tt) × (2 ≤ length t.samples)) ↔ (
          (validate_against_schema F (trace_payload F t metadata) (trace_schema F) [] ≡ ok tt)
          × Rises (negsuc 0) t.samples)
  validate-accepted_iff t metadata = (forth, back)
    where
      accepted :
          (validate_against_schema F (trace_payload F t metadata) (trace_schema F) [] ≡ ok tt)
          ↔ IsDocument F t
      accepted = trace_payload-accepted_iff F t metadata

      ordered :
          AreSamples F (negsuc 0) t.samples
          ↔ (All (IsSample F) t.samples × Rises (negsuc 0) t.samples)
      ordered = AreSamples-iff (negsuc 0) t.samples

      forth :
          (validate F t ≡ ok tt) × (2 ≤ length t.samples)
          → (validate_against_schema F (trace_payload F t metadata) (trace_schema F) [] ≡ ok tt)
            × Rises (negsuc 0) t.samples
      forth (valid, long) =
          let v = (validate_iff F t).0 valid in
          let parts = ordered.0 v.samples in
          (
            accepted.1 (record {
              source = v.source;
              hardware_id = v.hardware_id;
              operation = v.operation;
              two_samples = long;
              samples = parts.0;
            }),
            parts.1,
          )

      back :
          (validate_against_schema F (trace_payload F t metadata) (trace_schema F) [] ≡ ok tt)
            × Rises (negsuc 0) t.samples
          → (validate F t ≡ ok tt) × (2 ≤ length t.samples)
      back (fine, rising) =
          let d = accepted.0 fine in
          (
            (validate_iff F t).1 (record {
              source = d.source;
              hardware_id = d.hardware_id;
              operation = d.operation;
              samples = ordered.1 (d.samples, rising);
            }),
            d.two_samples,
          )
