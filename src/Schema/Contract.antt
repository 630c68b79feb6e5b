-- ===== src/Schema/Contract.antt =====
-- A whole trace under the schema, and what the schema asks of it.
use lca.Prelude.{
  ◌≡◌, ◌↔◌, refl, sym, ap, suc, ◌≢◌, ◌≤◌, ◌∙◌, ◌+◌, both_ok, ok, ◌>>◌, raise_if, false, ◌++◌, ℕ,
  All, map, length, ltb_ℤ, pos, arith, List, [], ◌∷◌,
}
use lca.Floats.{Floats}
use lca.Text.{Text, codes}
use lca.Json.{array, Fields, end, field, items_of, json_eq, count_items}
use lca.PowerContract.{ActivitySample, PowerTrace, IsSample}
use lca.Schema.Defs.{
  Place, Checked, validate_items, validate_fields, string_too_short, array_too_short, key, index,
  validate_against_schema, keywords_for, any_type, is_type, is_among,
}
use lca.Schema.Document.{sample_payload, trace_payload, trace_schema, sample_schema, samples_schema}
use lca.Schema.Sample.{
  sample_checks, validate-sample, sample_checks-IsSample, IsSample-sample_checks,
}

positive : (s : Text) → (s ≢ []) → ltb_ℤ (pos (length s)) (pos 1) ≡ false
positive [] h = absurd (h refl)
positive (c ∷ s) h = ground arith

module _ (F : Floats) where
  open F use {Float}

  abbrev items_checks : Place → ℕ → List (ActivitySample F) → Checked F
  unfolding validate_against_schema
  items_checks path i samples =
      validate_items F (items_of (map (sample_payload F) samples)) (sample_schema F) path i

  items_checks-cons :
      (s : ActivitySample F) (samples : List (ActivitySample F)) (path : Place) (i : ℕ)
      → items_checks path i (s ∷ samples)
        ≡ (sample_checks F (path ++ index i ∷ []) s >> items_checks path (i + 1) samples)
  items_checks-cons s samples path i =
      rw (sym (validate-sample F s (path ++ index i ∷ []))) (unfold validate_against_schema in refl)

  items_checks-All :
      (samples : List (ActivitySample F)) (path : Place) (i : ℕ)
      → items_checks path i samples ≡ ok tt
      → All (IsSample F) samples
  items_checks-All [] path i h = tt
  items_checks-All (s ∷ samples) path i h =
      (sample_checks-IsSample F s _ both.0, items_checks-All samples path (i + 1) both.1)
    where
      both :
          (sample_checks F (path ++ index i ∷ []) s ≡ ok tt)
          × (items_checks path (i + 1) samples ≡ ok tt)
      both = both_ok _ _ (sym (items_checks-cons s samples path i) ∙ h)

  All-items_checks :
      (samples : List (ActivitySample F)) (path : Place) (i : ℕ)
      → All (IsSample F) samples
      → items_checks path i samples ≡ ok tt
  All-items_checks [] path i h = unfold validate_against_schema in refl
  All-items_checks (s ∷ samples) path i (v, vs) =
      items_checks-cons s samples path i
      ∙ rw (IsSample-sample_checks F s (path ++ index i ∷ []) v)
          (All-items_checks samples path (i + 1) vs)

  validate_fields-free : (fs : Fields Float) (path : Place) → validate_fields F fs end path ≡ ok tt
  unfolding validate_against_schema
  validate_fields-free end path = refl
  validate_fields-free (field k v fs) path = validate_fields-free fs path

  samples_checks : List (ActivitySample F) → Place → Checked F
  samples_checks samples path = do
    raise_if (ltb_ℤ (pos (count_items (items_of (map (sample_payload F) samples)))) (pos 2))
        (array_too_short path)
    items_checks path 0 samples

  trace_checks : PowerTrace F → Checked F
  trace_checks t = do
    raise_if (ltb_ℤ (pos (length t.source)) (pos 1)) (string_too_short (key (codes "source") ∷ []))
    raise_if (ltb_ℤ (pos (length t.hardware_id)) (pos 1))
        (string_too_short (key (codes "hardware_id") ∷ []))
    raise_if (ltb_ℤ (pos (length t.operation)) (pos 1))
        (string_too_short (key (codes "operation") ∷ []))
    samples_checks t.samples (key (codes "samples") ∷ [])
    ok tt

  validate-samples :
      (samples : List (ActivitySample F)) (path : Place)
      → validate_against_schema F
          (array (items_of (map (sample_payload F) samples)))
          (samples_schema F)
          path
        ≡ samples_checks samples path
  unfolding validate_against_schema keywords_for any_type is_type is_among json_eq samples_checks
      items_checks
  validate-samples samples path = refl

  validate-trace :
      (t : PowerTrace F) (metadata : Fields Float)
      → validate_against_schema F (trace_payload F t metadata) (trace_schema F) [] ≡ trace_checks t
  unfolding validate_against_schema keywords_for any_type is_type is_among json_eq trace_checks
      samples_checks items_checks
  validate-trace t metadata = rw (validate_fields-free metadata (key (codes "metadata") ∷ [])) refl

  count_items-map :
      (samples : List (ActivitySample F))
      → count_items (items_of (map (sample_payload F) samples)) ≡ length samples
  count_items-map [] = refl
  count_items-map (s ∷ samples) = ap suc (count_items-map samples)

  -- What the contract and the schema ask alike of a trace, whose samples need not rise in time.
  pub record IsDocument (t : PowerTrace F) : Type 0 where
    pub source : t.source ≢ []
    pub hardware_id : t.hardware_id ≢ []
    pub operation : t.operation ≢ []
    pub two_samples : 2 ≤ length t.samples
    pub samples : All (IsSample F) t.samples

  samples_checks_iff :
      (samples : List (ActivitySample F)) (path : Place)
      → (samples_checks samples path ≡ ok tt) ↔ ((2 ≤ length samples) × All (IsSample F) samples)
  unfolding samples_checks
  samples_checks_iff samples path = (forth, back)
    where
      forth : samples_checks samples path ≡ ok tt → (2 ≤ length samples) × All (IsSample F) samples
      forth h =
          (ground (arith, count_items-map samples), items_checks-All samples path 0 (ground arith))

      back : (2 ≤ length samples) × All (IsSample F) samples → samples_checks samples path ≡ ok tt
      back (long, vs) = ground (arith, count_items-map samples, All-items_checks samples path 0 vs)

  trace_checks_iff : (t : PowerTrace F) → (trace_checks t ≡ ok tt) ↔ IsDocument t
  unfolding trace_checks
  trace_checks_iff t = (forth, back)
    where
      accepted :
          samples_checks t.samples (key (codes "samples") ∷ []) ≡ ok tt
          → (2 ≤ length t.samples) × All (IsSample F) t.samples
      accepted = (samples_checks_iff t.samples (key (codes "samples") ∷ [])).0

      forth : trace_checks t ≡ ok tt → IsDocument t
      forth h = record {
        source = λ x. ground arith;
        hardware_id = λ x. ground arith;
        operation = λ x. ground arith;
        two_samples = (accepted (ground arith)).0;
        samples = (accepted (ground arith)).1;
      }

      back : IsDocument t → trace_checks t ≡ ok tt
      back v = ground (
        arith,
        (samples_checks_iff t.samples (key (codes "samples") ∷ [])).1 (v.two_samples, v.samples),
        positive t.source v.source,
        positive t.hardware_id v.hardware_id,
        positive t.operation v.operation,
      )

  pub trace_payload-accepted_iff :
      (t : PowerTrace F) (metadata : Fields Float)
      → (validate_against_schema F (trace_payload F t metadata) (trace_schema F) [] ≡ ok tt)
        ↔ IsDocument t
  trace_payload-accepted_iff t metadata = rw (validate-trace t metadata) (trace_checks_iff t)
