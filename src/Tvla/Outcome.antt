-- ===== src/Tvla/Outcome.antt =====
-- When `assess` succeeds, and what it returns.
use lca.Prelude.{
  ℕ, ◌≤◌, ◌≡◌, ◌↔◌, List, ◌++◌, map, Option, ok, arith, length, map_result, Result-cases, inl, inr,
  ltb, false,
}
use lca.Floats.{Floats}
use lca.Text.{Text}
use lca.Json.{Json}
use lca.Tvla.Statistics.{TvlaResult}
use lca.Tvla.Assess.{Options, load_series, common_length, assess, compare_series}
use lca.Tvla.Points.{IsCommon, common_length-IsCommon}
use lca.Tvla.Whole.{
  length-map_result, IsComparison, result_of, result_of-IsComparison, compare_series-ok,
  lengths-AreLong,
}

long_enough : (n : ℕ) → 2 ≤ n → ltb n 2 ≡ false
long_enough n h = ground arith

module _ (F : Floats) (float_of : Text → Option F.Float) (options : Options F) (pointer : Text)
    (fixed random : List (Json F.Float)) where
  abbrev Loaded : List (Json F.Float) → List (List F.Float) → Type 0
  Loaded payloads traces = map_result (load_series F float_of pointer) payloads ≡ ok traces

  pub assess-IsComparison :
      (fs rs : List (List F.Float)) (n : ℕ)
      → 2 ≤ length fixed
      → 2 ≤ length random
      → Loaded fixed fs
      → Loaded random rs
      → IsCommon options.truncate n (map length (fs ++ rs))
      → (r : TvlaResult F) × (assess F float_of options pointer fixed random ≡ ok r)
        × IsComparison F options n fs rs r
  assess-IsComparison fs rs n f2 r2 lf lr common = (
    result_of F options n fs rs,
    found,
    (let (af, ar) = lengths-AreLong F n fs rs common.shortest in
        result_of-IsComparison F options n fs rs af ar),
  )
    where
      found : assess F float_of options pointer fixed random ≡ ok (result_of F options n fs rs)
      found =
          unfold assess in
          rw (long_enough (length fixed) f2, long_enough (length random) r2, lf, lr)
            (compare_series-ok F options n fs rs
              (rw (length-map_result (load_series F float_of pointer) fixed fs lf) f2)
              (rw (length-map_result (load_series F float_of pointer) random rs lr) r2) common)

  -- What `assess` needs of its input.
  pub record IsAssessable : Type 0 where
    pub enough_fixed : 2 ≤ length fixed
    pub enough_random : 2 ≤ length random
    pub loads :
        (fs : List (List F.Float)) × (rs : List (List F.Float)) × Loaded fixed fs
        × Loaded random rs
        × ((n : ℕ) × IsCommon options.truncate n (map length (fs ++ rs)))

  common_exists :
      (fs rs : List (List F.Float)) (r : TvlaResult F)
      → compare_series F options fs rs ≡ ok r
      → (n : ℕ) × IsCommon options.truncate n (map length (fs ++ rs))
  unfolding compare_series
  common_exists fs rs r h =
      elim (Result-cases (common_length options.truncate (map length (fs ++ rs)))) [
        | inl (n, e) ↦ (n, common_length-IsCommon options.truncate n (map length (fs ++ rs)) e)
        | inr (e, failed) ↦ absurd (ground arith)
      ]

  -- `assess` succeeds exactly when each set has two traces, every series loads and the series have
  -- one length, or any lengths with truncation.
  pub assess-ok_iff :
      ((r : TvlaResult F) × (assess F float_of options pointer fixed random ≡ ok r)) ↔ IsAssessable
  assess-ok_iff = (forth, back)
    where
      forth :
          (r : TvlaResult F) × (assess F float_of options pointer fixed random ≡ ok r)
          → IsAssessable
      forth (r, h) = elim (Result-cases (map_result (load_series F float_of pointer) fixed)) [
        | inr (e, failed) ↦ absurd (unfold assess in ground arith)
        | inl (fs, lf) ↦ elim (Result-cases (map_result (load_series F float_of pointer) random)) [
          | inr (e, failed) ↦ absurd (unfold assess in ground arith)
          | inl (rs, lr) ↦ record {
            enough_fixed = unfold assess in ground arith;
            enough_random = unfold assess in ground arith;
            loads = (fs, rs, lf, lr, common_exists fs rs r (unfold assess in ground arith));
          }
        ]
      ]

      back :
          IsAssessable
          → (r : TvlaResult F) × (assess F float_of options pointer fixed random ≡ ok r)
      back a =
          let (fs, rs, lf, lr, (n, common)) = a.loads in
          let (r, found, comparison) =
            assess-IsComparison fs rs n a.enough_fixed a.enough_random lf lr common in
          (r, found)
