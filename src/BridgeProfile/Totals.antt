-- ===== src/BridgeProfile/Totals.antt =====
-- The sums of the account are those of its lines.
use mathlib.Core.List.{append_assoc, append-nil}
use lca.Prelude.{
  ◌≡◌, ◌∙◌, refl, ap, sym, subst, Bool, true, false, if◌then◌else◌, List, [], ◌∷◌, ◌++◌, Option,
  none, some, ℤ, pos, ◌*ℤ◌, ◌<ℤ◌, ok, arith, Result-cases, Option-cases, inl, inr,
}
use lca.Text.{Text}
use lca.Dict.{Dict, lookup}
use lca.Floats.{Floats}
use lca.BridgeProfile.Defs.{
  PrimitiveCounts, PrimitiveMeasurement, Line, Totals, Summary, count_map, validate_measurement,
  start_totals, line_of, add_line, account, summarize,
}

module _ (F : Floats) where
  open F use {Float, of_int, add}

  -- The sum of the latencies, from a start.
  abbrev pub latency_sum : Float → List (Line F) → Float
  latency_sum total [] = total
  latency_sum total (l ∷ ls) = latency_sum (add total l.latency_ns) ls

  -- The sum of the energies; none where a line has none.
  abbrev pub energy_sum : Float → List (Line F) → Option Float
  energy_sum total [] = some total
  energy_sum total (l ∷ ls) = elim l.energy_uj [
    | none ↦ none
    | some e ↦ energy_sum (add total e) ls
  ]

  abbrev energy_of : Totals F → Option Float
  energy_of t = if t.energy_complete then some t.energy_uj else none

  -- The lines are those of the counts, in order.
  abbrev pub Lists : Dict (PrimitiveMeasurement F) → ℤ → List (Text × ℤ) → List (Line F) → Type 0
  Lists measurements transfers [] lines = lines ≡ []
  Lists measurements transfers ((name, count) ∷ counts) lines =
      (m : PrimitiveMeasurement F) × (rest : List (Line F)) × (lookup name measurements ≡ some m)
      × (lines ≡ line_of F name (count *ℤ transfers) m ∷ rest)
      × Lists measurements transfers counts rest

  -- What the loop adds to its variables.
  record IsTotal (t t' : Totals F) (lines : List (Line F)) : Type 0 where
    latency : t'.latency_ns ≡ latency_sum t.latency_ns lines
    energy : energy_of t' ≡ (if t.energy_complete then energy_sum t.energy_uj lines else none)
    breakdown : t'.breakdown ≡ t.breakdown ++ lines

  energy_step :
      (c : Bool) (total : Float) (o : Option Float) (lines : List (Line F))
      → (if (elim o [ none ↦ false | some e ↦ c ])
          then energy_sum (elim o [ none ↦ total | some e ↦ add total e ]) lines
          else none)
        ≡ (if c then (elim o [ none ↦ none | some e ↦ energy_sum (add total e) lines ]) else none)
  energy_step true total none lines = refl
  energy_step false total none lines = refl
  energy_step c total (some e) lines = refl

  IsTotal-cons :
      (t t' : Totals F) (l : Line F) (lines : List (Line F))
      → IsTotal (add_line F t l) t' lines
      → IsTotal t t' (l ∷ lines)
  IsTotal-cons t t' l lines h = record {
    latency = h.latency;
    energy = h.energy ∙ energy_step t.energy_complete t.energy_uj l.energy_uj lines;
    breakdown = h.breakdown ∙ append_assoc t.breakdown (l ∷ []) lines;
  }

  account-IsTotal :
      (measurements : Dict (PrimitiveMeasurement F)) (transfers : ℤ) (t t' : Totals F)
      (counts : List (Text × ℤ))
      → account F measurements transfers t counts ≡ ok t'
      → (lines : List (Line F)) × Lists measurements transfers counts lines × IsTotal t t' lines
  unfolding account
  account-IsTotal measurements transfers t t' [] h = (
    [],
    refl,
    subst (λ (x : Totals F). IsTotal t x []) (same h)
        (record {
          latency = refl;
          energy = at_start t.energy_complete t.energy_uj;
          breakdown = sym (append-nil t.breakdown);
        }),
  )
    where
      same : account F measurements transfers t [] ≡ ok t' → t ≡ t'
      same e = ground arith

      at_start :
          (c : Bool) (x : Float)
          → (if c then some x else none) ≡ (if c then energy_sum x [] else none)
      at_start c x = refl
  account-IsTotal measurements transfers t t' ((name, count) ∷ counts) h =
      elim (Option-cases (lookup name measurements)) [
        | inl missing ↦ absurd (ground arith)
        | inr (m, found) ↦ elim (Result-cases (validate_measurement F name m)) [
          | inr (e, failed) ↦ absurd (ground arith)
          | inl (u, fine) ↦
              let (lines, listed, total) =
                account-IsTotal measurements transfers
                  (add_line F t (line_of F name (count *ℤ transfers) m)) t' counts (ground arith) in
              (
                line_of F name (count *ℤ transfers) m ∷ lines,
                (m, lines, found, refl, listed),
                IsTotal-cons t t' (line_of F name (count *ℤ transfers) m) lines total,
              )
        ]
      ]

  -- A summary has one line for each primitive, in order, with its count times the transfers and its
  -- measured latency and energy times that; the summary's latency is the sum of the lines' latencies,
  -- and its energy the sum of their energies, or absent as soon as one line has none.
  pub summarize-sums :
      (counts : PrimitiveCounts) (measurements : Dict (PrimitiveMeasurement F)) (transfers : ℤ)
      (s : Summary F)
      → summarize F counts measurements transfers ≡ ok s
      → Lists measurements transfers (count_map counts) s.breakdown
        × (s.primitive_latency_sum_ns ≡ latency_sum (of_int (pos 0)) s.breakdown)
        × (s.primitive_energy_sum_uj ≡ energy_sum (of_int (pos 0)) s.breakdown)
        × (s.transfers ≡ transfers)
        × (pos 0 <ℤ transfers)
  unfolding summarize
  summarize-sums counts measurements transfers s h =
      elim (Result-cases (account F measurements transfers (start_totals F) (count_map counts))) [
        | inr (e, failed) ↦ absurd (ground arith)
        | inl (t, fine) ↦
            let (lines, listed, total) =
              account-IsTotal measurements transfers (start_totals F) t (count_map counts) fine in
            (
              subst (Lists measurements transfers (count_map counts))
                  (sym (lines_of t fine ∙ total.breakdown)) listed,
              latency_of t fine
                  ∙ total.latency
                  ∙ ap (latency_sum (of_int (pos 0))) (sym (lines_of t fine ∙ total.breakdown)),
              energy_total t fine
                  ∙ total.energy
                  ∙ ap (energy_sum (of_int (pos 0))) (sym (lines_of t fine ∙ total.breakdown)),
              ground arith,
              ground arith,
            )
      ]
    where
      lines_of :
          (t : Totals F)
          → account F measurements transfers (start_totals F) (count_map counts) ≡ ok t
          → s.breakdown ≡ t.breakdown
      lines_of t fine = ground arith

      latency_of :
          (t : Totals F)
          → account F measurements transfers (start_totals F) (count_map counts) ≡ ok t
          → s.primitive_latency_sum_ns ≡ t.latency_ns
      latency_of t fine = ground arith

      energy_total :
          (t : Totals F)
          → account F measurements transfers (start_totals F) (count_map counts) ≡ ok t
          → s.primitive_energy_sum_uj ≡ energy_of t
      energy_total t fine = ground arith
