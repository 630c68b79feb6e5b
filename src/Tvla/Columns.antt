-- ===== src/Tvla/Columns.antt =====
-- The statistics of `assess`, which are updated trace by trace, against those of each sample point.
use lca.Prelude.{
  ℕ, zero, suc, ◌+◌, ◌≤◌, ◌<◌, ◌≡◌, refl, subst, ap, ◌∙◌, List, [], ◌∷◌, none, some, ok, arith, All,
  length, get_elem?,
}
use lca.Floats.{Floats}
use lca.Tvla.Statistics.{Welford, update}
use lca.Tvla.Assess.{update_each, update_stats}

module _ (F : Floats) where
  open F use {Float}

  -- The samples that the traces have at one index.
  abbrev pub column : ℕ → List (List Float) → List Float
  column i [] = []
  column i (series ∷ later) = elim (get_elem? series i) [
    | none ↦ column i later
    | some x ↦ x ∷ column i later
  ]

  -- The statistics after a sequence of values.
  abbrev pub observe : Welford F → List Float → Welford F
  observe w [] = w
  observe w (x ∷ xs) = observe (update F w x) xs

  abbrev updated : List (Welford F) → List Float → List (Welford F)
  updated [] series = []
  updated (w ∷ ws) [] = []
  updated (w ∷ ws) (x ∷ series) = update F w x ∷ updated ws series

  -- The statistics after all traces.
  abbrev pub final : List (Welford F) → List (List Float) → List (Welford F)
  final stats [] = stats
  final stats (series ∷ later) = final (updated stats series) later

  abbrev pub AreLong : ℕ → List (List Float) → Type 0
  AreLong n traces = All (λ (series : List Float). n ≤ length series) traces

  update_each-ok :
      (stats : List (Welford F)) (series : List Float)
      → length stats ≤ length series
      → update_each F stats series ≡ ok (updated stats series)
  unfolding update_each
  update_each-ok [] series long = refl
  update_each-ok (w ∷ ws) [] long = absurd (omega (arith, long))
  update_each-ok (w ∷ ws) (x ∷ series) long =
      rw (update_each-ok ws series (omega (arith, long))) refl

  length-updated :
      (stats : List (Welford F)) (series : List Float)
      → length stats ≤ length series
      → length (updated stats series) ≡ length stats
  length-updated [] series long = refl
  length-updated (w ∷ ws) [] long = absurd (omega (arith, long))
  length-updated (w ∷ ws) (x ∷ series) long =
      ap suc (length-updated ws series (omega (arith, long)))

  get_elem-updated :
      (stats : List (Welford F)) (series : List Float) (i : ℕ) (w : Welford F) (x : Float)
      → get_elem? stats i ≡ some w
      → get_elem? series i ≡ some x
      → get_elem? (updated stats series) i ≡ some (update F w x)
  get_elem-updated [] series i w x h k = absurd (cc)
  get_elem-updated (v ∷ ws) [] i w x h k = absurd (cc)
  get_elem-updated (v ∷ ws) (y ∷ series) zero w x h k = cc
  get_elem-updated (v ∷ ws) (y ∷ series) (suc i) w x h k = get_elem-updated ws series i w x h k

  pub update_stats-final :
      (stats : List (Welford F)) (traces : List (List Float))
      → AreLong (length stats) traces
      → update_stats F stats traces ≡ ok (final stats traces)
  unfolding update_stats
  update_stats-final stats [] long = refl
  update_stats-final stats (series ∷ later) (here, long) =
      rw (update_each-ok stats series here) (
        update_stats-final (updated stats series) later
          (rw (length-updated stats series here) long))

  pub length-final :
      (stats : List (Welford F)) (traces : List (List Float))
      → AreLong (length stats) traces
      → length (final stats traces) ≡ length stats
  length-final stats [] long = refl
  length-final stats (series ∷ later) (here, long) =
      length-final (updated stats series) later (rw (length-updated stats series here) long)
      ∙ length-updated stats series here

  get_elem-some :
      (series : List Float) (i : ℕ)
      → i < length series
      → (x : Float) × (get_elem? series i ≡ some x)
  get_elem-some [] i h = absurd (omega (arith, h))
  get_elem-some (x ∷ series) zero h = (x, refl)
  get_elem-some (x ∷ series) (suc i) h = get_elem-some series i (omega (arith, h))

  column-cons :
      (i : ℕ) (series : List Float) (later : List (List Float)) (x : Float)
      → get_elem? series i ≡ some x
      → column i (series ∷ later) ≡ x ∷ column i later
  column-cons i series later x e = ground arith

  pub get_elem-final :
      (stats : List (Welford F)) (traces : List (List Float)) (i : ℕ) (w : Welford F)
      → get_elem? stats i ≡ some w
      → AreLong (suc i) traces
      → get_elem? (final stats traces) i ≡ some (observe w (column i traces))
  get_elem-final stats [] i w h long = h
  get_elem-final stats (series ∷ later) i w h (here, long) =
      let (x, e) = get_elem-some series i (omega (arith, here)) in
      rw (column-cons i series later x e) (
        get_elem-final (updated stats series) later i (update F w x)
          (get_elem-updated stats series i w x h e) long)

  -- The number of values that every statistic has seen.
  abbrev pub AllCount : ℕ → List (Welford F) → Type 0
  AllCount n stats = All (λ (w : Welford F). w.count ≡ n) stats

  updated-AllCount :
      (n : ℕ) (stats : List (Welford F)) (series : List Float)
      → AllCount n stats
      → AllCount (n + 1) (updated stats series)
  unfolding update
  updated-AllCount n [] series h = tt
  updated-AllCount n (w ∷ ws) [] h = tt
  updated-AllCount n (w ∷ ws) (x ∷ series) (e, h) =
      (omega (arith, e), updated-AllCount n ws series h)

  pub final-AllCount :
      (n : ℕ) (stats : List (Welford F)) (traces : List (List Float))
      → AllCount n stats
      → AllCount (n + length traces) (final stats traces)
  final-AllCount n stats [] h = subst (λ m. AllCount m stats) (omega arith) h
  final-AllCount n stats (series ∷ later) h =
      subst (λ m. AllCount m (final (updated stats series) later)) (omega arith)
        (final-AllCount (n + 1) (updated stats series) later (updated-AllCount n stats series h))
