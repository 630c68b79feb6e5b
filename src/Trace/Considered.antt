-- ===== src/Trace/Considered.antt =====
-- What `select_signals` does with one variable: it passes it over or tracks it.
use mathlib.Core.List.{Mem}
use lca.Prelude.{◌≡◌, Bool, true, false, not, ◌&&◌, ◌||◌, List, map, arith, Bool-cases, inl, inr}
use lca.Text.{Text}
use lca.Floats.{Floats}
use lca.Vcd.{VcdVar, togglable, has_text}
use lca.Activity.{TrackedSignal}
use lca.Trace.Signals.{outside, any_match, Options, Selection, track, consider}

module _ (F : Floats) (matches : Text → Text → Bool) (o : Options F matches) where
  -- A variable that the options let through.
  pub record Accepted (v : VcdVar) : Type 0 where
    pub inside : outside o.scopes v.path ≡ false
    pub allowed : has_text v.ident o.exclude_idents ≡ false
    pub toggles : togglable v ≡ true
    pub kept : any_match matches v.path o.excludes ≡ false

  -- A tracked signal that stands for an accepted variable of the list.
  abbrev pub Tracks : List VcdVar → TrackedSignal F → Type 0
  Tracks vars t =
      (v : VcdVar) × Mem v vars
      × Accepted v
      × (t.ident ≡ v.ident)
      × (t.path ≡ v.path)
      × (t.width ≡ v.width)

  abbrev pub idents_of : List (TrackedSignal F) → List Text
  idents_of ts = map (λ (t : TrackedSignal F). t.ident) ts

  abbrev pub S : Type 0
  S = Selection F matches

  -- What one variable does to the selection.
  pub data Step (s : S) (v : VcdVar) : S → Type 0 where
    passed :
        (s' : S)
        → s'.tracked ≡ s.tracked
        → s'.seen ≡ s.seen
        → (Accepted v → (o.count_aliases ≡ false) × (has_text v.ident s.seen ≡ true))
        → Step s v s'
    taken :
        (s' : S)
        → s' ≡ track F matches o s v
        → Accepted v
        → (o.count_aliases ≡ false → has_text v.ident s.seen ≡ false)
        → Step s v s'

  pub consider-Step : (s : S) (v : VcdVar) → Step s v (consider F matches o s v)
  unfolding consider
  consider-Step s v = elim (Bool-cases (outside o.scopes v.path)) [
    | inl out ↦ passed _ (ground arith) (ground arith) (λ a. absurd (ground (arith, a.inside)))
    | inr within ↦
        elim (Bool-cases (
          has_text v.ident o.exclude_idents
          || not (togglable v)
          || any_match matches v.path o.excludes)) [
            | inl bad ↦
                passed _ (ground arith) (ground arith)
                  (λ a. absurd (ground (arith, a.allowed, a.toggles, a.kept)))
            | inr good ↦ elim (Bool-cases (not o.count_aliases && has_text v.ident s.seen)) [
              | inl alias ↦
                  passed _ (ground arith) (ground arith) (λ a. (ground arith, ground arith))
              | inr new ↦
                  taken _ (ground arith)
                    (record {
                      inside = within;
                      allowed = ground arith;
                      toggles = ground arith;
                      kept = ground arith;
                    })
                    (λ e. ground arith)
            ]
          ]
  ]
