-- ===== src/Trace/Selection.antt =====
-- Which signals `select_signals` tracks.
use mathlib.Core.List.{
  Perm, Mem, mem-cons_self, mem-cons_of_mem, map-append, eq-or-mem_of_mem-cons, not-mem-nil,
}
use mathlib.Core.Logic.Or
use mathlib.Core.HLevel.{⊥_prop}
use mathlib.Core.Bool.{false≢true}
use mathlib.Core.List.Perm
use lca.Prelude.{
  ◌≡◌, ◌∙◌, refl, ap, sym, subst, Bool, true, false, ◌||◌, List, [], ◌∷◌, ◌++◌, arith, Bool-cases,
  inl, inr, All, All-append,
}
use lca.Text.{Text, text_eq, text_eq_refl}
use lca.Floats.{Floats}
use lca.Vcd.{VcdVar, VcdFile, has_text}
use lca.Activity.{TrackedSignal}
use lca.Trace.Signals.{
  sort_vars, Options, start_selection, track, consider, consider_all, select_signals,
}
use lca.Trace.Distinct.{sort_vars-Perm, Distinct, Distinct-append, has_text-append, has_text-cons}
use lca.Trace.Considered.{Accepted, Tracks, idents_of, S, Step, passed, taken, consider-Step}

module _ (F : Floats) (matches : Text → Text → Bool) (o : Options F matches) where
  Tracks-cons :
      (vars : List VcdVar) (v : VcdVar) (s : S F matches o)
      → Mem v vars
      → Accepted F matches o v
      → All (Tracks F matches o vars) s.tracked
      → All (Tracks F matches o vars) (track F matches o s v).tracked
  Tracks-cons vars v s m a h =
      All-append (Tracks F matches o vars) s.tracked _ h ((v, m, a, refl, refl, refl), tt)

  -- What the loop keeps true of the signals tracked so far.
  record Inv (vars : List VcdVar) (s : S F matches o) : Type 0 where
    sound : All (Tracks F matches o vars) s.tracked
    seen : (i : Text) → has_text i s.seen ≡ has_text i (idents_of F matches o s.tracked)
    distinct : o.count_aliases ≡ false → Distinct (idents_of F matches o s.tracked)

  idents_track :
      (s : S F matches o) (v : VcdVar)
      → idents_of F matches o (track F matches o s v).tracked
        ≡ idents_of F matches o s.tracked ++ v.ident ∷ []
  idents_track s v = map-append _ s.tracked _

  has_text-track :
      (i : Text) (s : S F matches o) (v : VcdVar)
      → has_text i (idents_of F matches o (track F matches o s v).tracked)
        ≡ has_text i (idents_of F matches o s.tracked) || text_eq i v.ident
  has_text-track i s v =
      ap (has_text i) (idents_track s v)
      ∙ has_text-append i v.ident (idents_of F matches o s.tracked)

  Inv-Step :
      (vars : List VcdVar) (s s' : S F matches o) (v : VcdVar)
      → Mem v vars
      → Step F matches o s v s'
      → Inv vars s
      → Inv vars s'
  Inv-Step vars s s' v m (passed _ same same_seen _) inv = record {
    sound = rw same inv.sound;
    seen = λ i. rw (same, same_seen) (inv.seen i);
    distinct = λ e. rw same (inv.distinct e);
  }
  Inv-Step vars s s' v m (taken _ e a new) inv = subst (Inv vars) (sym e) (record {
    sound = Tracks-cons vars v s m a inv.sound;
    seen = λ i.
        has_text-cons i v.ident s.seen
        ∙ ap (λ (b : Bool). b || text_eq i v.ident) (inv.seen i)
        ∙ sym (has_text-track i s v);
    distinct = λ single. subst Distinct (sym (idents_track s v)) (
        Distinct-append v.ident (idents_of F matches o s.tracked)
          (sym (inv.seen v.ident) ∙ new single) (inv.distinct single));
  })

  -- After the loop, every accepted variable it met has its identifier tracked.
  abbrev Met : S F matches o → VcdVar → Type 0
  Met s v = Accepted F matches o v → has_text v.ident (idents_of F matches o s.tracked) ≡ true

  Met-Step :
      (vars : List VcdVar) (s s' : S F matches o) (v : VcdVar)
      → Inv vars s
      → Step F matches o s v s'
      → Met s' v
  Met-Step vars s s' v inv (passed _ same _ missed) a =
      rw same (sym (inv.seen v.ident) ∙ (missed a).1)
  Met-Step vars s s' v inv (taken _ e _ _) a =
      subst (λ (x : S F matches o). has_text v.ident (idents_of F matches o x.tracked) ≡ true)
        (sym e) (has_text-track v.ident s v ∙ ground (arith, text_eq_refl v.ident))

  tracked_stays :
      (i : Text) (s s' : S F matches o) (v : VcdVar)
      → Step F matches o s v s'
      → has_text i (idents_of F matches o s.tracked) ≡ true
      → has_text i (idents_of F matches o s'.tracked) ≡ true
  tracked_stays i s s' v (passed _ same _ _) h = rw same h
  tracked_stays i s s' v (taken _ e _ _) h =
      subst (λ (x : S F matches o). has_text i (idents_of F matches o x.tracked) ≡ true) (sym e)
        (has_text-track i s v ∙ rw h refl)

  Inv-loop :
      (all : List VcdVar) (vars : List VcdVar) (s : S F matches o)
      → All (λ v. Mem v all) vars
      → Inv all s
      → Inv all (consider_all F matches o s vars)
  unfolding consider_all
  Inv-loop all [] s m inv = inv
  Inv-loop all (v ∷ vars) s m inv =
      Inv-loop all vars (consider F matches o s v) m.1
        (Inv-Step all s (consider F matches o s v) v m.0 (consider-Step F matches o s v) inv)

  stays_loop :
      (i : Text) (s : S F matches o) (vars : List VcdVar)
      → has_text i (idents_of F matches o s.tracked) ≡ true
      → has_text i (idents_of F matches o (consider_all F matches o s vars).tracked) ≡ true
  unfolding consider_all
  stays_loop i s [] h = h
  stays_loop i s (v ∷ vars) h =
      stays_loop i (consider F matches o s v) vars
        (tracked_stays i s (consider F matches o s v) v (consider-Step F matches o s v) h)

  Met-loop :
      (all : List VcdVar) (vars : List VcdVar) (s : S F matches o)
      → All (λ v. Mem v all) vars
      → Inv all s
      → All (Met (consider_all F matches o s vars)) vars
  unfolding consider_all
  Met-loop all [] s m inv = tt
  Met-loop all (v ∷ vars) s m inv = (
    λ a.
        stays_loop v.ident (consider F matches o s v) vars
          (Met-Step all s (consider F matches o s v) v inv (consider-Step F matches o s v) a),
    Met-loop all vars (consider F matches o s v) m.1
        (Inv-Step all s (consider F matches o s v) v m.0 (consider-Step F matches o s v) inv),
  )

  Met-Mem :
      (s : S F matches o) (vars : List VcdVar) (v : VcdVar)
      → All (Met s) vars
      → Mem v vars
      → Met s v
  Met-Mem s vars v all m a =
      elim (Bool-cases (has_text v.ident (idents_of F matches o s.tracked))) [
        | inl met ↦ met
        | inr missed ↦ absurd (go vars all m missed)
      ]
    where
      go :
          (ws : List VcdVar)
          → All (Met s) ws
          → Mem v ws
          → has_text v.ident (idents_of F matches o s.tracked) ≡ false
          → ⊥
      go [] h mem f = not-mem-nil mem
      go (w ∷ ws) h mem f =
          Or.elim ⊥_prop (eq-or-mem_of_mem-cons mem)
            (λ e. false≢true (sym f ∙ subst (Met s) (sym e) h.0 a)) (λ m'. go ws h.1 m' f)

  -- What `select_signals` returns as tracked signals.
  pub record IsSelection (vars : List VcdVar) (tracked : List (TrackedSignal F)) : Type 0 where
    pub sound : All (Tracks F matches o vars) tracked
    pub complete :
        (v : VcdVar)
        → Mem v vars
        → Accepted F matches o v
        → has_text v.ident (idents_of F matches o tracked) ≡ true
    pub distinct : o.count_aliases ≡ false → Distinct (idents_of F matches o tracked)

  every_Mem : (vars : List VcdVar) → All (λ v. Mem v vars) vars
  every_Mem vars = go vars (λ v m. m)
    where
      go : (ws : List VcdVar) → ((v : VcdVar) → Mem v ws → Mem v vars) → All (λ v. Mem v vars) ws
      go [] f = tt
      go (w ∷ ws) f = (f w mem-cons_self, go ws (λ v m. f v (mem-cons_of_mem w m)))

  Tracks-Perm :
      (vs ws : List VcdVar)
      → Perm vs ws
      → (ts : List (TrackedSignal F)) → All (Tracks F matches o vs) ts
      → All (Tracks F matches o ws) ts
  Tracks-Perm vs ws p [] h = tt
  Tracks-Perm vs ws p (t ∷ ts) ((v, m, a, i, q, w), h) =
      ((v, (Perm.mem_iff p).0 m, a, i, q, w), Tracks-Perm vs ws p ts h)

  start-Inv : (vars : List VcdVar) → Inv vars (start_selection F matches)
  start-Inv vars = record { sound = tt; seen = λ i. refl; distinct = λ e. tt }

  -- Every tracked signal has the identifier, path and width of a declared variable that the options
  -- accept, every accepted variable has its identifier tracked, and unless aliases are counted no
  -- identifier is tracked twice.
  pub select_signals-IsSelection :
      (vcd : VcdFile) → IsSelection vcd.variables (select_signals F matches vcd o).0
  unfolding select_signals
  select_signals-IsSelection vcd = record {
    sound = Tracks-Perm vs vcd.variables (sort_vars-Perm vcd.variables) _ inv.sound;
    complete = λ v m a.
        Met-Mem (consider_all F matches o (start_selection F matches) vs) vs v
          (Met-loop vs vs (start_selection F matches) (every_Mem vs) (start-Inv vs))
          ((Perm.mem_iff (sort_vars-Perm vcd.variables)).1 m) a;
    distinct = inv.distinct;
  }
    where
      vs : List VcdVar
      vs = sort_vars vcd.variables

      inv : Inv vs (consider_all F matches o (start_selection F matches) vs)
      inv = Inv-loop vs vs (start_selection F matches) (every_Mem vs) (start-Inv vs)
