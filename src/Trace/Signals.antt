-- ===== src/Trace/Signals.antt =====
-- tools/power_trace_from_vcd.py: which signals are tracked, and which identifier a name stands for.
-- `matches path pattern` is `fnmatch.fnmatch`.
use lca.Prelude.{
  ◌==◌, ltb, ◌&&◌, ◌||◌, not, Bool, true, false, if◌then◌else◌, List, [], ◌∷◌, ◌++◌, Option, none,
  some, pos, Result, ok, err,
}
use lca.Text.{Text, codes, text_eq, starts_with}
use lca.Floats.{Floats}
use lca.Vcd.{
  VcdError, VcdVar, VcdFile, togglable, has_text, multiple_identifiers, signal_not_found,
  ambiguous_signal,
}
use lca.Activity.{TrackedSignal}

-- `s < t` on strings.
unfoldable pub text_lt : Text → Text → Bool
text_lt s [] = false
text_lt [] (d ∷ t) = true
text_lt (c ∷ s) (d ∷ t) = if c == d then text_lt s t else ltb c d

-- The order of the pairs `(path, ident)`.
abbrev pub var_lt : VcdVar → VcdVar → Bool
unfolding text_lt
var_lt v w = if text_eq v.path w.path then text_lt v.ident w.ident else text_lt v.path w.path

unfoldable pub insert_var : VcdVar → List VcdVar → List VcdVar
unfolding text_lt
insert_var v [] = v ∷ []
insert_var v (w ∷ ws) = if var_lt w v then w ∷ insert_var v ws else v ∷ w ∷ ws

unfoldable pub sort_vars : List VcdVar → List VcdVar
unfolding insert_var
sort_vars [] = []
sort_vars (v ∷ vs) = insert_var v (sort_vars vs)

unfoldable pub in_scope : List Text → Text → Bool
unfolding starts_with
in_scope [] path = false
in_scope (scope ∷ scopes) path =
    text_eq path scope || starts_with (scope ++ codes ".") path || in_scope scopes path

-- `scopes and not any(…)`
abbrev pub outside : List Text → Text → Bool
outside [] path = false
outside (scope ∷ scopes) path = not (in_scope (scope ∷ scopes) path)

abbrev pub any_match : (Text → Text → Bool) → Text → List Text → Bool
any_match matches path [] = false
any_match matches path (p ∷ ps) = matches path p || any_match matches path ps

module _ (F : Floats) (matches : Text → Text → Bool) where
  open F use {Float, of_int}

  -- The last pattern that matches gives the factor.
  abbrev pub weight_of : Float → Text → List (Text × Float) → Float
  weight_of weight path [] = weight
  weight_of weight path ((pattern_text, factor) ∷ weights) =
      weight_of (if matches path pattern_text then factor else weight) path weights

  pub record Options : Type 0 where
    pub scopes : List Text
    pub excludes : List Text
    pub weights : List (Text × Float)
    pub exclude_idents : List Text
    pub count_aliases : Bool

  pub record Selection : Type 0 where
    pub tracked : List (TrackedSignal F)
    pub skipped : List Text
    pub seen : List Text

  abbrev pub start_selection : Selection
  start_selection = record { tracked = []; skipped = []; seen = [] }

  abbrev pub skip : Selection → VcdVar → Selection
  skip s var = record s { skipped = s.skipped ++ var.path ∷ [] }

  abbrev pub track : Options → Selection → VcdVar → Selection
  track o s var = record s {
    tracked =
        s.tracked
        ++ record {
          ident = var.ident;
          path = var.path;
          width = var.width;
          weight = weight_of (of_int (pos 1)) var.path o.weights;
        }
          ∷ [];
    seen = var.ident ∷ s.seen;
  }

  unfoldable pub consider : Options → Selection → VcdVar → Selection
  unfolding has_text
  consider o s var =
      if outside o.scopes var.path
      then s
      else if has_text var.ident o.exclude_idents
          || not (togglable var)
          || any_match matches var.path o.excludes
      then skip s var
      else if not o.count_aliases && has_text var.ident s.seen
      then s
      else track o s var

  unfoldable pub consider_all : Options → Selection → List VcdVar → Selection
  consider_all o s [] = s
  consider_all o s (var ∷ vars) = consider_all o (consider o s var) vars

  unfoldable pub select_signals : VcdFile → Options → List (TrackedSignal F) × List Text
  unfolding sort_vars consider_all
  select_signals vcd o =
      let s = consider_all o start_selection (sort_vars vcd.variables) in (s.tracked, s.skipped)

-- The different identifiers of the variables that pass a test: `{var.ident for var in … if …}`.
unfoldable pub idents_where : (VcdVar → Bool) → List VcdVar → List Text
unfolding has_text
idents_where p [] = []
idents_where p (var ∷ vars) =
    let rest = idents_where p vars in
    if p var then (if has_text var.ident rest then rest else var.ident ∷ rest) else rest

abbrev pub has_path : Text → VcdVar → Bool
has_path spec var = text_eq var.path spec

abbrev pub has_name : Text → VcdVar → Bool
has_name spec var = text_eq var.name spec

abbrev pub by_name : Text → List Text → Result VcdError (Option Text)
by_name spec [] = err (signal_not_found spec)
by_name spec (ident ∷ []) = ok (some ident)
by_name spec (ident ∷ other ∷ more) = err (ambiguous_signal spec)

abbrev pub by_path : VcdFile → Text → List Text → Result VcdError (Option Text)
by_path vcd spec [] = by_name spec (idents_where (has_name spec) vcd.variables)
by_path vcd spec (ident ∷ []) = ok (some ident)
by_path vcd spec (ident ∷ other ∷ more) = err (multiple_identifiers spec)

-- An absent specification is the empty one here.
unfoldable pub resolve_signal : VcdFile → Text → Result VcdError (Option Text)
unfolding idents_where
resolve_signal vcd [] = ok none
resolve_signal vcd (c ∷ s) = by_path vcd (c ∷ s) (idents_where (has_path (c ∷ s)) vcd.variables)
