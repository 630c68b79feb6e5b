-- ===== src/Trace/Resolve.antt =====
-- What `resolve_signal` finds.
use lca.Prelude.{
  ◌≡◌, ◌≢◌, ◌↔◌, ◌⊎◌, ◌∙◌, refl, sym, subst, Bool, true, false, List, [], ◌∷◌, some, ok, arith,
  Bool-cases, inl, inr, All,
}
use lca.Text.{Text, text_eq→eq, text_eq_refl}
use lca.Vcd.{VcdVar, VcdFile, has_text}
use lca.Trace.Signals.{idents_where, has_path, has_name, by_name, by_path, resolve_signal}

-- Every variable that passes the test has the identifier.
abbrev pub Only : (VcdVar → Bool) → Text → List VcdVar → Type 0
Only p ident vars = All (λ v. p v ≡ true → v.ident ≡ ident) vars

-- Some variable passes the test and has the identifier.
abbrev pub Occurs : (VcdVar → Bool) → Text → List VcdVar → Type 0
Occurs p ident [] = ⊥
Occurs p ident (v ∷ vars) = ((p v ≡ true) × (v.ident ≡ ident)) ⊎ Occurs p ident vars

-- No variable passes the test.
abbrev pub Absent : (VcdVar → Bool) → List VcdVar → Type 0
Absent p vars = All (λ v. p v ≡ false) vars

-- The variables that pass the test have this one identifier.
abbrev pub Names : (VcdVar → Bool) → Text → List VcdVar → Type 0
Names p ident vars = Only p ident vars × Occurs p ident vars

module _ (p : VcdVar → Bool) where
  -- How one more variable extends the set.
  idents_where_cases :
      (v : VcdVar) (vars : List VcdVar)
      → ((p v ≡ false) × (idents_where p (v ∷ vars) ≡ idents_where p vars))
        ⊎ ((p v ≡ true)
            × (has_text v.ident (idents_where p vars) ≡ true)
            × (idents_where p (v ∷ vars) ≡ idents_where p vars))
        ⊎ ((p v ≡ true) × (idents_where p (v ∷ vars) ≡ v.ident ∷ idents_where p vars))
  unfolding idents_where
  idents_where_cases v vars = elim (Bool-cases (p v)) [
    | inr out ↦ inl (out, ground arith)
    | inl passes ↦ elim (Bool-cases (has_text v.ident (idents_where p vars))) [
      | inl old ↦ inr (inl (passes, old, ground arith))
      | inr new ↦ inr (inr (passes, ground arith))
    ]
  ]

  idents_where-Absent : (vars : List VcdVar) → idents_where p vars ≡ [] → Absent p vars
  unfolding has_text
  idents_where-Absent [] h = tt
  idents_where-Absent (v ∷ vars) h = elim (idents_where_cases v vars) [
    | inl (out, same) ↦ (out, idents_where-Absent vars (sym same ∙ h))
    | inr (inl (passes, old, same)) ↦ absurd (ground arith)
    | inr (inr (passes, longer)) ↦ absurd (ground arith)
  ]

  Absent-idents_where : (vars : List VcdVar) → Absent p vars → idents_where p vars ≡ []
  unfolding idents_where
  Absent-idents_where [] a = refl
  Absent-idents_where (v ∷ vars) a = ground (arith, a.0, Absent-idents_where vars a.1)

  Only-Absent : (i : Text) (vars : List VcdVar) → Absent p vars → Only p i vars
  Only-Absent i [] a = tt
  Only-Absent i (v ∷ vars) a = (λ e. absurd (ground arith), Only-Absent i vars a.1)

  only_one : (t i : Text) → has_text t (i ∷ []) ≡ true → t ≡ i
  unfolding has_text
  only_one t i h = text_eq→eq t i (ground arith)

  idents_where-Names :
      (i : Text) (vars : List VcdVar) → idents_where p vars ≡ i ∷ [] → Names p i vars
  idents_where-Names i [] h = absurd (unfold idents_where in ground arith)
  idents_where-Names i (v ∷ vars) h = elim (idents_where_cases v vars) [
    | inl (out, same) ↦
        let (only, occurs) = idents_where-Names i vars (sym same ∙ h) in
        ((λ e. absurd (ground arith), only), inr occurs)
    | inr (inl (passes, old, same)) ↦
        let (only, occurs) = idents_where-Names i vars (sym same ∙ h) in
        (
          (
            λ e. only_one v.ident i (subst (λ l. has_text v.ident l ≡ true) (sym same ∙ h) old),
            only,
          ),
          inr occurs,
        )
    | inr (inr (passes, longer)) ↦ (
      (λ e. ground arith, Only-Absent i vars (idents_where-Absent vars (ground arith))),
      inl (passes, ground arith),
    )
  ]

  Only-idents_where :
      (i : Text) (vars : List VcdVar)
      → Only p i vars
      → (idents_where p vars ≡ []) ⊎ (idents_where p vars ≡ i ∷ [])
  unfolding idents_where has_text
  Only-idents_where i [] o = inl refl
  Only-idents_where i (v ∷ vars) o = elim (idents_where_cases v vars) [
    | inl (out, same) ↦ elim (Only-idents_where i vars o.1) [
      | inl e ↦ inl (same ∙ e)
      | inr e ↦ inr (same ∙ e)
    ]
    | inr (inl (passes, old, same)) ↦ elim (Only-idents_where i vars o.1) [
      | inl e ↦ inl (same ∙ e)
      | inr e ↦ inr (same ∙ e)
    ]
    | inr (inr (passes, longer)) ↦ elim (Only-idents_where i vars o.1) [
      | inl e ↦ inr (ground (arith, o.0 passes))
      | inr e ↦ inr (ground (arith, o.0 passes, text_eq_refl i))
    ]
  ]

  Occurs-Absent : (i : Text) (vars : List VcdVar) → Occurs p i vars → Absent p vars → ⊥
  Occurs-Absent i [] o a = elim o [ ]
  Occurs-Absent i (v ∷ vars) (inl (passes, e)) a = absurd (ground arith)
  Occurs-Absent i (v ∷ vars) (inr later) a = Occurs-Absent i vars later a.1

  Names-idents_where :
      (i : Text) (vars : List VcdVar) → Names p i vars → idents_where p vars ≡ i ∷ []
  Names-idents_where i vars (only, occurs) = elim (Only-idents_where i vars only) [
    | inl e ↦ absurd (Occurs-Absent i vars occurs (idents_where-Absent vars e))
    | inr e ↦ e
  ]

by_name-some :
    (spec i : Text) (idents : List Text) → by_name spec idents ≡ ok (some i) → idents ≡ i ∷ []
by_name-some spec i [] h = absurd (ground arith)
by_name-some spec i (j ∷ []) h = ground arith
by_name-some spec i (j ∷ k ∷ more) h = absurd (ground arith)

by_path-some :
    (vcd : VcdFile) (spec i : Text) (idents : List Text)
    → by_path vcd spec idents ≡ ok (some i)
    → (idents ≡ i ∷ []) ⊎ ((idents ≡ []) × (idents_where (has_name spec) vcd.variables ≡ i ∷ []))
by_path-some vcd spec i [] h = inr (refl, by_name-some spec i _ h)
by_path-some vcd spec i (j ∷ []) h = inl (ground arith)
by_path-some vcd spec i (j ∷ k ∷ more) h = absurd (ground arith)

-- A specification resolves to an identifier exactly when it is not empty and either the variables
-- with that path have this one identifier, or there is none with that path and the variables with
-- that name have this one identifier.
pub resolve_signal-some_iff :
    (vcd : VcdFile) (spec i : Text)
    → (resolve_signal vcd spec ≡ ok (some i)) ↔ (
        (spec ≢ [])
        × (Names (has_path spec) i vcd.variables
            ⊎ (Absent (has_path spec) vcd.variables × Names (has_name spec) i vcd.variables)))
unfolding resolve_signal
resolve_signal-some_iff vcd [] i = (λ h. absurd (ground arith), λ h. absurd (h.0 refl))
resolve_signal-some_iff vcd (c ∷ s) i = (forth, back)
  where
    spec : Text
    spec = c ∷ s

    vars : List VcdVar
    vars = vcd.variables

    forth :
        resolve_signal vcd spec ≡ ok (some i)
        → (spec ≢ [])
          × (Names (has_path spec) i vars
              ⊎ (Absent (has_path spec) vars × Names (has_name spec) i vars))
    forth h = (
      λ e. cc,
      elim (by_path-some vcd spec i _ h) [
        | inl one ↦ inl (idents_where-Names (has_path spec) i vars one)
        | inr (nothing, one) ↦ inr (
          idents_where-Absent (has_path spec) vars nothing,
          idents_where-Names (has_name spec) i vars one,
        )
      ],
    )

    back :
        (spec ≢ [])
          × (Names (has_path spec) i vars
              ⊎ (Absent (has_path spec) vars × Names (has_name spec) i vars))
        → resolve_signal vcd spec ≡ ok (some i)
    back (some_spec, inl named) = rw (Names-idents_where (has_path spec) i vars named) refl
    back (some_spec, inr (absent, named)) =
        rw
          (
            Absent-idents_where (has_path spec) vars absent,
            Names-idents_where (has_name spec) i vars named,
          )
          refl
