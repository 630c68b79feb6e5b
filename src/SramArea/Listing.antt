-- ===== src/SramArea/Listing.antt =====
-- What the report of tools/sram_area.py lists.
use mathlib.Core.List.{Perm, Mem, mem-cons_self, mem-cons_of_mem}
use mathlib.Core.List.Perm
use lca.Prelude.{
  ℕ, ◌≡◌, refl, subst, List, [], ◌∷◌, map, ok, arith, Bool-cases, Result-cases, inl, inr,
  map_result, All,
}
use lca.Text.{Text}
use lca.Floats.{Floats}
use lca.SramArea.Macros.{Macro}
use lca.SramArea.Others.{macros}
use lca.SramArea.Report.{
  Entry, skipped, planned, entry_name, entry_area, area_below, insert_entry, sort_entries, entry_of,
  target_plans,
}
use lca.SramArea.Entries.{Describes, entry_of-Describes}

module _ (F : Floats) (round_to : F.Float → ℕ → F.Float) where
  abbrev E : Type 0
  E = Entry F round_to

  insert_entry-Perm : (e : E) (es : List E) → Perm (insert_entry F round_to e es) (e ∷ es)
  unfolding insert_entry
  insert_entry-Perm e [] = Perm.refl (e ∷ [])
  insert_entry-Perm e (x ∷ xs) =
      elim (Bool-cases
        (area_below F round_to (entry_area F round_to x) (entry_area F round_to e))) [
          | inl below ↦
              rw below (Perm.trans (Perm.cons x (insert_entry-Perm e xs)) (Perm.swap e x xs))
          | inr above ↦ rw above (Perm.refl (e ∷ x ∷ xs))
        ]

  sort_entries-Perm : (es : List E) → Perm (sort_entries F round_to es) es
  unfolding sort_entries
  sort_entries-Perm [] = Perm.refl []
  sort_entries-Perm (e ∷ es) =
      Perm.trans (insert_entry-Perm e (sort_entries F round_to es))
        (Perm.cons e (sort_entries-Perm es))

  module _ (target bus : ℕ) where
    -- The entry is about a macro of the list.
    abbrev pub Fine : List (Macro F) → E → Type 0
    Fine ms e = (m : Macro F) × Mem m ms × Describes F round_to target bus m e

    Fine-cons :
        (m : Macro F) (ms : List (Macro F)) (es : List E)
        → All (Fine ms) es
        → All (Fine (m ∷ ms)) es
    Fine-cons m ms [] a = tt
    Fine-cons m ms (e ∷ es) ((n, mem, d), rest) =
        ((n, mem-cons_of_mem m mem, d), Fine-cons m ms es rest)

    insert_entry-All :
        (ms : List (Macro F)) (e : E) (es : List E)
        → Fine ms e
        → All (Fine ms) es
        → All (Fine ms) (insert_entry F round_to e es)
    unfolding insert_entry
    insert_entry-All ms e [] f a = (f, tt)
    insert_entry-All ms e (x ∷ xs) f a =
        elim (Bool-cases
          (area_below F round_to (entry_area F round_to x) (entry_area F round_to e))) [
            | inl below ↦ rw below (a.0, insert_entry-All ms e xs f a.1)
            | inr above ↦ rw above (f, a)
          ]

    sort_entries-All :
        (ms : List (Macro F)) (es : List E)
        → All (Fine ms) es
        → All (Fine ms) (sort_entries F round_to es)
    unfolding sort_entries
    sort_entries-All ms [] a = tt
    sort_entries-All ms (e ∷ es) a =
        insert_entry-All ms e (sort_entries F round_to es) a.0 (sort_entries-All ms es a.1)

    entry_name-Describes :
        (m : Macro F) (e : E)
        → Describes F round_to target bus m e
        → entry_name F round_to e ≡ m.name
    entry_name-Describes m (skipped name reason) d = d
    entry_name-Describes m (planned r) d = d.0

    abbrev Lists : List (Macro F) → List E → Type 0
    Lists ms es =
        (map (entry_name F round_to) es ≡ map (λ (m : Macro F). m.name) ms) × All (Fine ms) es

    Lists-cons :
        (m : Macro F) (ms : List (Macro F)) (e : E) (es : List E)
        → Describes F round_to target bus m e
        → Lists ms es
        → Lists (m ∷ ms) (e ∷ es)
    Lists-cons m ms e es d (names, all) = (
      rw (entry_name-Describes m e d, names) refl,
      ((m, mem-cons_self, d), Fine-cons m ms es all),
    )

    entries-Lists :
        (x y margin : F.Float) (ms : List (Macro F)) (es : List E)
        → map_result (entry_of F round_to target bus x y margin) ms ≡ ok es
        → Lists ms es
    entries-Lists x y margin [] es h = subst (Lists []) (nothing h) (refl, tt)
      where
        nothing : map_result (entry_of F round_to target bus x y margin) [] ≡ ok es → [] ≡ es
        nothing e = ground arith
    entries-Lists x y margin (m ∷ ms) es h =
        elim (Result-cases (entry_of F round_to target bus x y margin m)) [
          | inr (problem, failed) ↦ absurd (ground arith)
          | inl (e, fine) ↦
              elim (Result-cases (map_result (entry_of F round_to target bus x y margin) ms)) [
                | inr (problem, failed) ↦ absurd (ground arith)
                | inl (rest, finished) ↦ subst (Lists (m ∷ ms)) (collected e rest fine finished) (
                    Lists-cons m ms e rest
                      (entry_of-Describes F round_to target bus x y margin m e fine)
                      (entries-Lists x y margin ms rest finished))
              ]
        ]
      where
        collected :
            (e : E) (rest : List E)
            → entry_of F round_to target bus x y margin m ≡ ok e
            → map_result (entry_of F round_to target bus x y margin) ms ≡ ok rest
            → e ∷ rest ≡ es
        collected e rest fine finished = ground arith

    -- When the plans of a target are returned, they name every macro of the table exactly once, and
    -- each that is not skipped is about a macro of the table and covers the target and the bus with
    -- no row to spare.
    pub target_plans-Describes :
        (x y margin : F.Float) (plans : List E)
        → target_plans F round_to bus x y margin target ≡ ok plans
        → Perm (map (entry_name F round_to) plans) (map (λ (m : Macro F). m.name) (macros F))
          × All (Fine (macros F)) plans
    unfolding target_plans
    target_plans-Describes x y margin plans h =
        elim (Result-cases (map_result (entry_of F round_to target bus x y margin) (macros F))) [
          | inr (problem, failed) ↦ absurd (ground arith)
          | inl (es, fine) ↦
              subst
                (λ (l : List E).
                  Perm (map (entry_name F round_to) l) (map (λ (m : Macro F). m.name) (macros F))
                  × All (Fine (macros F)) l)
                (sorted es fine) (finish es (entries-Lists x y margin (macros F) es fine))
        ]
      where
        sorted :
            (es : List E)
            → map_result (entry_of F round_to target bus x y margin) (macros F) ≡ ok es
            → sort_entries F round_to es ≡ plans
        sorted es fine = ground arith

        finish :
            (es : List E)
            → Lists (macros F) es
            → Perm
                (map (entry_name F round_to) (sort_entries F round_to es))
                (map (λ (m : Macro F). m.name) (macros F))
              × All (Fine (macros F)) (sort_entries F round_to es)
        finish es (names, all) = (
          subst
              (λ (l : List Text). Perm (map (entry_name F round_to) (sort_entries F round_to es)) l)
              names (Perm.map (entry_name F round_to) (sort_entries-Perm es)),
          sort_entries-All (macros F) es all,
        )
