-- ===== src/Dict.antt =====
-- Python's `dict` with text keys as an association list. No part of the program that is modelled
-- reads the order of the entries.
use lca.Prelude.{List, [], ◌∷◌, Option, none, some, if◌then◌else◌, ◌≡◌, refl, arith}
use lca.Text.{Text, text_eq, text_eq→eq, text_eq_refl}

abbrev pub Dict {ℓ} : Type ℓ → Type ℓ
Dict V = List (Text × V)

module _ {ℓ} {V : Type ℓ} where
  -- `d.get(k)`
  unfoldable pub lookup : Text → Dict V → Option V
  lookup k [] = none
  lookup k ((j, v) ∷ d) = if text_eq j k then some v else lookup k d

  -- `d[k] = v`
  unfoldable pub insert : Text → V → Dict V → Dict V
  insert k v [] = (k, v) ∷ []
  insert k v ((j, w) ∷ d) = if text_eq j k then (k, v) ∷ d else (j, w) ∷ insert k v d

  -- `d.setdefault(k, v)`
  unfoldable pub set_default : Text → V → Dict V → Dict V
  unfolding lookup
  set_default k v d = elim (lookup k d) [ none ↦ insert k v d | some w ↦ d ]

  -- `d.update(changes)`
  unfoldable pub update : Dict V → Dict V → Dict V
  update d [] = d
  update d ((k, v) ∷ changes) = update (insert k v d) changes

  -- `d.get(k, default)`
  unfoldable pub get_or : Text → V → Dict V → V
  unfolding lookup
  get_or k default d = elim (lookup k d) [ none ↦ default | some v ↦ v ]

  pub lookup-insert :
      (k j : Text) (v : V) (d : Dict V)
      → lookup j (insert k v d) ≡ (if text_eq k j then some v else lookup j d)
  unfolding lookup insert
  lookup-insert k j v [] = refl
  lookup-insert k j v ((i, w) ∷ d) = ground (
    arith,
    text_eq→eq k j,
    text_eq→eq i k,
    text_eq→eq i j,
    text_eq_refl k,
    text_eq_refl j,
    lookup-insert k j v d,
  )
