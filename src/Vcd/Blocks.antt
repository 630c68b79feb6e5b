-- ===== src/Vcd/Blocks.antt =====
-- The change blocks that `parse_vcd` returns stand in the order of their times.
use mathlib.Core.List.{head?, map-append}
use lca.Prelude.{
  ℕ, ℤ, pos, ◌<ℤ◌, ◌==ℤ◌, ◌≡◌, ◌∙◌, refl, sym, subst, List, [], ◌∷◌, ◌++◌, map, some, ok, arith,
  Bool-cases, Option-cases, Result-cases, inl, inr, ◌⊎◌,
}
use lca.Text.{Text, strip, int_of}
use lca.Dict.{Dict}
use lca.Vcd.Parse.{
  TimeBlock, Body, blocks, time_stamp, vector_change, real_change, string_change, scalar_change,
  read_record, read_line, read_lines,
}

abbrev pub times : List TimeBlock → List ℤ
times bs = map (λ (b : TimeBlock). b.time) bs

-- Strictly increasing.
abbrev pub Rising : List ℤ → Type 0
Rising [] = Unit
Rising (x ∷ []) = Unit
Rising (x ∷ y ∷ r) = (x <ℤ y) × Rising (y ∷ r)

Rising-append :
    (xs : List ℤ) (a c : ℤ) → Rising (xs ++ a ∷ []) → a <ℤ c → Rising ((xs ++ a ∷ []) ++ c ∷ [])
Rising-append [] a c h lt = (lt, tt)
Rising-append (x ∷ []) a c h lt = (h.0, (lt, tt))
Rising-append (x ∷ y ∷ r) a c h lt = (h.0, Rising-append (y ∷ r) a c h.1 lt)

-- The times of a body's blocks rise from zero.
pub record IsOrdered (b : Body) : Type 0 where
  pub rising : Rising (times b.closed ++ b.time ∷ [])
  pub first : head? (times b.closed ++ b.time ∷ []) ≡ some (pos 0)

pub times_closed : (b : Body) → times (blocks b) ≡ times b.closed ++ b.time ∷ []
times_closed b = map-append _ b.closed _

head-append : (xs : List ℤ) (a c : ℤ) → head? ((xs ++ a ∷ []) ++ c ∷ []) ≡ head? (xs ++ a ∷ [])
head-append [] a c = refl
head-append (x ∷ xs) a c = refl

IsOrdered-same :
    (b b' : Body) → (b'.closed ≡ b.closed) × (b'.time ≡ b.time) → IsOrdered b → IsOrdered b'
IsOrdered-same b b' (c, t) h = record { rising = rw (c, t) h.rising; first = rw (c, t) h.first }

IsOrdered-stamp :
    (b : Body) (stamp : ℤ)
    → IsOrdered b
    → b.time <ℤ stamp
    → IsOrdered (record b { closed = blocks b; time = stamp; changes = [] })
IsOrdered-stamp b stamp h lt = record {
  rising = rw (times_closed b) (Rising-append (times b.closed) b.time stamp h.rising lt);
  first = rw (times_closed b) (head-append (times b.closed) b.time stamp ∙ h.first);
}

abbrev KeepsTimes : Body → Body → Type 0
KeepsTimes b b' = (b'.closed ≡ b.closed) × (b'.time ≡ b.time)

module _ (ws : Dict ℤ) (b b' : Body) where
  vector_change-KeepsTimes : (line : Text) → vector_change ws b line ≡ ok b' → KeepsTimes b b'
  unfolding vector_change
  vector_change-KeepsTimes line h = ground arith

  real_change-KeepsTimes : (line : Text) → real_change b line ≡ ok b' → KeepsTimes b b'
  unfolding real_change
  real_change-KeepsTimes line h = ground arith

  string_change-KeepsTimes : (line : Text) → string_change b line ≡ ok b' → KeepsTimes b b'
  unfolding string_change
  string_change-KeepsTimes line h = ground arith

  scalar_change-KeepsTimes :
      (head : ℕ) (tail line : Text) → scalar_change ws b head tail line ≡ ok b' → KeepsTimes b b'
  unfolding scalar_change
  scalar_change-KeepsTimes head tail line h = ground arith

-- What a time stamp line does: nothing at the same time, or a new block at a later one.
time_stamp_cases :
    (b b' : Body) (line digits : Text)
    → time_stamp b line digits ≡ ok b'
    → (b' ≡ b)
      ⊎ ((stamp : ℤ) × (b.time <ℤ stamp)
          × (b' ≡ record b { closed = blocks b; time = stamp; changes = [] }))
unfolding time_stamp
time_stamp_cases b b' line digits h = elim (Option-cases (int_of digits)) [
  | inl no_number ↦ ground arith
  | inr (stamp, number) ↦ elim (Bool-cases (stamp ==ℤ b.time)) [
    | inl same ↦ inl (ground arith)
    | inr other ↦ inr (stamp, ground arith, ground arith)
  ]
]

time_stamp-IsOrdered :
    (b b' : Body) (line digits : Text)
    → time_stamp b line digits ≡ ok b'
    → IsOrdered b
    → IsOrdered b'
time_stamp-IsOrdered b b' line digits h o = elim (time_stamp_cases b b' line digits h) [
  | inl same ↦ subst IsOrdered (sym same) o
  | inr (stamp, later, e) ↦ subst IsOrdered (sym e) (IsOrdered-stamp b stamp o later)
]

read_record_cases :
    (ws : Dict ℤ) (b b' : Body) (head : ℕ) (tail : Text)
    → read_record ws b head tail ≡ ok b'
    → KeepsTimes b b' ⊎ (time_stamp b (head ∷ tail) tail ≡ ok b')
unfolding read_record
read_record_cases ws b b' head tail h = ground (
  arith,
  vector_change-KeepsTimes ws b b' (head ∷ tail),
  real_change-KeepsTimes ws b b' (head ∷ tail),
  string_change-KeepsTimes ws b b' (head ∷ tail),
  scalar_change-KeepsTimes ws b b' head tail (head ∷ tail),
)

read_record-IsOrdered :
    (ws : Dict ℤ) (b b' : Body) (head : ℕ) (tail : Text)
    → read_record ws b head tail ≡ ok b'
    → IsOrdered b
    → IsOrdered b'
read_record-IsOrdered ws b b' head tail h o = elim (read_record_cases ws b b' head tail h) [
  | inl same ↦ IsOrdered-same b b' same o
  | inr stamped ↦ time_stamp-IsOrdered b b' (head ∷ tail) tail stamped o
]

read_line_cases :
    (ws : Dict ℤ) (b b' : Body) (line : Text)
    → read_line ws b line ≡ ok b'
    → KeepsTimes b b' ⊎ ((head : ℕ) × (tail : Text) × (read_record ws b head tail ≡ ok b'))
unfolding read_line
read_line_cases ws b b' line h = go (strip line) refl
  where
    go :
        (s : Text)
        → strip line ≡ s
        → KeepsTimes b b' ⊎ ((head : ℕ) × (tail : Text) × (read_record ws b head tail ≡ ok b'))
    go [] e = inl (ground arith)
    go (head ∷ tail) e = elim (Bool-cases b.in_comment) [
      | inl inside ↦ inl (ground arith)
      | inr outside ↦ inr (head, tail, ground arith)
    ]

read_line-IsOrdered :
    (ws : Dict ℤ) (b b' : Body) (line : Text)
    → read_line ws b line ≡ ok b'
    → IsOrdered b
    → IsOrdered b'
read_line-IsOrdered ws b b' line h o = elim (read_line_cases ws b b' line h) [
  | inl same ↦ IsOrdered-same b b' same o
  | inr (head, tail, stepped) ↦ read_record-IsOrdered ws b b' head tail stepped o
]

pub read_lines-IsOrdered :
    (ws : Dict ℤ) (b : Body) (lines : List Text) (b' : Body)
    → read_lines ws b lines ≡ ok b'
    → IsOrdered b
    → IsOrdered b'
unfolding read_lines
read_lines-IsOrdered ws b [] b' h o = subst IsOrdered (ground arith) o
read_lines-IsOrdered ws b (line ∷ lines) b' h o = elim (Result-cases (read_line ws b line)) [
  | inl (mid, fine) ↦
      read_lines-IsOrdered ws mid lines b' (ground arith) (read_line-IsOrdered ws b mid line fine o)
  | inr (problem, failed) ↦ absurd (ground arith)
]
