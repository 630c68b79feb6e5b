-- ===== src/Fabrication/Access.antt =====
-- tools/validate_fabrication.py: how the checks read the two manifests. An exception that the
-- checks do not catch is a `Crash`. A value that is iterated or joined and is no list crashes,
-- an empty text or dictionary included. A message holds its text, and the value that fills it.
use Prim.Native.String.{String}
use lca.Prelude.{
  ℕ, ◌+◌, ◌/◌, ◌%◌, ltb, leb, ◌==◌, ◌&&◌, ◌||◌, not, Bool, true, false, if◌then◌else◌, List, [],
  ◌∷◌, ◌++◌, none, some, pos, Result, ok, err, ◌>>=◌, ◌>>◌, raise_if, map_result, length,
}
use lca.Floats.{Floats}
use lca.Text.{Text, codes, find?}
use lca.Json.{
  Json, null, bool, int, string, array, object, Fields, end, get, has_key, to_list, count_items,
  count_fields, json_eq,
}

pub data Crash : Type 0 where
  attribute_error type_error index_error key_error value_error : Crash

-- `word in text`
abbrev pub has_word : Text → Text → Bool
unfolding find?
has_word word text = elim (find? word text) [ none ↦ false | some around ↦ true ]

-- `"\n".join(texts)`, as what a word is sought in: no word of the checks holds a line feed.
abbrev pub any_has : Text → List Text → Bool
unfolding find?
any_has word [] = false
any_has word (t ∷ ts) = has_word word t || any_has word ts

module _ (F : Floats) where
  open F use {Float}

  pub data Problem : Type 0 where
    says : Text → Problem
    about : Text → Json Float → Problem

  -- `_expect(errors, condition, message)`: what it appends.
  abbrev pub expect : Bool → String → List Problem
  expect true message = []
  expect false message = says (codes message) ∷ []

  abbrev pub expect_about : Bool → String → Json Float → List Problem
  expect_about true message value = []
  expect_about false message value = about (codes message) value ∷ []

  -- The errors of several checks, in order.
  abbrev pub gather : List (List Problem) → List Problem
  gather [] = []
  gather (errors ∷ later) = errors ++ gather later

  -- `d.get(k)`
  abbrev pub value_at : Text → Fields Float → Json Float
  value_at k d = elim (get k d) [ none ↦ null | some v ↦ v ]

  abbrev pub as_dict : Json Float → Result Crash (Fields Float)
  as_dict (object d) = ok d
  as_dict v = err attribute_error

  -- `d.get(k, {})`, on which `get` is called.
  abbrev pub dict_at : Text → Fields Float → Result Crash (Fields Float)
  dict_at k d = elim (get k d) [ none ↦ ok end | some v ↦ as_dict v ]

  abbrev pub as_list : Json Float → Result Crash (List (Json Float))
  as_list (array xs) = ok (to_list xs)
  as_list v = err type_error

  -- `d.get(k, [])`, which is iterated.
  abbrev pub list_at : Text → Fields Float → Result Crash (List (Json Float))
  list_at k d = elim (get k d) [ none ↦ ok [] | some v ↦ as_list v ]

  -- The same where `get` is called on the items.
  abbrev pub dicts_at : Text → Fields Float → Result Crash (List (Fields Float))
  dicts_at k d = list_at k d >>= map_result as_dict

  abbrev pub as_text : Json Float → Result Crash Text
  as_text (string s) = ok s
  as_text v = err type_error

  -- `d.get(k, "")` where a text is needed.
  abbrev pub text_at : Text → Fields Float → Result Crash Text
  text_at k d = elim (get k d) [ none ↦ ok [] | some v ↦ as_text v ]

  abbrev pub is_text : Json Float → Text → Bool
  unfolding json_eq
  is_text v t = json_eq F v (string t)

  abbrev pub is_number : Json Float → ℕ → Bool
  unfolding json_eq
  is_number v n = json_eq F v (int (pos n))

  -- `v is True` and `v is False`
  abbrev pub is_true : Json Float → Bool
  is_true (bool b) = b
  is_true v = false

  abbrev pub is_false : Json Float → Bool
  is_false (bool b) = not b
  is_false v = false

  -- `value in values`
  unfoldable pub is_in : Json Float → List (Json Float) → Bool
  unfolding json_eq
  is_in v [] = false
  is_in v (w ∷ ws) = json_eq F v w || is_in v ws

  -- `word in v`, where `v` is a text, a list or a dictionary.
  unfoldable pub contains : Text → Json Float → Result Crash Bool
  unfolding find? is_in
  contains word (string text) = ok (has_word word text)
  contains word (array xs) = ok (is_in (string word) (to_list xs))
  contains word (object d) = ok (has_key word d)
  contains word v = err type_error

  -- `len(v)`
  abbrev pub len_of : Json Float → Result Crash ℕ
  len_of (string t) = ok (length t)
  len_of (array xs) = ok (count_items xs)
  len_of (object d) = ok (count_fields d)
  len_of v = err type_error

  -- Whether a value can be an element of a set.
  abbrev pub is_hashable : Json Float → Bool
  is_hashable (array xs) = false
  is_hashable (object d) = false
  is_hashable v = true

  abbrev pub all_hashable : List (Json Float) → Bool
  all_hashable [] = true
  all_hashable (v ∷ vs) = is_hashable v && all_hashable vs

  -- The loop of `_duplicate_values`, whose result is only asked for whether it is empty: the
  -- values that are equal to one before them.
  unfoldable pub duplicates_after : List (Json Float) → List (Json Float) → List (Json Float)
  unfolding is_in
  duplicates_after seen [] = []
  duplicates_after seen (v ∷ vs) =
      let later = duplicates_after (v ∷ seen) vs in if is_in v seen then v ∷ later else later

  unfoldable pub duplicate_values : List (Json Float) → Result Crash (List (Json Float))
  unfolding duplicates_after
  duplicate_values values = do
    raise_if (not (all_hashable values)) type_error
    ok (duplicates_after [] values)

  -- `_expect(errors, not _duplicate_values(values), message)`
  abbrev pub expect_unique : List (Json Float) → String → Result Crash (List Problem)
  expect_unique values message = duplicate_values values >>= λ repeated.
      ok (elim repeated [ [] ↦ [] | v ∷ vs ↦ says (codes message) ∷ [] ])

  unfoldable pub all_in : List (Json Float) → List (Json Float) → Bool
  unfolding is_in
  all_in [] ws = true
  all_in (v ∷ vs) ws = is_in v ws && all_in vs ws

  -- `set(values) == set(expected)`
  abbrev pub same_set : List (Json Float) → List (Json Float) → Result Crash Bool
  unfolding all_in
  same_set values expected = do
    raise_if (not (all_hashable values)) type_error
    ok (all_in values expected && all_in expected values)

  -- `value in {...}`
  abbrev pub in_set : Json Float → List (Json Float) → Result Crash Bool
  unfolding is_in
  in_set v values = do raise_if (not (is_hashable v)) type_error; ok (is_in v values)

  abbrev pub texts : List Text → List (Json Float)
  texts [] = []
  texts (t ∷ ts) = string t ∷ texts ts

  abbrev pub values_of : Text → List (Fields Float) → List (Json Float)
  values_of k [] = []
  values_of k (d ∷ ds) = value_at k d ∷ values_of k ds

-- The decimal digits of a number below 100.
abbrev pub decimal : ℕ → Text
decimal n = if ltb n 10 then (n + b'0') ∷ [] else (n / 10 + b'0') ∷ (n % 10 + b'0') ∷ []

-- `f"{name}[{n}]"`
abbrev pub indexed : String → ℕ → Text
indexed name n = codes name ++ b'[' ∷ decimal n ++ b']' ∷ []

abbrev pub all_lower_hex : Text → Bool
all_lower_hex [] = true
all_lower_hex (c ∷ s) = (leb b'0' c && leb c b'9' || leb b'a' c && leb c b'f') && all_lower_hex s

-- `re.fullmatch(r"[0-9a-f]{40}", text)`
abbrev pub is_commit : Text → Bool
is_commit s = length s == 40 && all_lower_hex s
