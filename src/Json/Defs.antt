-- ===== src/Json/Defs.antt =====
-- JSON values: `None`, `bool`, `int`, `float`, `str`, `list` and `dict`. The float type is a
-- parameter.
use lca.Prelude.{
  ℕ, suc, ◌==◌, Bool, true, false, ◌&&◌, List, [], ◌∷◌, Option, none, some, if◌then◌else◌, ℤ, pos,
  ltb_ℤ, ◌==ℤ◌,
}
use lca.Floats.{Floats}
use lca.Text.{Text, text_eq}

mutual
  pub data Json (R : Type 0) : Type 0 where
    null : Json R
    bool : Bool → Json R
    int : ℤ → Json R
    float : R → Json R
    string : Text → Json R
    array : Items R → Json R
    object : Fields R → Json R

  pub data Items (R : Type 0) : Type 0 where
    nil : Items R
    item : Json R → Items R → Items R

  pub data Fields (R : Type 0) : Type 0 where
    end : Fields R
    field : Text → Json R → Fields R → Fields R

abbrev pub int_of_bool : Bool → ℤ
int_of_bool false = pos 0
int_of_bool true = pos 1

module _ {R : Type 0} where
  -- `d.get(k)`
  abbrev pub get : Text → Fields R → Option (Json R)
  get k end = none
  get k (field j v fs) = if text_eq j k then some v else get k fs

  -- `k in d`
  abbrev pub has_key : Text → Fields R → Bool
  has_key k end = false
  has_key k (field j v fs) = if text_eq j k then true else has_key k fs

  abbrev pub count_items : Items R → ℕ
  count_items nil = 0
  count_items (item x xs) = suc (count_items xs)

  abbrev pub count_fields : Fields R → ℕ
  count_fields end = 0
  count_fields (field k v fs) = suc (count_fields fs)

  abbrev pub items_of : List (Json R) → Items R
  items_of [] = nil
  items_of (x ∷ xs) = item x (items_of xs)

  -- A dictionary display.
  abbrev pub fields_of : List (Text × Json R) → Fields R
  fields_of [] = end
  fields_of ((k, v) ∷ fs) = field k v (fields_of fs)

  abbrev pub to_list : Items R → List (Json R)
  to_list nil = []
  to_list (item x xs) = x ∷ to_list xs

module _ (F : Floats) where
  open F use {Float, of_int, lt, eq}

  -- A number of the language, and what compares with one.
  pub data Number : Type 0 where
    whole : ℤ → Number
    real : Float → Number

  abbrev pub number_of : Json Float → Option Number
  number_of (bool b) = some (whole (int_of_bool b))
  number_of (int n) = some (whole n)
  number_of (float x) = some (real x)
  number_of v = none

  abbrev pub less : Number → Number → Bool
  less (whole m) (whole n) = ltb_ℤ m n
  less (whole m) (real y) = lt (of_int m) y
  less (real x) (whole n) = lt x (of_int n)
  less (real x) (real y) = lt x y

  abbrev pub same_number : Number → Number → Bool
  same_number (whole m) (whole n) = m ==ℤ n
  same_number (whole m) (real y) = eq (of_int m) y
  same_number (real x) (whole n) = eq x (of_int n)
  same_number (real x) (real y) = eq x y

  abbrev pub number_eq : Option Number → Option Number → Bool
  number_eq (some m) (some n) = same_number m n
  number_eq m n = false

  -- `==`: a Boolean is a number, and a dictionary has no order.
  unfoldable mutual
    pub json_eq : Json Float → Json Float → Bool
    json_eq null null = true
    json_eq (string s) (string t) = text_eq s t
    json_eq (array xs) (array ys) = items_eq xs ys
    json_eq (object fs) (object gs) = count_fields fs == count_fields gs && fields_in fs gs
    json_eq v w = number_eq (number_of v) (number_of w)

    pub items_eq : Items Float → Items Float → Bool
    items_eq nil nil = true
    items_eq (item x xs) (item y ys) = json_eq x y && items_eq xs ys
    items_eq xs ys = false

    pub fields_in : Fields Float → Fields Float → Bool
    fields_in end gs = true
    fields_in (field k v fs) gs =
        elim (get k gs) [ none ↦ false | some w ↦ json_eq v w ] && fields_in fs gs
