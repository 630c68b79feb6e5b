-- ===== src/Text/Defs.antt =====
-- Python's `str` methods on lists of code points.
use Prim.Native.Char.{code}
use Prim.Native.String.{String}
use mathlib.Core.List.{reverse}
use lca.Prelude.{
  ℕ, ◌+◌, ◌-◌, ◌*◌, ◌==◌, leb, ◌&&◌, ◌||◌, Bool, true, false, List, [], ◌∷◌, ◌++◌, Option, none,
  some, if◌then◌else◌, ℤ, pos, sub_ℕ,
}

abbrev pub Text : Type 0
Text = List ℕ

abbrev pub codes : String → Text
codes String.[] = []
codes (String.◌∷◌ c s) = code c ∷ codes s

abbrev pub text_eq : Text → Text → Bool
text_eq [] [] = true
text_eq [] (y ∷ ys) = false
text_eq (x ∷ xs) [] = false
text_eq (x ∷ xs) (y ∷ ys) = x == y && text_eq xs ys

-- `c in text`
unfoldable pub has_char : ℕ → Text → Bool
has_char c [] = false
has_char c (x ∷ xs) = c == x || has_char c xs

-- `c.isspace()`
unfoldable pub is_space : ℕ → Bool
is_space c =
    leb 9 c && leb c 13
    || (leb 28 c && leb c 32)
    || (c == 133 || c == 160 || c == 5760)
    || leb 8192 c && leb c 8202
    || (c == 8232 || c == 8233 || c == 8239)
    || (c == 8287 || c == 12288)

unfoldable pub is_digit : ℕ → Bool
is_digit c = leb b'0' c && leb c b'9'

-- `text.startswith(prefix)`, and what follows the prefix.
unfoldable pub strip_prefix? : Text → Text → Option Text
strip_prefix? [] s = some s
strip_prefix? (p ∷ ps) [] = none
strip_prefix? (p ∷ ps) (c ∷ s) = if p == c then strip_prefix? ps s else none

unfoldable pub starts_with : Text → Text → Bool
unfolding strip_prefix?
starts_with prefix s = elim (strip_prefix? prefix s) [ none ↦ false | some rest ↦ true ]

unfoldable pub ends_with : Text → Text → Bool
unfolding starts_with
ends_with suffix s = starts_with (reverse suffix) (reverse s)

-- `text.find(word)`: what stands before the first occurrence of the word, and what follows it.
unfoldable pub find? : Text → Text → Option (Text × Text)
unfolding strip_prefix?
find? word [] = elim (strip_prefix? word []) [ none ↦ none | some rest ↦ some ([], rest) ]
find? word (c ∷ s) =
    let later = find? word s in
    elim (strip_prefix? word (c ∷ s)) [
      | none ↦ elim later [ none ↦ none | some (before, after) ↦ some (c ∷ before, after) ]
      | some rest ↦ some ([], rest)
    ]

unfoldable pub strip_left : Text → Text
unfolding is_space
strip_left [] = []
strip_left (c ∷ s) = if is_space c then strip_left s else c ∷ s

-- `text.strip()`
unfoldable pub strip : Text → Text
unfolding strip_left
strip s = reverse (strip_left (reverse (strip_left s)))

-- `text.replace(c, "")` for one character.
unfoldable pub without_char : ℕ → Text → Text
without_char c [] = []
without_char c (x ∷ xs) = let rest = without_char c xs in if c == x then rest else x ∷ rest

abbrev add_word : Text → List Text → List Text
add_word [] words = words
add_word (c ∷ s) words = (c ∷ s) ∷ words

-- `text.split()`; the first component is the word that the text begins in.
unfoldable pub split_from : Text → Text × List Text
unfolding is_space
split_from [] = ([], [])
split_from (c ∷ s) =
    let (word, words) = split_from s in
    if is_space c then ([], add_word word words) else (c ∷ word, words)

unfoldable pub split : Text → List Text
unfolding split_from
split s = let (word, words) = split_from s in add_word word words

-- `" ".join(words)` and `".".join(words)`
unfoldable pub join : Text → List Text → Text
join separator [] = []
join separator (w ∷ []) = w
join separator (w ∷ v ∷ ws) = w ++ separator ++ join separator (v ∷ ws)

-- The characters at which `text.splitlines()` ends a line; a carriage return takes a line feed
-- after it along.
unfoldable pub is_line_end : ℕ → Bool
is_line_end c =
    leb 10 c && leb c 13 || (leb 28 c && leb c 30) || (c == 133 || c == 8232 || c == 8233)

abbrev extend_line : ℕ → List Text → List Text
extend_line c [] = (c ∷ []) ∷ []
extend_line c (line ∷ lines) = (c ∷ line) ∷ lines

-- `text.split(c)` for one character: there is always a first part.
unfoldable pub split_on : ℕ → Text → List Text
split_on c [] = [] ∷ []
split_on c (x ∷ s) = let parts = split_on c s in if x == c then [] ∷ parts else extend_line x parts

-- The flag says that the text follows a carriage return, which a line feed only completes.
unfoldable pub lines_from : Bool → Text → List Text
unfolding is_line_end
lines_from after_cr [] = []
lines_from after_cr (c ∷ s) =
    let lines = lines_from (c == 13) s in
    if after_cr && c == 10 then lines else if is_line_end c then [] ∷ lines else extend_line c lines

unfoldable pub splitlines : Text → List Text
unfolding lines_from
splitlines s = lines_from false s

-- `text.lower()` on ASCII letters.
unfoldable pub lower : Text → Text
lower [] = []
lower (c ∷ s) = (if leb b'A' c && leb c b'Z' then c + 32 else c) ∷ lower s

-- The digits of `int(text)`: an underscore may stand between two of them. The flag says that a
-- digit came before.
unfoldable pub int_digits : ℕ → Bool → Text → Option ℕ
unfolding is_digit
int_digits n after_digit [] = if after_digit then some n else none
int_digits n after_digit (c ∷ s) =
    let more = int_digits (n * 10 + (c - b'0')) true s in
    let skip = int_digits n false s in
    if is_digit c then more else if after_digit && c == b'_' then skip else none

abbrev signed_int : Text → Option ℤ
unfolding int_digits
signed_int [] = none
signed_int (c ∷ t) =
    if c == b'-'
    then elim (int_digits 0 false t) [ none ↦ none | some n ↦ some (sub_ℕ 0 n) ]
    else if c == b'+'
    then elim (int_digits 0 false t) [ none ↦ none | some n ↦ some (pos n) ]
    else elim (int_digits 0 false (c ∷ t)) [ none ↦ none | some n ↦ some (pos n) ]

-- `int(text)`: none is the ValueError.
unfoldable pub int_of : Text → Option ℤ
unfolding int_digits strip
int_of s = signed_int (strip s)
