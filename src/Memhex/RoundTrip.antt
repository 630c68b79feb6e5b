-- ===== src/Memhex/RoundTrip.antt =====
-- What tools/bin_to_memhex.py writes can be read back.
use native.Mathlib.Nat.{pow-suc, div-add-mod', mod-eq_of_lt, mod-lt, one-le-pow, mul-le-mul_right}
use lca.Prelude.{
  ℕ, zero, suc, ◌+◌, ◌-◌, ◌*◌, ◌/◌, ◌%◌, ◌^◌, ◌<◌, ◌≤◌, ltb, ◌==◌, if◌then◌else◌, ◌≡◌, ◌∙◌, refl,
  ap, List, [], ◌∷◌, ◌++◌, length, replicate, length-append, length-replicate, All, All-append,
  arith, mod_unique, false,
}
use lca.Text.{Text}
use lca.Memhex.Defs.{padded, from_bytes, words, hex_digit, hex_digits, line_feed, lines_of, memhex}

abbrev pub digit_value : ℕ → ℕ
digit_value c = if ltb c 58 then c - b'0' else c - b'a' + 10

-- The four bytes of a word, the lowest first.
abbrev pub bytes_of : ℕ → List ℕ
bytes_of w = w % 256 ∷ w / 256 % 256 ∷ w / 65_536 % 256 ∷ w / 16_777_216 % 256 ∷ []

-- How a memory image is loaded: the digits of a line make a word, a line feed ends it.
unfoldable pub read_memhex : ℕ → Text → List ℕ
read_memhex word [] = []
read_memhex word (c ∷ s) =
    let more = read_memhex (16 * word + digit_value c) s in
    let next = read_memhex 0 s in if c == line_feed then bytes_of word ++ next else more

digit-hex :
    (d : ℕ) → d < 16 → (digit_value (hex_digit d) ≡ d) × ((hex_digit d == line_feed) ≡ false)
digit-hex d h = ground arith

digit_bound : (n : ℕ) → n % 16 ≤ 15
digit_bound n = omega arith

-- The low `k + 1` digits are the top one of them and the low `k`.
low_digits : (k n : ℕ) → n % 16 ^ suc k ≡ n / 16 ^ k % 16 * 16 ^ k + n % 16 ^ k
low_digits k n =
    mod_unique n (n / 16 ^ k % 16 * 16 ^ k + n % 16 ^ k) (n / 16 ^ k / 16) (16 ^ suc k)
      (omega (
        arith,
        div-add-mod' n (16 ^ k),
        ap (λ (t : ℕ). t * 16 ^ k) (div-add-mod' (n / 16 ^ k) 16),
        ap (λ (t : ℕ). n / 16 ^ k / 16 * t) (pow-suc 16 k),
      ))
      (omega (
        arith,
        pow-suc 16 k,
        mod-lt n (one-le-pow k 16 (omega arith)),
        mul-le-mul_right (16 ^ k) (digit_bound (n / 16 ^ k)),
      ))

shift_digits :
    (k n word : ℕ)
    → (16 * word + n / 16 ^ k % 16) * 16 ^ k + n % 16 ^ k ≡ word * 16 ^ suc k + n % 16 ^ suc k
shift_digits k n word = omega (arith, low_digits k n, ap (λ (t : ℕ). word * t) (pow-suc 16 k))

read-hex_digits :
    (k n word : ℕ) (s : Text)
    → read_memhex word (hex_digits k n ++ line_feed ∷ s)
      ≡ bytes_of (word * 16 ^ k + n % 16 ^ k) ++ read_memhex 0 s
unfolding hex_digits read_memhex
read-hex_digits zero n word s = ap (λ (x : ℕ). bytes_of x ++ read_memhex 0 s) (the_word word n)
  where
    the_word : (word n : ℕ) → word ≡ word * 16 ^ 0 + n % 16 ^ 0
    the_word word n = omega arith
read-hex_digits (suc k) n word s =
    rw ((digit-hex d bound).1, (digit-hex d bound).0)
      (read-hex_digits k n (16 * word + d) s
        ∙ ap (λ (x : ℕ). bytes_of x ++ read_memhex 0 s) (shift_digits k n word))
  where
    d : ℕ
    d = n / 16 ^ k % 16

    bound : d < 16
    bound = omega arith

-- A byte.
abbrev pub IsByte : ℕ → Type 0
IsByte b = b < 256

word_bound :
    (a b c d : ℕ)
    → IsByte a
    → IsByte b
    → IsByte c
    → IsByte d
    → from_bytes (a ∷ b ∷ c ∷ d ∷ []) < 16 ^ 8
word_bound a b c d ha hb hc hd = omega arith

bytes_of-from_bytes :
    (a b c d : ℕ)
    → IsByte a
    → IsByte b
    → IsByte c
    → IsByte d
    → bytes_of (from_bytes (a ∷ b ∷ c ∷ d ∷ [])) ≡ a ∷ b ∷ c ∷ d ∷ []
bytes_of-from_bytes a b c d ha hb hc hd = ground arith

from_zero : (w : ℕ) → w < 16 ^ 8 → 0 * 16 ^ 8 + w % 16 ^ 8 ≡ w
from_zero w h = omega (arith, h, mod-eq_of_lt h)

read-lines_of :
    (bytes : List ℕ)
    → All IsByte bytes
    → length bytes % 4 ≡ 0
    → read_memhex 0 (lines_of (words bytes)) ≡ bytes
unfolding lines_of words
read-lines_of [] h e = unfold read_memhex in refl
read-lines_of (a ∷ []) h e = absurd (omega (arith, e))
read-lines_of (a ∷ b ∷ []) h e = absurd (omega (arith, e))
read-lines_of (a ∷ b ∷ c ∷ []) h e = absurd (omega (arith, e))
read-lines_of (a ∷ b ∷ c ∷ d ∷ rest) (ha, (hb, (hc, (hd, h)))) e =
    read-hex_digits 8 w 0 (lines_of (words rest))
    ∙ ap (λ (x : ℕ). bytes_of x ++ read_memhex 0 (lines_of (words rest)))
        (from_zero w (word_bound a b c d ha hb hc hd))
    ∙ ap (λ (l : List ℕ). l ++ read_memhex 0 (lines_of (words rest)))
        (bytes_of-from_bytes a b c d ha hb hc hd)
    ∙ ap (λ (l : List ℕ). a ∷ b ∷ c ∷ d ∷ l) (read-lines_of rest h (four_less (length rest) e))
  where
    w : ℕ
    w = from_bytes (a ∷ b ∷ c ∷ d ∷ [])

    four_less : (n : ℕ) → suc (suc (suc (suc n))) % 4 ≡ 0 → n % 4 ≡ 0
    four_less n f = omega (arith, f)

zeros-IsByte : (n : ℕ) → All IsByte (replicate n 0)
zeros-IsByte zero = tt
zeros-IsByte (suc n) = (omega arith, zeros-IsByte n)

padded-IsByte : (bytes : List ℕ) → All IsByte bytes → All IsByte (padded bytes)
unfolding padded
padded-IsByte bytes h = All-append IsByte bytes _ h (zeros-IsByte ((4 - length bytes % 4) % 4))

length-padded : (bytes : List ℕ) → length (padded bytes) % 4 ≡ 0
unfolding padded
length-padded bytes =
    ap (λ (n : ℕ). n % 4)
      (length-append bytes (replicate ((4 - length bytes % 4) % 4) 0)
        ∙ ap (λ (n : ℕ). length bytes + n) (length-replicate ((4 - length bytes % 4) % 4) 0))
    ∙ whole (length bytes)
  where
    whole : (n : ℕ) → (n + (4 - n % 4) % 4) % 4 ≡ 0
    whole n = omega arith

-- Loading the memory image of a list of bytes gives the bytes back, with zeros up to a multiple of
-- four bytes behind them.
pub read_memhex-memhex :
    (bytes : List ℕ)
    → All IsByte bytes
    → (read_memhex 0 (memhex bytes) ≡ bytes ++ replicate ((4 - length bytes % 4) % 4) 0)
      × (length (padded bytes) % 4 ≡ 0)
unfolding memhex
read_memhex-memhex bytes h = (
  read-lines_of (padded bytes) (padded-IsByte bytes h) (length-padded bytes)
      ∙ (unfold padded in refl),
  length-padded bytes,
)
