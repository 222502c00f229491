-- ===== src/ShortCode/Format.antt =====
-- The codes that generateShortCode.js draws against the format that validateShortCode.js accepts.
use Prim.Native.String.{[], ◌∷◌}
use url_shortner_system_desi.Common.{
  ℕ, zero, suc, ◌+◌, ◌≤◌, ◌<◌, ◌≡◌, refl, Bool, true, false, String, Char, code, some, none, ok,
  arith, all_chars, count_chars, char_at?, is_space, trim_of_all_chars,
}
use url_shortner_system_desi.ShortCode.{
  base62_alphabet, draw, generate_short_code, is_code_char, matches_short_code,
  validate_short_code_param,
}

char_at?-all_chars :
    (p : ℕ → Bool) (s : String) (k : ℕ) (c : Char)
    → all_chars p s ≡ true
    → char_at? s k ≡ some c
    → p (code c) ≡ true
char_at?-all_chars p [] k c h e = ground arith
char_at?-all_chars p (d ∷ s) zero c h e = ground arith
char_at?-all_chars p (d ∷ s) (suc k) c h e = ground (arith, char_at?-all_chars p s k c)

char_at?_of_lt : (s : String) (k : ℕ) → k < count_chars s → (c : Char) × (char_at? s k ≡ some c)
char_at?_of_lt [] k h = absurd (omega arith)
char_at?_of_lt (d ∷ s) zero h = (d, refl)
char_at?_of_lt (d ∷ s) (suc k) h = char_at?_of_lt s k (omega arith)

base62_alphabet-is_code_char : all_chars is_code_char base62_alphabet ≡ true
unfolding is_code_char
base62_alphabet-is_code_char = refl

module _ (random : ℕ → ℕ) (in_range : (i : ℕ) → random i < 62) where
  draw_format :
      (i n : ℕ)
      → (all_chars is_code_char (draw random i n) ≡ true) × (count_chars (draw random i n) ≡ n)
  unfolding draw
  draw_format i zero = (refl, refl)
  draw_format i (suc n) =
      let (c, found) = char_at?_of_lt base62_alphabet (random i) (in_range i) in
      let (chars, size) = draw_format (i + 1) n in
      let good =
        char_at?-all_chars is_code_char base62_alphabet (random i) c base62_alphabet-is_code_char
          found in
      rw found (rw (good, chars, size) (refl, refl))

is_code_char_bounds : (c : ℕ) → is_code_char c ≡ true → (44 < c) × (c < 123)
unfolding is_code_char
is_code_char_bounds c h = ground arith

is_space_of_bounds : (c : ℕ) → 44 < c → c < 123 → is_space c ≡ false
unfolding is_space
is_space_of_bounds c h k = ground arith

is_space_of_is_code_char : (c : ℕ) → is_code_char c ≡ true → is_space c ≡ false
is_space_of_is_code_char c h =
    let (above, below) = is_code_char_bounds c h in is_space_of_bounds c above below

-- A text of 3 to 64 code characters passes the check of a route's short code.
pub validate_short_code_of_format :
    (s : String)
    → all_chars is_code_char s ≡ true
    → 3 ≤ count_chars s
    → count_chars s ≤ 64
    → validate_short_code_param (some s) ≡ none
unfolding validate_short_code_param matches_short_code
validate_short_code_of_format [] chars low high = absurd (omega arith)
validate_short_code_of_format (c ∷ s) chars low high =
    let same = trim_of_all_chars is_code_char is_space_of_is_code_char (c ∷ s) chars in
    rw (same, validate_short_code_param) (ground arith)

-- Where the random source answers with indices of the alphabet, a requested length from 3 to 64
-- gives a code of exactly that length, and the check of a route's short code lets it through.
pub generate_short_code-is_valid :
    (random : ℕ → ℕ) (n : ℕ)
    → ((i : ℕ) → random i < 62)
    → 3 ≤ n
    → n ≤ 64
    → (s : String) × (generate_short_code random n ≡ ok s)
      × (validate_short_code_param (some s) ≡ none)
      × (count_chars s ≡ n)
unfolding generate_short_code
generate_short_code-is_valid random n in_range low high =
    let (chars, size) = draw_format random in_range 0 n in
    let s = draw random 0 n in
    (s, ground arith, validate_short_code_of_format s chars (omega arith) (omega arith), size)
