-- ===== src/Common/Text.antt =====
-- Texts as the source walks them: trimming, truthiness and decimal numbers.
use Prim.Native.Nat.{ℕ, zero, suc, ◌/◌, ◌%◌}
use Prim.Native.Char.{Char, code}
use Prim.Native.String.{String, [], ◌∷◌, ◌++◌}
use mathlib.Core.Bool.{Bool, true, false, not, ◌&&◌, ◌||◌}
use mathlib.Core.Path.{◌≡◌, refl}
use mathlib.Core.List.{List}
use mathlib.Core.Option.{Option, none, some}
use native.Mathlib.Omega.{arith}
use text.Mathlib.TextLemmas.{nil-append, cons-append, append-nil}
use url_shortner_system_desi.Common.Tests.{ltb, leb, ◌==◌, if◌then◌else◌}

abbrev pub codes : String → List ℕ
codes [] = List.[]
codes (c ∷ s) = List.◌∷◌ (code c) (codes s)

abbrev pub count_chars : String → ℕ
count_chars [] = 0
count_chars (c ∷ s) = suc (count_chars s)

abbrev pub all_chars : (ℕ → Bool) → String → Bool
all_chars p [] = true
all_chars p (c ∷ s) = p (code c) && all_chars p s

-- A text is falsy when it is empty; `null` and `undefined` are falsy too.
abbrev pub is_empty : String → Bool
is_empty [] = true
is_empty (c ∷ s) = false

abbrev pub truthy : Option String → Bool
truthy none = false
truthy (some s) = not (is_empty s)

-- `s || null`
abbrev pub nonempty : Option String → Option String
nonempty none = none
nonempty (some s) = if is_empty s then none else some s

-- ECMAScript WhiteSpace and LineTerminator
unfoldable pub is_space : ℕ → Bool
is_space c =
    (leb 9 c && leb c 13)
    || c == 32
    || c == 160
    || c == 0x1680
    || (leb 0x2000 c && leb c 0x200a)
    || c == 0x2028
    || c == 0x2029
    || c == 0x202f
    || c == 0x205f
    || c == 0x3000
    || c == 0xfeff

reverse_onto : String → String → String
reverse_onto [] acc = acc
reverse_onto (c ∷ s) acc = reverse_onto s (c ∷ acc)

reverse_onto-reverse_onto :
    (s acc t : String) → reverse_onto (reverse_onto s acc) t ≡ reverse_onto acc (s ++ t)
unfolding reverse_onto
reverse_onto-reverse_onto [] acc t = rw nil-append refl
reverse_onto-reverse_onto (c ∷ s) acc t =
    rw (cons-append, reverse_onto-reverse_onto s (c ∷ acc) t) refl

skip_space : String → String
skip_space [] = []
skip_space (c ∷ s) = if is_space (code c) then skip_space s else c ∷ s

-- `String.prototype.trim`
unfoldable pub trim : String → String
unfolding skip_space is_space reverse_onto
trim s = reverse_onto (skip_space (reverse_onto (skip_space s) [])) []

module _ (p : ℕ → Bool) where
  all_chars-reverse_onto :
      (s acc : String)
      → all_chars p s ≡ true
      → all_chars p acc ≡ true
      → all_chars p (reverse_onto s acc) ≡ true
  unfolding reverse_onto
  all_chars-reverse_onto [] acc h k = k
  all_chars-reverse_onto (c ∷ s) acc h k =
      all_chars-reverse_onto s (c ∷ acc) (ground arith) (ground arith)

  module _ (solid : (c : ℕ) → p c ≡ true → is_space c ≡ false) where
    skip_space_of_all_chars : (s : String) → all_chars p s ≡ true → skip_space s ≡ s
    unfolding skip_space
    skip_space_of_all_chars [] h = refl
    skip_space_of_all_chars (c ∷ s) h = ground (arith, solid (code c))

    -- A text of characters that are no white space is its own trimming.
    pub trim_of_all_chars : (s : String) → all_chars p s ≡ true → trim s ≡ s
    unfolding trim
    trim_of_all_chars s h = rw (skip_space_of_all_chars s h) (
        rw (skip_space_of_all_chars (reverse_onto s []) (all_chars-reverse_onto s [] h refl))
          (rw (reverse_onto-reverse_onto s [] [], append-nil) refl))

-- `s[i]`
abbrev pub char_at? : String → ℕ → Option Char
char_at? [] i = none
char_at? (c ∷ s) zero = some c
char_at? (c ∷ s) (suc i) = char_at? s i

abbrev pub push_digit : ℕ → String → String
push_digit d acc = elim (char_at? "0123456789" d) [ none ↦ acc | some c ↦ c ∷ acc ]

unfoldable pub show_digits : ℕ → ℕ → String → String
show_digits zero n acc = acc
show_digits (suc f) n acc =
    let rest = show_digits f (n / 10) (push_digit (n % 10) acc) in
    if ltb n 10 then push_digit n acc else rest

-- the decimal digits of a number, as `Number` and `BigInt` print it
unfoldable pub show_nat : ℕ → String
unfolding show_digits
show_nat n = show_digits (suc n) n []

-- a template literal, by its pieces
abbrev pub concat : List String → String
concat List.[] = []
concat (List.◌∷◌ s ss) = s ++ concat ss
