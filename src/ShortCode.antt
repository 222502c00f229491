-- ===== src/ShortCode.antt =====
-- utils/generateShortCode.js, utils/validateShortCode.js and middlewares/validateShortCode.middleware.js.
pub mod Format
pub mod Retry
pub mod Frame
mod Tests
use Prim.Native.String.{[], ◌∷◌}
use mathlib.Core.List
use url_shortner_system_desi.Common.{
  ℕ, zero, suc, ◌+◌, Char, code, String, Bool, true, false, not, ◌&&◌, ◌||◌, Option, none, some,
  List, Error, Result, ok, err, Action, app_error, ltb, leb, ◌==◌, str_eq, if◌then◌else◌, all_chars,
  count_chars, char_at?, is_empty, trim, codes,
}

abbrev pub base62_alphabet : String
base62_alphabet = "0123456789ABCDEFGHIJKLMNOPQRSTUVWXYZabcdefghijklmnopqrstuvwxyz"

abbrev pub short_code_length : ℕ
short_code_length = 7

abbrev plain_error : String → Option ℕ → Error
plain_error message status = record {
  message = message;
  status_code = status;
  is_operational = false;
  details = none;
  error_code = none;
  code = none;
  constraint = none;
}

-- `random i` is the draw `randomInt(62)` for the character `i`; an index past the end would be
-- `undefined`, which `join` skips.
draw : (ℕ → ℕ) → ℕ → ℕ → String
draw random i zero = []
draw random i (suc n) = elim (char_at? base62_alphabet (random i)) [
  | none ↦ draw random (i + 1) n
  | some c ↦ c ∷ draw random (i + 1) n
]

unfoldable pub generate_short_code : (ℕ → ℕ) → ℕ → Result String
unfolding draw
generate_short_code random length =
    if ltb length 1 || ltb 64 length
    then err (plain_error "Short code length must be an integer from 1 to 64" none)
    else ok (draw random 0 length)

-- `[A-Za-z0-9_-]`
pub is_code_char : ℕ → Bool
is_code_char c =
    (leb b'A' c && leb c b'Z')
    || (leb b'a' c && leb c b'z')
    || (leb b'0' c && leb c b'9')
    || c == b'_'
    || c == b'-'

-- `/^[A-Za-z0-9_-]{3,64}$/`
unfoldable pub matches_short_code : String → Bool
unfolding is_code_char
matches_short_code s = all_chars is_code_char s && leb 3 (count_chars s) && leb (count_chars s) 64

-- the message of an invalid code; `none` is `{ valid: true }`
unfoldable pub validate_short_code : Option String → Option String
validate_short_code none = some "Short code is required"
validate_short_code (some s) =
    if is_empty s
    then some "Short code is required"
    else if matches_short_code (trim s)
    then none
    else some
        "Invalid short code format. Must be 3-64 alphanumeric characters, hyphens (-), or underscores (_)."

-- what the middleware hands to `next`
unfoldable pub validate_short_code_param : Option String → Option Error
unfolding validate_short_code
validate_short_code_param code = elim (validate_short_code code) [
  | none ↦ none
  | some message ↦ some (app_error message 400)
]

abbrev lower : ℕ → ℕ
lower c = if leb b'A' c && leb c b'Z' then c + 32 else c

has_prefix : List ℕ → List ℕ → Bool
has_prefix List.[] cs = true
has_prefix (List.◌∷◌ p ps) List.[] = false
has_prefix (List.◌∷◌ p ps) (List.◌∷◌ c cs) = lower c == p && has_prefix ps cs

-- `.?code` at the head: the dot takes no line terminator
code_follows : List ℕ → Bool
unfolding has_prefix
code_follows List.[] = false
code_follows (List.◌∷◌ c cs) =
    (not (c == 10 || c == 13 || c == 0x2028 || c == 0x2029) && has_prefix (codes "code") cs)
    || has_prefix (codes "code") (List.◌∷◌ c cs)

abbrev skip5 : List ℕ → List ℕ
skip5 (List.◌∷◌ a (List.◌∷◌ b (List.◌∷◌ c (List.◌∷◌ d (List.◌∷◌ e cs))))) = cs
skip5 _ = List.[]

-- `/short.?code/i.test`
mentions_short_code : List ℕ → Bool
unfolding has_prefix code_follows
mentions_short_code List.[] = false
mentions_short_code (List.◌∷◌ c cs) =
    (has_prefix (codes "short") (List.◌∷◌ c cs) && code_follows (skip5 (List.◌∷◌ c cs)))
    || mentions_short_code cs

constraint_fits : Option String → Bool
unfolding mentions_short_code
constraint_fits none = true
constraint_fits (some name) = is_empty name || mentions_short_code (codes name)

unfoldable pub is_short_code_conflict : Error → Bool
unfolding constraint_fits
is_short_code_conflict e =
    (elim e.code [ none ↦ false | some c ↦ str_eq c "23505" ]) && constraint_fits e.constraint

abbrev pub no_code_error : Error
no_code_error = plain_error "Unable to allocate a unique short code. Please try again." (some 503)

module _ {W A : Type 0} (insert : String → Action W A) (generate : ℕ → Result String) where
  -- one round: what `generate` throws is caught like what `insert` throws
  pub attempt_insert : ℕ → Action W A
  attempt_insert i w = elim (generate i) [ ok c ↦ insert c w | err e ↦ (err e, w) ]

  -- what follows a round: a conflict goes on to `rest`, anything else ends the loop
  pub after_round : Action W A → Result A × W → Result A × W
  after_round rest (ok a, w) = (ok a, w)
  after_round rest (err e, w) = if is_short_code_conflict e then rest w else (err e, w)

  -- the rounds `i`, `i + 1`, … while `left` remain
  pub insert_rounds : ℕ → ℕ → Action W A
  insert_rounds zero i w = (err no_code_error, w)
  insert_rounds (suc left) i w = after_round (insert_rounds left (i + 1)) (attempt_insert i w)

  unfoldable pub insert_with_unique_code : ℕ → Action W A
  unfolding insert_rounds attempt_insert after_round
  insert_with_unique_code attempts = insert_rounds attempts 0
