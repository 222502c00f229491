-- ===== src/Common/Substrings.antt =====
-- Parts of texts: prefixes, substrings and lower case.
use Prim.Native.Nat.{ℕ, zero, suc, ◌-◌}
use Prim.Native.Char.{Char, code}
use Prim.Native.String.{String, [], ◌∷◌}
use mathlib.Core.Bool.{Bool, true, false, ◌&&◌, ◌||◌}
use mathlib.Core.Option.{Option, none, some}
use url_shortner_system_desi.Common.Tests.{leb, ◌==◌, if◌then◌else◌}
use url_shortner_system_desi.Common.Text.{char_at?, is_empty}

-- the rest of a text that starts with the prefix
unfoldable pub drop_prefix : String → String → Option String
drop_prefix [] s = some s
drop_prefix (p ∷ ps) [] = none
drop_prefix (p ∷ ps) (c ∷ cs) = if code p == code c then drop_prefix ps cs else none

-- `s.startsWith(prefix)`
unfoldable pub starts_with : String → String → Bool
unfolding drop_prefix
starts_with prefix s = elim (drop_prefix prefix s) [ none ↦ false | some rest ↦ true ]

-- `s.includes(part)`
unfoldable pub includes : String → String → Bool
unfolding starts_with
includes part [] = is_empty part
includes part (c ∷ s) = starts_with part (c ∷ s) || includes part s

-- `s.slice(0, n)`
unfoldable pub take_chars : ℕ → String → String
take_chars zero s = []
take_chars (suc n) [] = []
take_chars (suc n) (c ∷ s) = c ∷ take_chars n s

-- `s.slice(n)`
unfoldable pub drop_chars : ℕ → String → String
drop_chars zero s = s
drop_chars (suc n) [] = []
drop_chars (suc n) (c ∷ s) = drop_chars n s

lower_char : Char → Char
lower_char c =
    if leb b'A' (code c) && leb (code c) b'Z'
    then elim (char_at? "abcdefghijklmnopqrstuvwxyz" (code c - b'A')) [ none ↦ c | some d ↦ d ]
    else c

-- `s.toLowerCase()`, on the letters of ASCII
unfoldable pub lowercase : String → String
unfolding lower_char
lowercase [] = []
lowercase (c ∷ s) = lower_char c ∷ lowercase s
