-- ===== src/Location/Addresses.antt =====
-- `normalizeIpAddress` and `isPublicIpAddress`. `net.isIP` is a parameter: 4, 6 or 0.
use Prim.Native.String.{[], ◌∷◌}
use url_shortner_system_desi.Common.{
  ℕ, ◌+◌, ◌-◌, ◌*◌, ◌/◌, ◌%◌, code, String, Bool, false, not, ◌&&◌, ◌||◌, Option, none, some, List,
  leb, ◌==◌, if◌then◌else◌, drop_prefix, starts_with, lowercase, trim, show_nat, concat,
}

-- the value of a digit of `[a-f0-9]`
abbrev pub hex_digit : ℕ → Option ℕ
hex_digit c =
    if leb b'0' c && leb c b'9'
    then some (c - b'0')
    else if leb b'a' c && leb c b'f'
    then some (c - b'a' + 10)
    else none

pub record Digits : Type 0 where
  pub value : ℕ
  pub count : ℕ
  pub rest : String

abbrev pub digits : ℕ → ℕ → String → Digits
digits value count rest = record { value = value; count = count; rest = rest }

-- the longest run of hexadecimal digits
unfoldable pub read_hex : ℕ → ℕ → String → Digits
read_hex value count [] = digits value count []
read_hex value count (c ∷ s) = elim (hex_digit (code c)) [
  | none ↦ digits value count (c ∷ s)
  | some d ↦ read_hex (value * 16 + d) (count + 1) s
]

abbrev pub is_quad : Digits → Bool
is_quad d = leb 1 d.count && leb d.count 4

-- `high` and `low` in dotted decimals
abbrev pub dotted : ℕ → ℕ → String
dotted high low = concat (
    List.◌∷◌ (show_nat (high / 256)) (
      List.◌∷◌ "." (
        List.◌∷◌ (show_nat (high % 256)) (
          List.◌∷◌ "." (
            List.◌∷◌ (show_nat (low / 256))
              (List.◌∷◌ "." (List.◌∷◌ (show_nat (low % 256)) List.[])))))))

abbrev pub second_quad : ℕ → Digits → Option String
second_quad high d = elim d.rest [
  | [] ↦ if is_quad d then some (dotted high d.value) else none
  | c ∷ s ↦ none
]

abbrev pub first_quad : Digits → Option String
first_quad d = elim d.rest [
  | [] ↦ none
  | c ∷ s ↦ if is_quad d && code c == b':' then second_quad d.value (read_hex 0 0 s) else none
]

-- `/^([a-f0-9]{1,4}):([a-f0-9]{1,4})$/`, and the dotted form of what it matches
unfoldable pub from_hex : String → String
unfolding read_hex
from_hex s = elim (first_quad (read_hex 0 0 s)) [ none ↦ s | some ip ↦ ip ]

unfoldable pub unmapped : String → String
unfolding from_hex drop_prefix
unmapped s = elim (drop_prefix "::ffff:" s) [ none ↦ s | some rest ↦ from_hex rest ]

-- a decimal number up to the next dot, and what follows the dot
unfoldable pub read_octet : ℕ → String → ℕ × String
read_octet value [] = (value, [])
read_octet value (c ∷ s) =
    if code c == b'.' then (value, s) else read_octet (value * 10 + (code c - b'0')) s

pub record Octets : Type 0 where
  pub first : ℕ
  pub second : ℕ
  pub third : ℕ

-- `ip.split('.').map(Number)`, for a text of four decimal parts
unfoldable pub octets : String → Octets
unfolding read_octet
octets s =
    let (a, s1) = read_octet 0 s in
    let (b, s2) = read_octet 0 s1 in record { first = a; second = b; third = (read_octet 0 s2).0 }

abbrev pub is_reserved : Octets → Bool
is_reserved o =
    o.first == 0
    || o.first == 10
    || o.first == 127
    || leb 224 o.first
    || (o.first == 100 && leb 64 o.second && leb o.second 127)
    || (o.first == 169 && o.second == 254)
    || (o.first == 172 && leb 16 o.second && leb o.second 31)
    || (o.first == 192 && o.second == 168)
    || (o.first == 192 && o.second == 0)
    || (o.first == 198 && (o.second == 18 || o.second == 19))
    || (o.first == 198 && o.second == 51 && o.third == 100)
    || (o.first == 203 && o.second == 0 && o.third == 113)

-- `none` is a value that is no text
module _ (is_ip : String → ℕ) where
  abbrev pub checked_ip : String → Option String
  checked_ip ip = if is_ip ip == 0 then none else some ip

  unfoldable pub normalize_ip_address : Option String → Option String
  unfolding unmapped trim lowercase
  normalize_ip_address none = none
  normalize_ip_address (some value) = checked_ip (unmapped (lowercase (trim value)))

  unfoldable pub is_public_ip : String → Bool
  unfolding octets starts_with
  is_public_ip ip =
      if is_ip ip == 6
      then (starts_with "2" ip || starts_with "3" ip) && not (starts_with "2001:db8:" ip)
      else not (is_reserved (octets ip))

  unfoldable pub is_public_ip_address : Option String → Bool
  unfolding normalize_ip_address is_public_ip
  is_public_ip_address value = elim (normalize_ip_address value) [
    | none ↦ false
    | some ip ↦ is_public_ip ip
  ]
