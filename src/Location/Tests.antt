-- ===== src/Location/Tests.antt =====
-- Addresses and locations at concrete inputs.
use url_shortner_system_desi.Common.{
  show_nat, ℕ, ◌≤◌, String, true, false, none, some, List, [], ◌∷◌, Option, ◌≡◌, refl, map, length,
  if◌then◌else◌, starts_with,
}
use url_shortner_system_desi.Location.Addresses.{normalize_ip_address, is_public_ip_address}
use url_shortner_system_desi.Location.Resolver.{Found, Lookup, found, missing}
use url_shortner_system_desi.Location.Faithful.{resolve_all, locate, resolve_all-eq-locate}

-- `net.isIP` on the addresses below
abbrev four : String → ℕ
four ip = 4

abbrev delhi : Found
delhi = record {
  country = some "IN";
  region = some "";
  city = some "Delhi";
  timezone = none;
  ll = none;
}

abbrev in_india : String → Lookup
in_india ip = if starts_with "49." ip then found delhi else missing

mapped_address : normalize_ip_address four (some " ::FFFF:c0a8:0a01 ") ≡ some "192.168.10.1"
unfolding normalize_ip_address show_nat
mapped_address = refl

private_address : is_public_ip_address four (some "172.16.0.9") ≡ false
unfolding is_public_ip_address
private_address = refl

public_address : is_public_ip_address four (some "172.32.0.9") ≡ true
unfolding is_public_ip_address
public_address = refl

abbrev visits : List (ℕ × Option String)
visits = (10, some "49.1.1.1") ∷ (20, some "49.1.1.1") ∷ (30, some "8.8.8.8") ∷ (40, none) ∷ []

resolve_all-eq-locate_example :
    ((resolve_all in_india four 1 500 visits []).0
      ≡ map (λ call. locate in_india four call.1) visits)
    × (length (resolve_all in_india four 1 500 visits []).1 ≤ 1)
resolve_all-eq-locate_example = resolve_all-eq-locate in_india four 1 500 visits
