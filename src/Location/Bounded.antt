-- ===== src/Location/Bounded.antt =====
-- The size of the cache of locations.
use url_shortner_system_desi.Common.{
  refl, ℕ, ◌+◌, ◌≤◌, String, Option, none, some, [], ◌∷◌, arith, ◌≡◌, length, lookup, insert, erase,
}
use url_shortner_system_desi.Location.Resolver.{
  use_entry, Lookup, LocationEntry, Cached, evict, resolve_miss, resolve_hit, resolve_ip, resolve,
}
use url_shortner_system_desi.Location.{normalize_ip_address}

length-erase-le : (k : String) (d : Cached) → length (erase k d) ≤ length d
length-erase-le k [] = omega arith
length-erase-le k ((j, e) ∷ d) = ground (arith, length-erase-le k d)

length-erase-some :
    (k : String) (d : Cached) (e : LocationEntry)
    → lookup k d ≡ some e
    → length (erase k d) + 1 ≤ length d
length-erase-some k [] e h = ground arith
length-erase-some k ((j, x) ∷ d) e h = ground (arith, length-erase-le k d, length-erase-some k d e)

length-insert-le :
    (k : String) (e : LocationEntry) (d : Cached) → length (insert k e d) ≤ length d + 1
length-insert-le k e [] = omega arith
length-insert-le k e ((j, x) ∷ d) = ground (arith, length-insert-le k e d)

length-evict-le : (n : ℕ) (d : Cached) → length d ≤ n + 1 → length (evict n d) ≤ n
unfolding evict
length-evict-le n [] h = omega arith
length-evict-le n (e ∷ d) h = ground arith

module _ (is_ip : String → ℕ) (geo : String → Lookup) (max_entries ttl now : ℕ) where
  resolve_miss-bounded :
      (ip : String) (c : Cached)
      → length c ≤ max_entries
      → length (resolve_miss is_ip geo max_entries ttl now ip c).1 ≤ max_entries
  unfolding resolve_miss
  resolve_miss-bounded ip c h =
      length-evict-le max_entries (insert ip _ (erase ip c))
        (omega (arith, length-insert-le ip _ (erase ip c), length-erase-le ip c))

  resolve_hit-bounded :
      (ip : String) (e : LocationEntry) (c : Cached)
      → length c ≤ max_entries
      → lookup ip c ≡ some e
      → length (resolve_hit is_ip geo max_entries ttl now ip e c).1 ≤ max_entries
  unfolding resolve_hit
  resolve_hit-bounded ip e c h kept = ground (
    arith,
    length-insert-le ip e (erase ip c),
    length-erase-some ip c e,
    resolve_miss-bounded ip c,
  )

  use_entry-bounded :
      (ip : String) (o : Option LocationEntry) (c : Cached)
      → length c ≤ max_entries
      → lookup ip c ≡ o
      → length (use_entry is_ip geo max_entries ttl now ip o c).1 ≤ max_entries
  unfolding use_entry
  use_entry-bounded ip none c h kept = resolve_miss-bounded ip c h
  use_entry-bounded ip (some e) c h kept = resolve_hit-bounded ip e c h kept

  resolve_ip-bounded :
      (o : Option String) (c : Cached)
      → length c ≤ max_entries
      → length (resolve_ip is_ip geo max_entries ttl now o c).1 ≤ max_entries
  unfolding resolve_ip
  resolve_ip-bounded none c h = h
  resolve_ip-bounded (some ip) c h = use_entry-bounded ip (lookup ip c) c h refl

  pub resolve-bounded :
      (value : Option String) (c : Cached)
      → length c ≤ max_entries
      → length (resolve is_ip geo max_entries ttl now value c).1 ≤ max_entries
  unfolding resolve
  resolve-bounded value c h =
      ground (arith, resolve_ip-bounded (normalize_ip_address is_ip value) c h)
