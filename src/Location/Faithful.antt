-- ===== src/Location/Faithful.antt =====
-- The resolver against a lookup without a cache.
use url_shortner_system_desi.Common.{
  map, ℕ, ◌≤◌, String, Option, none, some, List, [], ◌∷◌, arith, ◌≡◌, refl, length, lookup, insert,
  erase, All, eq_iff, if◌then◌else◌,
}
use url_shortner_system_desi.Location.Addresses.{normalize_ip_address, is_public_ip_address}
use url_shortner_system_desi.Location.Resolver.{
  use_entry, Lookup, Location, LocationEntry, Cached, evict, result_of, resolve_miss, resolve_hit,
  resolve_ip, resolve,
}
use url_shortner_system_desi.Location.Bounded.{resolve-bounded}

module _ (geo : String → Lookup) where
  abbrev pub IsTrue : String × LocationEntry → Type 0
  IsTrue e = e.1.value ≡ result_of (geo e.0)

  -- every entry is what the database says of its address
  abbrev pub IsFaithful : Cached → Type 0
  IsFaithful c = All IsTrue c

  erase-IsFaithful : (k : String) (c : Cached) → IsFaithful c → IsFaithful (erase k c)
  erase-IsFaithful k [] h = tt
  erase-IsFaithful k ((j, e) ∷ c) h = ground (arith, erase-IsFaithful k c)

  insert-IsFaithful :
      (k : String) (e : LocationEntry) (c : Cached)
      → e.value ≡ result_of (geo k)
      → IsFaithful c
      → IsFaithful (insert k e c)
  insert-IsFaithful k e [] same h = (same, tt)
  insert-IsFaithful k e ((j, x) ∷ c) same h = ground (arith, insert-IsFaithful k e c)

  lookup-IsFaithful :
      (k : String) (e : LocationEntry) (c : Cached)
      → IsFaithful c
      → lookup k c ≡ some e
      → e.value ≡ result_of (geo k)
  lookup-IsFaithful k e [] h kept = ground arith
  lookup-IsFaithful k e ((j, x) ∷ c) h kept = ground (arith, eq_iff j k, lookup-IsFaithful k e c)

  evict-IsFaithful : (n : ℕ) (c : Cached) → IsFaithful c → IsFaithful (evict n c)
  unfolding evict
  evict-IsFaithful n [] h = h
  evict-IsFaithful n (e ∷ c) h = ground arith

  module _ (is_ip : String → ℕ) (max_entries ttl now : ℕ) where
    -- a right answer, and a cache that stays faithful
    abbrev Right : Option Location → Option Location × Cached → Type 0
    Right l o = (o.0 ≡ l) × IsFaithful o.1

    resolve_miss-Right :
        (ip : String) (c : Cached)
        → IsFaithful c
        → Right (result_of (geo ip)) (resolve_miss is_ip geo max_entries ttl now ip c)
    unfolding resolve_miss
    resolve_miss-Right ip c h = (
      refl,
      evict-IsFaithful max_entries (insert ip _ (erase ip c))
          (insert-IsFaithful ip _ (erase ip c) refl (erase-IsFaithful ip c h)),
    )

    resolve_hit-Right :
        (ip : String) (e : LocationEntry) (c : Cached)
        → IsFaithful c
        → lookup ip c ≡ some e
        → Right (result_of (geo ip)) (resolve_hit is_ip geo max_entries ttl now ip e c)
    unfolding resolve_hit
    resolve_hit-Right ip e c h kept =
        let same = lookup-IsFaithful ip e c h kept in
        ground (
          arith,
          same,
          insert-IsFaithful ip e (erase ip c) same (erase-IsFaithful ip c h),
          resolve_miss-Right ip c h,
        )

    use_entry-Right :
        (ip : String) (o : Option LocationEntry) (c : Cached)
        → IsFaithful c
        → lookup ip c ≡ o
        → Right (result_of (geo ip)) (use_entry is_ip geo max_entries ttl now ip o c)
    unfolding use_entry
    use_entry-Right ip none c h kept = resolve_miss-Right ip c h
    use_entry-Right ip (some e) c h kept = resolve_hit-Right ip e c h kept

  -- the answer without a cache
  abbrev pub answer : Option String → Option Location
  answer none = none
  answer (some ip) = result_of (geo ip)

  unfoldable pub locate : (String → ℕ) → Option String → Option Location
  locate is_ip value =
      if is_public_ip_address is_ip (normalize_ip_address is_ip value)
      then answer (normalize_ip_address is_ip value)
      else none

  module _ (is_ip : String → ℕ) (max_entries ttl : ℕ) where
    resolve_ip-Right :
        (now : ℕ) (o : Option String) (c : Cached)
        → IsFaithful c
        → Right is_ip max_entries ttl now (answer o) (resolve_ip is_ip geo max_entries ttl now o c)
    unfolding resolve_ip
    resolve_ip-Right now none c h = (refl, h)
    resolve_ip-Right now (some ip) c h =
        use_entry-Right is_ip max_entries ttl now ip (lookup ip c) c h refl

    resolve-Right :
        (now : ℕ) (value : Option String) (c : Cached)
        → IsFaithful c
        → Right is_ip max_entries ttl now
            (locate is_ip value)
            (resolve is_ip geo max_entries ttl now value c)
    unfolding resolve locate
    resolve-Right now value c h =
        let there = resolve_ip-Right now (normalize_ip_address is_ip value) c h in
        ground (arith, there)

    -- calls at their times, one after the other: the answers and the last cache
    unfoldable pub resolve_all : List (ℕ × Option String) → Cached → List (Option Location) × Cached
    resolve_all [] c = ([], c)
    resolve_all ((now, value) ∷ calls) c =
        let (l, c') = resolve is_ip geo max_entries ttl now value c in
        let (ls, c'') = resolve_all calls c' in (l ∷ ls, c'')

    resolve_all-Faithful :
        (calls : List (ℕ × Option String)) (c : Cached)
        → IsFaithful c
        → length c ≤ max_entries
        → ((resolve_all calls c).0 ≡ map (λ call. locate is_ip call.1) calls)
          × (length (resolve_all calls c).1 ≤ max_entries)
    unfolding resolve_all
    resolve_all-Faithful [] c h small = (refl, small)
    resolve_all-Faithful ((now, value) ∷ calls) c h small =
        let (same, next) = resolve-Right now value c h in
        let (rest, bound) =
          resolve_all-Faithful calls (resolve is_ip geo max_entries ttl now value c).1 next
            (resolve-bounded is_ip geo max_entries ttl now value c small) in
        (cc, bound)

    -- From an empty cache, and while the database of locations stays the same, calls at any times
    -- answer what a lookup without a cache answers, and the cache never outgrows its bound.
    pub resolve_all-eq-locate :
        (calls : List (ℕ × Option String))
        → ((resolve_all calls []).0 ≡ map (λ call. locate is_ip call.1) calls)
          × (length (resolve_all calls []).1 ≤ max_entries)
    resolve_all-eq-locate calls = resolve_all-Faithful calls [] tt (omega arith)
