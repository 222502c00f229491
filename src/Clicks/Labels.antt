-- ===== src/Clicks/Labels.antt =====
-- The labels of referring hosts.
use Prim.Native.String.{[], ◌∷◌}
use url_shortner_system_desi.Common.{
  String, true, false, ◌||◌, arith, ◌≡◌, refl, includes, starts_with, drop_prefix,
}
use url_shortner_system_desi.Clicks.Classify.{label_of}

abbrev join : String → String → String
join [] q = q
join (c ∷ p) q = c ∷ join p q

starts_with-join : (p q s : String) → starts_with (join p q) s ≡ true → starts_with p s ≡ true
unfolding starts_with drop_prefix
starts_with-join [] q s h = refl
starts_with-join (c ∷ p) q [] h = ground arith
starts_with-join (c ∷ p) q (d ∷ s) h = ground (arith, starts_with-join p q s)

-- a text that starts with a word, and goes on with another, has the second one in it
includes-after : (p q s : String) → starts_with (join p q) s ≡ true → includes q s ≡ true
unfolding includes starts_with drop_prefix
includes-after [] [] [] h = refl
includes-after [] (c ∷ q) [] h = ground arith
includes-after [] q (d ∷ s) h = ground arith
includes-after (c ∷ p) q [] h = ground arith
includes-after (c ∷ p) q (d ∷ s) h = ground (arith, includes-after p q s)

includes-includes : (p q s : String) → includes (join p q) s ≡ true → includes q s ≡ true
unfolding includes
includes-includes [] [] [] h = refl
includes-includes [] (c ∷ q) [] h = h
includes-includes (c ∷ p) q [] h = ground arith
includes-includes p q (d ∷ s) h =
    ground (arith, includes-after p q (d ∷ s), includes-includes p q s)

includes-join : (p q s : String) → includes (join p q) s ≡ true → includes p s ≡ true
unfolding includes
includes-join [] q [] h = refl
includes-join (c ∷ p) q [] h = ground arith
includes-join p q (d ∷ s) h = ground (arith, starts_with-join p q (d ∷ s), includes-join p q s)

-- "reddit.com" and "pinterest.com" have "t.co" in them, which is tested before: but for hosts that
-- an earlier test names, every host of Reddit and of Pinterest is labelled "Twitter/X".
pub reddit_is_twitter :
    (host low : String)
    → (includes "reddit.com" low || includes "pinterest.com" low) ≡ true
    → includes "instagram.com" low ≡ false
    → (includes "linkedin.com" low || includes "lnkd.in" low) ≡ false
    → label_of host low ≡ "Twitter/X"
unfolding label_of
reddit_is_twitter host low either not_instagram not_linkedin =
    let reddit = includes-includes "reddi" "t.com" low in
    let pinterest = includes-includes "pinteres" "t.com" low in
    let shorter = includes-join "t.co" "m" low in ground (arith, reddit, pinterest, shorter)
