-- ===== src/Links/Handlers.antt =====
-- controllers/url.controller.js: the redirect and the bulk creation; the moderation of a link in
-- controllers/admin.controller.js.
use url_shortner_system_desi.Common.{
  ℕ, ◌+◌, String, Bool, true, false, not, ◌&&◌, ◌||◌, Option, none, some, List, [], ◌∷◌, Action, ok,
  pure, Error, Result, length, find, count, select, gets, throw_if, ◌>>=◌, ◌>>◌, str_eq, ◌==◌, ltb,
  if◌then◌else◌, concat, show_nat, truthy, is_empty, app_error, plan_limit_error,
}
use url_shortner_system_desi.State.{User, Url, Click, CachedUrl, World, query, execute}
use url_shortner_system_desi.Plans.{get_active_subscription, limit_of, is_active_of}
use url_shortner_system_desi.Links.Defs.{
  Config, UrlResponse, NewLink, shorten_url, get_original_url, not_found, or_else,
}
use url_shortner_system_desi.Links.Edit.{or_throw}

-- what the redirect reads of a request; `ip` is the normalised client address or "unknown"
pub record RedirectRequest : Type 0 where
  pub short_code : String
  pub password : Option String
  pub ip : String
  pub user_agent : String
  pub referrer : String
  pub session_id : String
  pub visitor_id : Option String
  pub qr : Option String
  pub src : Option String

pub record ClickJob : Type 0 where
  pub url_id : String
  pub ip : String
  pub user_agent : String
  pub referrer : String
  pub session_id : String
  pub visitor_id : String
  pub is_qr_scan : Bool
  pub timestamp : ℕ

-- the location of the redirect, the cookie that is set, and the job that is queued
pub record RedirectResponse : Type 0 where
  pub location : String
  pub visitor_cookie : Option String
  pub job : Option ClickJob

abbrev pub is_text : Option String → String → Bool
is_text none s = false
is_text (some t) s = str_eq t s

abbrev pub is_qr_scan_of : RedirectRequest → Bool
is_qr_scan_of req = is_text req.qr "true" || is_text req.qr "1" || is_text req.src "qr"

-- `existingVisitorId || randomUUID()`
abbrev pub visitor_of : String → Option String → String
visitor_of uuid none = uuid
visitor_of uuid (some id) = if is_empty id then uuid else id

module _ (config : Config) (bcrypt_compare : String → String → Bool) (uuid : String) where
  unfoldable pub password_page : RedirectRequest → RedirectResponse
  password_page req = record {
    location = concat (
        config.client_url
        ∷ "/p/"
        ∷ req.short_code
        ∷ (if truthy req.password then "?error=true" else "")
        ∷ []);
    visitor_cookie = none;
    job = none;
  }

  -- no hash, or a given password that matches it
  unfoldable pub is_unlocked : RedirectRequest → Option String → Bool
  is_unlocked req none = true
  is_unlocked req (some hash) =
      is_empty hash || (truthy req.password && bcrypt_compare (or_else req.password "") hash)

  unfoldable pub target_page : RedirectRequest → ℕ → CachedUrl → RedirectResponse
  target_page req now c = record {
    location = or_else c.long_url "";
    visitor_cookie = if truthy c.id && not (truthy req.visitor_id) then some uuid else none;
    job =
        if truthy c.id
        then some (record {
          url_id = or_else c.id "";
          ip = req.ip;
          user_agent = req.user_agent;
          referrer = req.referrer;
          session_id = req.session_id;
          visitor_id = visitor_of uuid req.visitor_id;
          is_qr_scan = is_qr_scan_of req;
          timestamp = now;
        })
        else none;
  }

  unfoldable pub redirect_url : RedirectRequest → Action World RedirectResponse
  unfolding password_page is_unlocked target_page
  redirect_url req = do
    c ← get_original_url config req.short_code
    now ← gets (λ (w : World). w.now)
    pure (if is_unlocked req c.password_hash then target_page req now c else password_page req)

module _ (config : Config) (bcrypt_hash : String → String) where
  -- the loop over the batch; `generate k i` is the code of round `i` for the item `k`
  unfoldable pub shorten_all :
      (ℕ → ℕ → Result String) → ℕ → List NewLink → User → Action World (List UrlResponse)
  shorten_all generate k [] owner = pure []
  shorten_all generate k (link ∷ links) owner = do
    first ← shorten_url config bcrypt_hash (generate k) link (some owner)
    rest ← shorten_all generate (k + 1) links owner
    pure (first ∷ rest)

  abbrev pub exceeds : Option ℕ → ℕ → Bool
  exceeds none n = false
  exceeds (some max_urls) n = ltb max_urls n

  batch_rejected : ℕ → Option ℕ → ℕ → Error
  batch_rejected size max_urls active_count = plan_limit_error "max_urls" (
      concat (
        "Creating this batch of "
        ∷ show_nat size
        ∷ " URLs would exceed your plan limit of "
        ∷ show_nat (or_else max_urls 0)
        ∷ " URLs (current: "
        ∷ show_nat active_count
        ∷ "). Batch rejected."
        ∷ []))

  unfoldable pub create_bulk_short_urls :
      (ℕ → ℕ → Result String) → List NewLink → User → Action World (List UrlResponse)
  unfolding shorten_all or_throw batch_rejected
  create_bulk_short_urls generate links owner = do
    throw_if (length links == 0) (app_error "Invalid payload. Expected non-empty urls array." 400)
    active_count ← query (λ w. count (is_active_of owner.id) w.urls)
    sub ← get_active_subscription owner.id
    limit ← or_throw (app_error "No active subscription found." 403) (limit_of sub)
    throw_if (exceeds limit.max_urls (active_count + length links))
        (batch_rejected (length links) limit.max_urls active_count)
    shorten_all generate 0 links owner

-- A hard delete, which takes the clicks of the link along.
unfoldable pub delete_link : ℕ → Action World (Unit {0})
delete_link id = execute λ w. (
  ok tt,
  record w {
    urls = select (λ (u : Url). not (u.id == id)) w.urls;
    clicks = select (λ (c : Click). not (c.url_id == id)) w.clicks;
  },
)

-- The audit record is left out.
unfoldable pub moderate_delete_url : ℕ → Option String → Action World (Unit {0})
unfolding or_throw delete_link
moderate_delete_url id reason = do
  throw_if (not (truthy reason)) (app_error "A moderation reason is required" 400)
  found ← query (λ w. find (λ (u : Url). u.id == id) w.urls)
  _ ← or_throw not_found found
  delete_link id
