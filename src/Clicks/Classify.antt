-- ===== src/Clicks/Classify.antt =====
-- What the worker makes of a user agent and of a referrer. `UAParser` and `URL` are parameters.
use url_shortner_system_desi.Common.{
  String, Bool, false, not, ◌&&◌, ◌||◌, Option, none, some, List, [], ◌∷◌, if◌then◌else◌, str_eq,
  is_empty, nonempty, includes, lowercase, drop_prefix, concat, any,
}

-- `getVisitorKey`
unfoldable pub visitor_key : Option String → String → String → String → String
visitor_key visitor_id session_id ip ua = elim (nonempty visitor_id) [
  | some id ↦ concat ("cookie:" ∷ id ∷ [])
  | none ↦
      if not (is_empty session_id)
      then concat ("session:" ∷ session_id ∷ [])
      else concat (
          "ipua:"
          ∷ (if is_empty ip then "unknown" else ip)
          ∷ ":"
          ∷ (if is_empty ua then "unknown" else ua)
          ∷ [])
]

-- what `UAParser` reads of a user agent
pub record ParsedAgent : Type 0 where
  pub device_type : Option String
  pub device_model : Option String
  pub browser_name : Option String
  pub browser_version : Option String
  pub os_name : Option String
  pub os_version : Option String

abbrev pub or_word : Option String → String → String
or_word o word = elim (nonempty o) [ none ↦ word | some s ↦ s ]

-- the alternatives of `botRegex`, which ignores case
abbrev pub bot_words : List String
bot_words =
    "bot" ∷ "crawl" ∷ "spider" ∷ "slurp" ∷ "tracker" ∷ "googlebot" ∷ "bingbot" ∷ "yandex" ∷ "baidu"
    ∷ "duckduckbot" ∷ []

abbrev pub is_bot_device : Option String → Bool
is_bot_device none = false
is_bot_device (some t) = str_eq t "bot"

-- `isUserAgentBot`
unfoldable pub is_user_agent_bot : String → ParsedAgent → Bool
unfolding includes lowercase
is_user_agent_bot ua parsed =
    is_bot_device parsed.device_type || any (λ word. includes word (lowercase ua)) bot_words

pub record Client : Type 0 where
  pub device_type : String
  pub browser_name : String
  pub os_name : String

abbrev pub with_tool : Client → String → String → Client
with_tool c device browser = record c { device_type = device; browser_name = browser }

abbrev pub known_os : String → String
known_os os = if str_eq os "Unknown" then "API Environment" else os

-- API clients, command lines and developers' tools, in a user agent in lower case
unfoldable pub named_tool : String → Client → Client
unfolding includes
named_tool ua c =
    if includes "postman" ua || includes "postmanruntime" ua
    then record (with_tool c "Postman" "Postman Client") { os_name = known_os c.os_name }
    else if includes "curl" ua
    then with_tool c "CLI Client" "curl"
    else if includes "wget" ua
    then with_tool c "CLI Client" "wget"
    else if includes "http" ua
    then (if includes "python-requests" ua
        then with_tool c "CLI Client" "Python Requests"
        else if includes "axios" ua || includes "node-fetch" ua
        then with_tool c "API Client" "Node.js App"
        else c)
    else c

unfoldable pub handheld : String → String → String
unfolding includes
handheld ua device =
    if str_eq device "mobile"
    then "smartphone"
    else if str_eq device "tablet"
    then "tablet"
    else if str_eq device "desktop"
    then (if includes "ipad" ua
        then "tablet"
        else if includes "iphone" ua || (includes "android" ua && not (includes "tablet" ua))
        then "smartphone"
        else device)
    else device

abbrev pub default_client : ParsedAgent → Client
default_client parsed = record {
  device_type = or_word parsed.device_type "desktop";
  browser_name = or_word parsed.browser_name "Unknown";
  os_name = or_word parsed.os_name "Unknown";
}

unfoldable pub client_of : String → ParsedAgent → Client
unfolding named_tool handheld lowercase
client_of user_agent parsed =
    if is_empty user_agent
    then default_client parsed
    else let c = named_tool (lowercase user_agent) (default_client parsed) in
      record c { device_type = handheld (lowercase user_agent) c.device_type }

abbrev pub without_www : String → String
without_www host = elim (drop_prefix "www." host) [ none ↦ host | some rest ↦ rest ]

-- the label of a referring host; `low` is the host in lower case
unfoldable pub label_of : String → String → String
unfolding includes drop_prefix
label_of host low =
    if includes "instagram.com" low
    then "Instagram"
    else if includes "linkedin.com" low || includes "lnkd.in" low
    then "LinkedIn"
    else if includes "twitter.com" low || includes "t.co" low || includes "x.com" low
    then "Twitter/X"
    else if includes "facebook.com" low || includes "fb.com" low || includes "messenger.com" low
    then "Facebook"
    else if includes "reddit.com" low
    then "Reddit"
    else if includes "youtube.com" low || includes "youtu.be" low
    then "YouTube"
    else if includes "google.com" low
    then "Google Search"
    else if includes "naukri.com" low
    then "Naukri"
    else if includes "yahoo.com" low
    then "Yahoo"
    else if includes "bing.com" low
    then "Bing"
    else if includes "github.com" low
    then "GitHub"
    else if includes "pinterest.com" low
    then "Pinterest"
    else if includes "quora.com" low
    then "Quora"
    else if includes "whatsapp.com" low || includes "wa.me" low
    then "WhatsApp"
    else if includes "telegram.org" low || includes "t.me" low
    then "Telegram"
    else if includes "slack.com" low
    then "Slack"
    else without_www host

-- a click without a referrer, by its user agent in lower case
unfoldable pub tool_source : String → String
unfolding includes
tool_source ua =
    if includes "postman" ua || includes "postmanruntime" ua
    then "Postman"
    else if includes "curl" ua
    then "curl"
    else if includes "wget" ua
    then "wget"
    else if includes "python-requests" ua
    then "Python Requests"
    else if includes "axios" ua || includes "node-fetch" ua
    then "Node.js API"
    else "Direct"

-- `host_of` is `new URL(referrer).hostname`, none where the constructor throws
module _ (host_of : String → Option String) where
  unfoldable pub referrer_host : String → String → String
  unfolding label_of tool_source lowercase
  referrer_host referrer user_agent =
      if is_empty referrer || str_eq referrer "Direct"
      then tool_source (lowercase user_agent)
      else elim (host_of referrer) [ none ↦ "Unknown" | some host ↦ label_of host (lowercase host) ]
