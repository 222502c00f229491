-- ===== src/Links/Machine.antt =====
-- The link service as a machine: requests in any order, each run to its end, among clicks that the
-- worker records, changes of the subscriptions, outages and passing time.
use url_shortner_system_desi.Common.{
  ℕ, ◌+◌, String, Bool, Option, Error, Result, List, [], ◌∷◌, ◌++◌,
}
use url_shortner_system_desi.State.{User, Subscription, World, Click}
use url_shortner_system_desi.Links.Defs.{Config, NewLink, shorten_url, get_original_url}
use url_shortner_system_desi.Links.Edit.{LinkUpdate, update_short_url, deactivate_short_url}
use url_shortner_system_desi.Links.Handlers.{create_bulk_short_urls, moderate_delete_url}

pub data Request : Type 0 where
  create : NewLink → Option User → (ℕ → Result String) → Request
  create_bulk : List NewLink → User → (ℕ → ℕ → Result String) → Request
  resolve : String → Request
  edit : String → Option LinkUpdate → Option User → Request
  deactivate : String → Option User → Request
  moderate : ℕ → Option String → Request

pub data Event : Type 0 where
  request : Request → Event
  clicked : Click → Event
  subscribed : List Subscription → Event
  waited : ℕ → Event
  redis_changed : Bool → Bool → Event
  db_changed : Option Error → Event

module _ (config : Config) (hash : String → String) where
  unfoldable pub serve_request : Request → World → World
  serve_request (create link owner generate) w = (shorten_url config hash generate link owner w).1
  serve_request (create_bulk links owner generate) w =
      (create_bulk_short_urls config hash generate links owner w).1
  serve_request (resolve code) w = (get_original_url config code w).1
  serve_request (edit code fields editor) w = (update_short_url config hash code fields editor w).1
  serve_request (deactivate code editor) w = (deactivate_short_url code editor w).1
  serve_request (moderate id reason) w = (moderate_delete_url id reason w).1

  unfoldable pub happen : Event → World → World
  unfolding serve_request
  happen (request r) w = serve_request r w
  happen (clicked c) w = record w { clicks = w.clicks ++ c ∷ [] }
  happen (subscribed s) w = record w { subscriptions = s }
  happen (waited ms) w = record w { now = w.now + ms }
  happen (redis_changed ready fails) w = record w { redis_ready = ready; redis_fails = fails }
  happen (db_changed e) w = record w { db_error = e }

  unfoldable pub run : List Event → World → World
  unfolding happen
  run [] w = w
  run (e ∷ es) w = run es (happen e w)
