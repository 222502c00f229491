-- ===== src/Mcp/Idempotency.antt =====
-- mcp/server/idempotency.js. A payload is the JSON text of it with its keys sorted, a result its own
-- JSON text; `digest` is SHA-256 in hexadecimal. The map of the process is an association list.
use url_shortner_system_desi.Common.{
  ℕ, ◌+◌, ◌*◌, String, Bool, true, false, Option, none, some, [], ◌∷◌, ◌≡◌, refl, ap, ◌∙◌, concat,
  is_empty, if◌then◌else◌, ltb, leb, Dict, lookup, insert, lookup-insert, eq_refl, length,
}

pub record Saved : Type 0 where
  pub text : String
  pub expires_at : ℕ

-- `isRedisReady()`, and whether the commands of a ready connection throw
pub record Memo : Type 0 where
  pub now : ℕ
  pub redis_ready : Bool
  pub redis_fails : Bool
  pub redis : Dict Saved
  pub memory_store : Dict Saved

abbrev live : ℕ → Option Saved → Option String
live now none = none
live now (some e) = if ltb now e.expires_at then some e.text else none

-- an empty answer of Redis counts as none
abbrev nonempty_answer : Option String → Option String
nonempty_answer none = none
nonempty_answer (some text) = if is_empty text then none else some text

abbrev pub purged : ℕ → Dict Saved → Dict Saved
purged now [] = []
purged now ((k, e) ∷ rest) =
    if leb e.expires_at now then purged now rest else (k, e) ∷ purged now rest

-- beyond a thousand entries those that have expired go
abbrev pub tidied : ℕ → Dict Saved → Dict Saved
tidied now entries = if ltb 1000 (length entries) then purged now entries else entries

module _ (digest : String → String) where
  unfoldable pub compute_fingerprint : String → String → String → String
  compute_fingerprint user_id action payload =
      concat
        ("mcp:idempotency:" ∷ digest (concat (user_id ∷ ":" ∷ action ∷ ":" ∷ payload ∷ [])) ∷ [])

  -- what a command that throws finds is nothing
  unfoldable pub check_idempotency : String → String → String → Memo → Option String
  unfolding compute_fingerprint
  check_idempotency user_id action payload s =
      let key = compute_fingerprint user_id action payload in
      if s.redis_ready
      then if s.redis_fails then none else nonempty_answer (live s.now (lookup key s.redis))
      else live s.now (lookup key s.memory_store)

  unfoldable pub save_idempotency : String → String → String → String → ℕ → Memo → Memo
  unfolding compute_fingerprint
  save_idempotency user_id action payload result ttl_seconds s =
      let key = compute_fingerprint user_id action payload in
      let entry : Saved = record { text = result; expires_at = s.now + ttl_seconds * 1000 } in
      if s.redis_ready
      then if s.redis_fails then s else record s { redis = insert key entry s.redis }
      else record s { memory_store = tidied s.now (insert key entry s.memory_store) }

-- what was inserted is live until it expires
live-insert :
    (key : String) (e : Saved) (d : Dict Saved) (now : ℕ)
    → ltb now e.expires_at ≡ true
    → live now (lookup key (insert key e d)) ≡ some e.text
live-insert key e d now soon = rw (lookup-insert key key e d, eq_refl key, soon) refl

-- Where Redis works throughout, a result that is not empty and was saved for some seconds is what a
-- check of the same call finds before they are over.
check_idempotency-save :
    (digest : String → String) (user_id action payload result : String) (ttl_seconds later : ℕ)
    (s : Memo)
    → is_empty result ≡ false
    → ltb later (s.now + ttl_seconds * 1000) ≡ true
    → check_idempotency digest user_id action payload
        (record (save_idempotency digest user_id action payload result ttl_seconds
          (record s { redis_ready = true; redis_fails = false })) { now = later })
      ≡ some result
unfolding check_idempotency save_idempotency
check_idempotency-save digest user_id action payload result ttl_seconds later s full soon =
    ap nonempty_answer (
      live-insert (compute_fingerprint digest user_id action payload)
        (record { text = result; expires_at = s.now + ttl_seconds * 1000 }) s.redis later soon)
    ∙ ap (λ b. if b then none else some result) full
