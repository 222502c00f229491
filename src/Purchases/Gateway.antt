-- ===== src/Purchases/Gateway.antt =====
-- services/billingGateway.js. The provider is a parameter: what it replies to each request, `none`
-- where no reply came in time. `retryAfterMs` only delays a queue and is left out.
use url_shortner_system_desi.Common.{
  ℕ, zero, suc, ◌+◌, String, Bool, ◌&&◌, ◌||◌, Option, none, some, List, [], ◌++◌, leb, ltb, ◌==◌,
  if◌then◌else◌, select, length, str_eq, Result, ok, err, app_error, app_error_with, Error,
}
use url_shortner_system_desi.Purchases.State.{Checkout}

-- a status and the JSON of the body, where there is any
pub record Reply (A : Type 0) : Type 0 where
  pub status : ℕ
  pub body : Option A

pub record Order : Type 0 where
  pub id : String
  pub amount : ℕ
  pub currency : String
  pub receipt : String
  pub checkout_id : Option String

-- a payment of the provider; an empty text is a field that is missing
pub record Entity : Type 0 where
  pub id : String
  pub order_id : String
  pub amount : ℕ
  pub currency : String
  pub status : String
  pub created_at : Option ℕ

pub record RefundEntity : Type 0 where
  pub id : String
  pub payment_id : String
  pub amount : ℕ
  pub status : String

-- Lists are `none` where the field `items` is no array.
pub record Gateway : Type 0 where
  pub is_configured : Bool
  pub create_order : Checkout → Option (Reply Order)
  pub order : String → Option (Reply Order)
  pub orders_by_receipt : String → Option (Reply (Option (List Order)))
  pub payment : String → Option (Reply Entity)
  pub order_payments : String → Option (Reply (Option (List Entity)))
  pub create_refund : String → ℕ → String → Option (Reply RefundEntity)
  pub refund : String → Option (Reply RefundEntity)
  pub refund_page : String → ℕ → Option (Reply (Option (List RefundEntity)))

abbrev pub provider_error : String → String → Error
provider_error message code = app_error_with message 409 none (some code)

abbrev pub unconfirmed : Error
unconfirmed =
    provider_error
      "The payment provider has not confirmed the result yet. Check status before trying another payment."
      "PAYMENT_UNCERTAIN"

abbrev pub uncertain : Error
uncertain =
    provider_error "The provider result is pending. Check status before retrying."
      "PAYMENT_UNCERTAIN"

abbrev pub rejected : Error
rejected =
    provider_error
      "The payment provider rejected this request. Contact billing support if the problem continues."
      "PAYMENT_REJECTED"

abbrev pub is_ok_status : ℕ → Bool
is_ok_status n = leb 200 n && ltb n 300

abbrev pub is_uncertain_status : ℕ → Bool
is_uncertain_status n = leb 500 n || n == 409 || n == 429

abbrev pub read_reply : {A : Type 0} → ℕ → Option A → Result A
read_reply status none = err uncertain
read_reply status (some a) =
    if is_ok_status status
    then ok a
    else err (if is_uncertain_status status then uncertain else rejected)

abbrev pub received : {A : Type 0} → Option (Reply A) → Result A
received none = err unconfirmed
received (some r) = read_reply r.status r.body

-- `request`
unfoldable pub request : {A : Type 0} → Gateway → Option (Reply A) → Result A
request g reply =
    if g.is_configured
    then received reply
    else err (app_error "Payments are not configured. Contact billing support." 409)

abbrev pub is_processed : RefundEntity → Bool
is_processed r = str_eq r.status "processed"

-- `fetchProcessedRefunds`: pages of 100, and at most 100 of them
module _ (g : Gateway) (payment_id : String) where
  abbrev read_page : Result (Option (List RefundEntity)) → Result (List RefundEntity)
  read_page (err e) = err e
  read_page (ok none) = err (app_error "Invalid refund response from provider." 409)
  read_page (ok (some items)) = ok items

  abbrev pub page_at : ℕ → Result (List RefundEntity)
  page_at skip = read_page (request g (g.refund_page payment_id skip))

  unfoldable pub collect_pages : ℕ → ℕ → List RefundEntity → Result (List RefundEntity)
  unfolding request
  collect_pages zero skip found =
      err (app_error "This refund history requires a billing review." 409)
  collect_pages (suc rounds) skip found = elim (page_at skip) [
    | err e ↦ err e
    | ok items ↦
        let all = found ++ select is_processed items in
        let more = collect_pages rounds (skip + 100) all in
        if ltb (length items) 100 then ok all else more
  ]

  unfoldable pub fetch_processed_refunds : Result (List RefundEntity)
  unfolding collect_pages
  fetch_processed_refunds = collect_pages 100 0 []
