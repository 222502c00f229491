-- ===== src/Lib.antt =====
-- The URL shortener's back end: links, their cache and limits, the codes and sessions of accounts,
-- payments and teams.
--
-- A request reaches a handler of backend/src/controllers, which calls the services of
-- backend/src/services, which run SQL through backend/src/repositories or Prisma and keep copies in
-- Redis. A handler is an `Action`: a function from the state to a value or an error and the state
-- after it, so that what was written before a throw stays written.
--
--   * Common: lists, texts, association lists, the errors of backend/src/utils/AppError.js, the
--     monad of actions, and the rules by which an action keeps an invariant (Common/Invariants).
--   * ShortCode: backend/src/utils/generateShortCode.js, validateShortCode.js and
--     middlewares/validateShortCode.middleware.js. The draws of `crypto.randomInt` are a parameter.
--   * State: the tables of backend/prisma/schema.prisma that links and plans use, Redis, the clock,
--     and the outages of both stores.
--   * Repository: backend/src/repositories/url.repository.js, a statement of SQL as one step.
--   * Cache: backend/src/services/cache.service.js, `getCachedUrl`, `setCachedUrl`,
--     `invalidateCache`. An entry keeps the text that was stored: the JSON of a link, or a plain one.
--   * Plans: backend/src/services/planLimitService.js (Plans/Defs the active subscription,
--     Plans/Gating the checks).
--   * Links: backend/src/services/url.service.js (Links/Defs, Links/Edit), the redirect and the bulk
--     creation of backend/src/controllers/url.controller.js and the moderation of
--     backend/src/controllers/admin.controller.js (Links/Handlers), and requests in any order
--     (Links/Machine). A JavaScript field that may be absent is an Option, one that may be absent or
--     null is an Option of an Option.
--   * Auth: backend/src/services/auth.service.js with backend/src/repositories/user.repository.js:
--     one-time codes in Redis (Auth/Otp), refresh tokens and password resets (Auth/Sessions),
--     registration and passwords (Auth/Accounts), the second step of a login (Auth/SecondStep), and
--     backend/src/services/twoFactor.service.js (Auth/TwoFactor).
--   * Access: backend/src/middlewares/auth.middleware.js (Access/Gate: the token, the cached status,
--     roles, ownership, teams) and the changes of statuses and roles in
--     backend/src/controllers/admin.controller.js (Access/Admin), and backend/src/utils/urlAccess.js
--     and socketAuthorization.js (Access/Urls, Access/Sockets). `jwt.verify` is a parameter.
--   * Billing: the queue of backend/src/services/billingRecovery.js (Billing/Queue), the order of
--     texts in the database and the random factor of the delay being parameters, and amounts,
--     discounts and refunds (Billing/Policy) and the ends of periods (Billing/Period) of
--     backend/src/services/billingPolicy.js.
--   * Mcp: backend/src/mcp/server/permissions.js, with `checkFeature` of
--     backend/src/mcp/server/context.js (Mcp/Permissions), and idempotency.js (Mcp/Idempotency).
--   * Location: backend/src/utils/location.js, addresses (Location/Addresses) and the bounded cache
--     (Location/Resolver). `geoip.lookup` and `net.isIP` are parameters.
--   * Failures: backend/src/middlewares/error.middleware.js and notFound.middleware.js.
--   * Analytics: backend/src/utils/analyticsWindow.js. The loop over a chart's buckets recurses on
--     fuel, one more than the milliseconds of its end, and a bucket moves it by an hour or more.
--   * Clicks: backend/worker/index.js: user agents and referrers (Clicks/Classify), clicks and their
--     rollups (Clicks/Ingest), the checks of links (Clicks/Health) and the daily run over ended
--     subscriptions (Clicks/Dunning). `UAParser`, `URL`, SHA-256 and PFADD are parameters.
--   * Purchases: backend/src/services/billing.service.js and billingGateway.js. The tables are a
--     `Ledger` (Purchases/State), each function is an action on it, and `locked` takes the writes of a
--     transaction that throws back. Gateway: the provider as a record of replies, `none` where none
--     came in time, and the loop over pages of refunds, with the hundred rounds of the source as its
--     fuel. Coupons, Activation: what a payment grants. Attempts, Reserve, Checkout:
--     `createBillingOrder`. Settlement: `settlePayment` and `verifyBillingPayment`. Balance, Refunds,
--     Requests: refunds and their reconciliation. Sync, Webhooks: `syncBillingPayment`, `syncBillingCheckout` and
--     `processBillingWebhook`. Machine runs any calls of these, one after the other, each with its own
--     clock and provider. `Date`, the identifiers that the database makes, its order of texts, the
--     HMAC, `toUpperCase` and the rounding of an amount to minor units are parameters. A billing
--     profile's copy in a payment, `Retry-After` and `publicPayment` decide nothing and are left out.
--   * Teams: backend/src/controllers/team.controller.js (Teams/Handlers) on a `Roster`, the tables of
--     teams beside those of the link service, which plans are read from.
--
-- The retry loop recurses on the number of attempts that its caller allows, the loop over a chart's
-- buckets on fuel, and the loop over the pages of a provider on the rounds that the source allows; no
-- other loop of the code needs a bound. Times are milliseconds since the epoch; identifiers of links
-- are natural numbers, those of other rows mostly texts. Requests run to their end one after the
-- other; two requests do not interleave inside a
-- handler.
--
-- Parameters: the draws of random values, bcrypt, TOTP, the encryption of secrets, the digests of
-- codes and tokens, the QR encoder, whether a mail goes out, what `jwt.verify` makes of a token. Not
-- modelled: spans, metrics and logs, which decide nothing; the columns that no modelled decision
-- reads; the routes of billing; the SQL of analytics; API keys and webhooks; the tools of the
-- MCP gateway; the front end.
pub mod Common
pub mod ShortCode
pub mod State
pub mod Repository
pub mod Cache
pub mod Plans
pub mod Links
pub mod Auth
pub mod Access
pub mod Billing
pub mod Mcp
pub mod Location
pub mod Failures
pub mod Analytics
pub mod Clicks
pub mod Purchases
pub mod Teams
