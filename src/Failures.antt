-- ===== src/Failures.antt =====
-- middlewares/error.middleware.js and middlewares/notFound.middleware.js: the answer to a request
-- whose handler failed. What is logged is left out.
pub mod Hiding
mod Tests
use url_shortner_system_desi.Common.{
  ℕ, zero, suc, String, Bool, true, false, not, ◌&&◌, ◌||◌, Option, none, some, List, ◌∷◌, [],
  Error, leb, ltb, ◌==◌, if◌then◌else◌, is_empty, starts_with, app_error, concat,
}

pub record FailureBody : Type 0 where
  pub message : String
  pub code : String
  pub details : Option (List (String × String))

pub record Failure : Type 0 where
  pub status : ℕ
  pub retry_after : Option ℕ
  pub body : FailureBody

abbrev pub or_default : Option ℕ → ℕ → ℕ
or_default none n = n
or_default (some zero) n = n
or_default (some (suc m)) n = suc m

-- `err.statusCode || 500`
abbrev pub status_of : Error → ℕ
status_of e = or_default e.status_code 500

abbrev pub or_text : String → String → String
or_text s fallback = if is_empty s then fallback else s

-- the message by the status, before the test for an error of PostgreSQL
unfoldable pub message_of : ℕ → String → String
message_of status message =
    if status == 400
    then or_text message "Validation failed"
    else if status == 404
    then or_text message "Resource not found"
    else if status == 409
    then or_text message "Conflict"
    else if status == 410
    then or_text message "Resource is no longer available"
    else if status == 429
    then or_text message "Too many requests"
    else if leb 500 status
    then "Internal server error"
    else message

unfoldable pub error_code_of : ℕ → String
error_code_of status =
    if status == 400
    then "BAD_REQUEST"
    else if status == 401
    then "UNAUTHORIZED"
    else if status == 403
    then "FORBIDDEN"
    else if status == 404
    then "NOT_FOUND"
    else if status == 409
    then "CONFLICT"
    else if status == 410
    then "GONE"
    else if status == 429
    then "TOO_MANY_REQUESTS"
    else "INTERNAL_SERVER_ERROR"

-- `err?.code && err.code.startsWith("23")`
unfoldable pub is_constraint_error : Option String → Bool
unfolding starts_with
is_constraint_error none = false
is_constraint_error (some code) = starts_with "23" code

abbrev pub code_or : Option String → String → String
code_or none code = code
code_or (some given) code = or_text given code

-- `retry` is the field `retryAfter`, which an error need not have.
unfoldable pub error_handler : Option ℕ → Error → Failure
unfolding message_of error_code_of is_constraint_error
error_handler retry e = record {
  status = status_of e;
  retry_after = if status_of e == 429 then some (or_default retry 60) else none;
  body = record {
    message =
        if is_constraint_error e.code
        then "Database error occurred"
        else message_of (status_of e) e.message;
    code = code_or e.error_code (error_code_of (status_of e));
    details = if is_constraint_error e.code || leb 500 (status_of e) then none else e.details;
  };
}

-- `notFoundHandler`
unfoldable pub not_found_handler : String → Error
not_found_handler original_url =
    app_error (concat ("Route " ∷ original_url ∷ " not found" ∷ [])) 404
