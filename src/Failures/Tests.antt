-- ===== src/Failures/Tests.antt =====
-- Answers to failures at concrete errors.
use url_shortner_system_desi.Common.{true, String, none, some, ◌≡◌, refl, Error, app_error}
use url_shortner_system_desi.Failures.{error_handler, not_found_handler, is_constraint_error}
use url_shortner_system_desi.Failures.Hiding.{error_handler_hides}

abbrev duplicate : String → Error
duplicate message = record (app_error message 409) { code = some "23505" }

not_found_answer : error_handler none (not_found_handler "/x") ≡ record {
  status = 404;
  retry_after = none;
  body = record { message = "Route /x not found"; code = "NOT_FOUND"; details = none };
}
unfolding error_handler not_found_handler
not_found_answer = refl

inside : is_constraint_error (some "23505") ≡ true
unfolding is_constraint_error
inside = refl

error_handler_hides_example :
    error_handler none (duplicate "key (ann@x.in) exists") ≡ error_handler none (duplicate "")
error_handler_hides_example =
    error_handler_hides none (duplicate "key (ann@x.in) exists") (duplicate "") (rw inside refl)
      refl refl refl
