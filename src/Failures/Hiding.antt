-- ===== src/Failures/Hiding.antt =====
-- What an answer tells of a failure inside the server.
use url_shortner_system_desi.Common.{ℕ, true, ◌||◌, Option, arith, ◌≡◌, Error, leb}
use url_shortner_system_desi.Failures.{error_handler, status_of, message_of, is_constraint_error}

-- The answer depends on a failure inside the server, one without a status, with a status from 500
-- on, or from a constraint of the database, by its status and its codes alone: two such errors
-- that agree in these are answered alike, whatever their messages and details say.
pub error_handler_hides :
    (retry : Option ℕ) (e f : Error)
    → (is_constraint_error e.code || leb 500 (status_of e)) ≡ true
    → e.code ≡ f.code
    → e.status_code ≡ f.status_code
    → e.error_code ≡ f.error_code
    → error_handler retry e ≡ error_handler retry f
unfolding error_handler message_of
error_handler_hides retry e f inside same_code same_status same_error = ground arith
