-- ===== src/Auth.antt =====
-- services/auth.service.js and repositories/user.repository.js: one-time codes, sessions and their
-- tokens.
mod State
mod Otp
mod Sessions
mod TwoFactor
mod Accounts
mod SecondStep
pub mod Enrolment
pub mod Logins
pub mod Guesses
mod LoginTests
pub mod Guessing
pub mod Rotation
mod Tests
unfoldable pub use State.*
unfoldable pub use Otp.*
unfoldable pub use Accounts.*
unfoldable pub use SecondStep.*
unfoldable pub use TwoFactor.*
unfoldable pub use Sessions.*
