-- ===== src/Access/Sockets.antt =====
-- utils/socketAuthorization.js: who may watch a link's live clicks. `verifyToken`, `findUser` and
-- `findUrl` are given by what they answer.
use url_shortner_system_desi.Common.{
  is_empty, ℕ, ◌*◌, ◌==◌, String, true, false, not, ◌||◌, Option, none, some, if◌then◌else◌, arith,
  ◌≡◌, refl, sym, ◌∙◌, ap, inl, inr, Bool-cases, Result, ok, err, Error, app_error,
}
use url_shortner_system_desi.State.{User, Url, is_admin, sql_eq}
use url_shortner_system_desi.Access.State.{Person, is_active}
use url_shortner_system_desi.Access.Gate.{stale}
use url_shortner_system_desi.Access.Urls.{see_link, access_as, parse_url_id, assert_url_access}

pub record SocketClaims : Type 0 where
  pub user_id : String
  pub token_version : Option ℕ
  pub exp : Option ℕ

pub record SocketUser : Type 0 where
  pub person : Person
  pub expires_at : Option ℕ

-- a plain `Error`
abbrev pub unauthenticated : Error
unauthenticated = record (app_error "Authentication required" 500) {
  status_code = none;
  is_operational = false;
}

abbrev pub expiry : Option ℕ → Option ℕ
expiry none = none
expiry (some s) = if s == 0 then none else some (s * 1000)

abbrev pub as_user : Person → User
as_user p = record { id = p.id; email = p.email; role = p.role }

unfoldable pub admit_socket : SocketClaims → Option Person → Result SocketUser
admit_socket claims none = err unauthenticated
admit_socket claims (some p) =
    if not (is_active p.status) || stale claims.token_version p.token_version
    then err unauthenticated
    else ok (record { person = p; expires_at = expiry claims.exp })

unfoldable pub authenticate : (String → Option Person) → Result SocketClaims → Result SocketUser
unfolding admit_socket
authenticate find_user (err e) = err e
authenticate find_user (ok claims) = admit_socket claims (find_user claims.user_id)

abbrev pub seen : SocketUser → Result Url → Result SocketUser
seen v (ok l) = ok v
seen v (err e) = err e

unfoldable pub enter_room : String → (ℕ → Option Url) → Result SocketUser → Result SocketUser
enter_room raw find_url (err e) = err e
enter_room raw find_url (ok v) = seen v (assert_url_access raw (some (as_user v.person)) find_url)

unfoldable pub authorize_room :
    String → (String → Option Person) → (ℕ → Option Url) → Result SocketClaims → Result SocketUser
unfolding authenticate enter_room
authorize_room raw find_user find_url claims =
    enter_room raw find_url (authenticate find_user claims)

abbrev person_or : Person → Result SocketUser → Person
person_or p (ok v) = v.person
person_or p (err e) = p

abbrev user_or : SocketUser → Result SocketUser → SocketUser
user_or w (ok v) = v
user_or w (err e) = w

-- A link that a user may see.
abbrev pub MaySee : User → Url → Type 0
MaySee u l = (is_admin u.role || sql_eq l.user_id (some u.id)) ≡ true

see_link_sound :
    (u : User) (o : Option Url) (l : Url)
    → see_link u o ≡ ok l
    → (k : Url) × (o ≡ some k) × MaySee u k
unfolding see_link
see_link_sound u none l h = absurd (ground arith)
see_link_sound u (some k) l h = (
  k,
  refl,
  ground (arith, Bool-cases (is_admin u.role), Bool-cases (sql_eq k.user_id (some u.id))),
)

access_as_sound :
    (u : User) (find_url : ℕ → Option Url) (r : Result ℕ) (l : Url)
    → access_as (some u) find_url r ≡ ok l
    → (n : ℕ) × (k : Url) × (r ≡ ok n) × (find_url n ≡ some k) × MaySee u k
unfolding access_as
access_as_sound u find_url (err e) l h = absurd (ground arith)
access_as_sound u find_url (ok n) l h = elim (Bool-cases (is_empty u.id)) [
  | inl nobody ↦ absurd (ground (arith, nobody))
  | inr named ↦
      let (k, there, may) = see_link_sound u (find_url n) l (sym (rw named refl) ∙ h) in
      (n, k, refl, there, may)
]

-- A person whose token counts.
abbrev pub IsCurrent : SocketClaims → Person → Type 0
IsCurrent claims p =
    (is_active p.status ≡ true) × (stale claims.token_version p.token_version ≡ false)

admit_socket_sound :
    (claims : SocketClaims) (o : Option Person) (v : SocketUser)
    → admit_socket claims o ≡ ok v
    → (p : Person) × (o ≡ some p) × IsCurrent claims p × (p ≡ v.person)
unfolding admit_socket
admit_socket_sound claims none v h = absurd (ground arith)
admit_socket_sound claims (some p) v h =
    elim (Bool-cases (not (is_active p.status) || stale claims.token_version p.token_version)) [
      | inl barred ↦ absurd (ground (arith, barred))
      | inr good ↦
          let let_in : admit_socket claims (some p)
              ≡ ok (record { person = p; expires_at = expiry claims.exp }) =
            rw good refl in
          (p, refl, (ground (arith, good), ground (arith, good)), ap (person_or p) (sym let_in ∙ h))
    ]

seen_sound :
    (w v : SocketUser) (r : Result Url) → seen w r ≡ ok v → (l : Url) × (r ≡ ok l) × (w ≡ v)
seen_sound w v (ok l) h = (l, refl, ap (user_or w) h)
seen_sound w v (err e) h = absurd (ground arith)

enter_room_sound :
    (raw : String) (find_url : ℕ → Option Url) (r : Result SocketUser) (v : SocketUser)
    → enter_room raw find_url r ≡ ok v
    → (r ≡ ok v)
      × (n : ℕ) × (l : Url) × (parse_url_id raw ≡ ok n)
      × (find_url n ≡ some l)
      × MaySee (as_user v.person) l
unfolding enter_room assert_url_access
enter_room_sound raw find_url (err e) v h = absurd (ground arith)
enter_room_sound raw find_url (ok w) v h =
    let (l, seen_it, same) =
      seen_sound w v (assert_url_access raw (some (as_user w.person)) find_url) h in
    let (n, k, parsed, there, may) =
      access_as_sound (as_user w.person) find_url (parse_url_id raw) l seen_it in
    (
      ap ok same,
      n,
      k,
      parsed,
      there,
      ap (λ (x : SocketUser). is_admin x.person.role || sql_eq k.user_id (some x.person.id))
            (sym same)
          ∙ may,
    )

-- Whoever enters the room of a link is found under the identifier of a verified token, is active, has
-- a token of the current version, and names by its decimal number a link in the table that the
-- person owns or, as an administrator, may see anyway.
pub authorize_room_sound :
    (raw : String) (find_user : String → Option Person) (find_url : ℕ → Option Url)
    (claims : SocketClaims) (v : SocketUser)
    → authorize_room raw find_user find_url (ok claims) ≡ ok v
    → (find_user claims.user_id ≡ some v.person)
      × IsCurrent claims v.person
      × (n : ℕ) × (l : Url) × (parse_url_id raw ≡ ok n)
      × (find_url n ≡ some l)
      × MaySee (as_user v.person) l
unfolding authorize_room authenticate
authorize_room_sound raw find_user find_url claims v h =
    let (entered, n, l, parsed, there, may) =
      enter_room_sound raw find_url (admit_socket claims (find_user claims.user_id)) v h in
    let (p, found, current, same) =
      admit_socket_sound claims (find_user claims.user_id) v entered in
    (
      found ∙ ap some same,
      (
        ap (λ q. is_active q.status) (sym same) ∙ current.0,
        ap (λ q. stale claims.token_version q.token_version) (sym same) ∙ current.1,
      ),
      n,
      l,
      parsed,
      there,
      may,
    )
