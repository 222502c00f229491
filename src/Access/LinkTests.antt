-- ===== src/Access/LinkTests.antt =====
-- Access to links at concrete inputs.
use url_shortner_system_desi.Common.{
  ℕ, ◌≤◌, ◌<◌, String, Option, none, some, ok, err, ◌≡◌, ◌⊎◌, refl, show_nat,
}
use url_shortner_system_desi.State.{Url, user}
use url_shortner_system_desi.Links.Samples.{bob, link_of_ann}
use url_shortner_system_desi.Access.State.{Person, active}
use url_shortner_system_desi.Access.Urls.{
  max_url_id, invalid_id, read_onto, read_number, parse_url_id, access_as, see_link,
  assert_url_access, parse_url_id-show_nat, assert_url_access-hides,
}
use url_shortner_system_desi.Access.Sockets.{
  SocketClaims, SocketUser, IsCurrent, MaySee, as_user, admit_socket, authenticate, enter_room,
  authorize_room, authorize_room_sound,
}

parse_url_id-show_nat_example :
    ((1 ≤ 42) × (42 ≤ max_url_id) × (parse_url_id (show_nat 42) ≡ ok 42))
    ⊎ (((42 < 1) ⊎ (max_url_id < 42)) × (parse_url_id (show_nat 42) ≡ err invalid_id))
parse_url_id-show_nat_example = parse_url_id-show_nat 42

abbrev one_link : ℕ → Option Url
one_link n = some link_of_ann

abbrev no_link : ℕ → Option Url
no_link n = none

assert_url_access-hides_example :
    assert_url_access "1" (some bob) one_link ≡ assert_url_access "1" (some bob) no_link
assert_url_access-hides_example = assert_url_access-hides "1" bob one_link no_link refl (λ n. refl)

abbrev watcher : Person
watcher = record {
  id = "ann";
  email = "ann@x.in";
  role = user;
  status = active;
  token_version = 3;
  password_hash = none;
}

abbrev people : String → Option Person
people id = some watcher

abbrev claims : SocketClaims
claims = record { user_id = "ann"; token_version = some 3; exp = none }

abbrev watching : SocketUser
watching = record { person = watcher; expires_at = none }

ann_enters : authorize_room "1" people one_link (ok claims) ≡ ok watching
unfolding authorize_room authenticate admit_socket enter_room assert_url_access parse_url_id
    read_number read_onto access_as see_link
ann_enters = refl

authorize_room_sound_example :
    (people "ann" ≡ some watcher)
    × IsCurrent claims watcher
    × (n : ℕ) × (l : Url) × (parse_url_id "1" ≡ ok n)
    × (one_link n ≡ some l)
    × MaySee (as_user watcher) l
authorize_room_sound_example = authorize_room_sound "1" people one_link claims watching ann_enters
