-- ===== src/Teams/Tests.antt =====
-- The statements about teams at concrete inputs.
use url_shortner_system_desi.Common.{
  if◌then◌else◌, str_eq, ℕ, zero, suc, String, none, some, List, [], ◌∷◌, arith, ◌≡◌, refl, ap,
  app_error, count_chars, count,
}
use url_shortner_system_desi.Links.Samples.{world}
use url_shortner_system_desi.Access.{owner, team_admin, member, accepted, pending}
use url_shortner_system_desi.Teams.State.{Roster, Team, Membership}
use url_shortner_system_desi.Teams.Rows.{IsOwned}
use url_shortner_system_desi.Teams.Handlers.{is_seat_of}
use url_shortner_system_desi.Teams.Owners.{
  TeamCall, accept, revoke, after_team_calls, after_team_calls-IsOwned,
}

unfoldable digits : ℕ → String
digits zero = ""
digits (suc n) = Prim.Native.String.◌∷◌ "m" (digits n)

count_chars-digits : (n : ℕ) → count_chars (digits n) ≡ n
unfolding digits
count_chars-digits zero = refl
count_chars-digits (suc n) = ap suc (count_chars-digits n)

abbrev crew : Team
crew = record { id = "t1"; name = "crew"; owner_id = "ann" }

abbrev ann_row : Membership
ann_row = record {
  id = "a";
  team_id = "t1";
  user_id = "ann";
  role = owner;
  status = accepted;
  joined_at = some 1;
}

abbrev bob_row : Membership
bob_row = record ann_row { id = "bb"; user_id = "bob"; role = team_admin }

abbrev eve_row : Membership
eve_row = record ann_row {
  id = "ccc";
  user_id = "eve";
  role = member;
  status = pending;
  joined_at = none;
}

abbrev roster : Roster
roster = record {
  world = world;
  drawn = 4;
  teams = crew ∷ [];
  memberships = ann_row ∷ bob_row ∷ eve_row ∷ [];
}

abbrev after : List (String × TeamCall) → Roster → Roster
after = after_team_calls digits (app_error "Invalid value for argument `role`." 500)

-- an administrator tries to remove the owner, then an invitation is accepted
abbrev day : List (String × TeamCall)
day = ("bob", revoke "t1" "ann") ∷ ("eve", accept "t1") ∷ ("bob", revoke "t1" "eve") ∷ []

roster-IsOwned : IsOwned count_chars roster
roster-IsOwned = record {
  role_at = λ id. if str_eq id "a" then owner else if str_eq id "bb" then team_admin else member;
  fits = ((refl, omega arith), ((refl, omega arith), ((refl, omega arith), tt)));
  owned = (refl, tt);
}

after_team_calls-IsOwned_example :
    IsOwned count_chars
      (after_team_calls digits (app_error "Invalid value for argument `role`." 500) day roster)
after_team_calls-IsOwned_example =
    after_team_calls-IsOwned digits (app_error "Invalid value for argument `role`." 500) count_chars
      count_chars-digits day roster roster-IsOwned

-- Bob may remove Eve but not Ann.
day_ends : (after day roster).memberships ≡ ann_row ∷ bob_row ∷ []
unfolding after_team_calls digits
day_ends = refl

-- four invitations that are still open
abbrev invited : String → Membership
invited name = record eve_row { id = name; user_id = name }

abbrev crowded : Roster
crowded = record roster {
  memberships = ann_row ∷ invited "mm1" ∷ invited "mm2" ∷ invited "mm3" ∷ invited "mm4" ∷ [];
}

-- All of them may join, though the plan of Ann has no seats.
all_join :
    count
      (is_seat_of "t1")
      (after
        (("mm1", accept "t1")
          ∷ ("mm2", accept "t1")
          ∷ ("mm3", accept "t1")
          ∷ ("mm4", accept "t1")
          ∷ [])
        crowded).memberships
    ≡ 5
unfolding after_team_calls digits
all_join = refl
