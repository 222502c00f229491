-- ===== src/Teams/Handlers.antt =====
-- The handlers of teams. A field that a body lacks is an empty text; `new_id` is the identifier that
-- the database makes at its n-th row, `invalid_role` what Prisma throws for a role that is none.
use url_shortner_system_desi.Common.{
  ℕ, ◌+◌, String, Bool, true, false, not, ◌&&◌, ◌||◌, Option, none, some, List, [], ◌∷◌, ◌++◌,
  Action, find, any, select, count, leb, ◌==◌, str_eq, update_where, pure, gets, modify, throw,
  throw_if, ◌>>=◌, ◌>>◌, ok, Error, app_error, is_empty, concat, show_nat, map,
}
use url_shortner_system_desi.State.{User, PlanLimit}
use url_shortner_system_desi.Plans.{get_active_subscription, limit_of}
use url_shortner_system_desi.Access.{
  TeamRole, InviteStatus, owner, team_admin, member, pending, accepted,
}
use url_shortner_system_desi.Teams.State.{Roster, Team, Membership, look, on_world}

abbrev pub is_accepted : InviteStatus → Bool
is_accepted accepted = true
is_accepted _ = false

abbrev pub is_pending : InviteStatus → Bool
is_pending pending = true
is_pending _ = false

abbrev pub is_owner_role : TeamRole → Bool
is_owner_role owner = true
is_owner_role _ = false

abbrev pub is_admin_role : TeamRole → Bool
is_admin_role team_admin = true
is_admin_role _ = false

abbrev seats : Option PlanLimit → ℕ
seats none = 0
seats (some l) = elim l.team_members_allowed [ none ↦ 0 | some n ↦ n ]

unfoldable pub get_team_members_limit : String → Action Roster ℕ
unfolding get_active_subscription
get_team_members_limit user_id = do
  sub ← on_world (get_active_subscription user_id)
  pure (seats (limit_of sub))

abbrev pub is_row : String → Membership → Bool
is_row id m = str_eq m.id id

abbrev pub is_in : String → String → Membership → Bool
is_in team_id user_id m = str_eq m.team_id team_id && str_eq m.user_id user_id

abbrev pub is_accepted_in : String → String → Membership → Bool
is_accepted_in team_id user_id m = is_in team_id user_id m && is_accepted m.status

abbrev pub is_pending_in : String → String → Membership → Bool
is_pending_in team_id user_id m = is_in team_id user_id m && is_pending m.status

abbrev pub is_seat_of : String → Membership → Bool
is_seat_of team_id m = str_eq m.team_id team_id && is_accepted m.status

abbrev pub is_team : String → Team → Bool
is_team id t = str_eq t.id id

abbrev pub manages : Option Membership → Bool
manages none = false
manages (some m) = is_owner_role m.role || is_admin_role m.role

-- `role || "MEMBER"`
pub data AskedRole : Type 0 where
  unnamed : AskedRole
  named : TeamRole → AskedRole
  other : AskedRole

abbrev pub joined_now : ℕ → Membership → Membership
joined_now now m = record m { status = accepted; joined_at = some now }

-- a team that is gone, which the rows of its members do not allow
abbrev null_team : Error
null_team = app_error "Cannot read properties of null (reading 'owner_id')" 500

module _ (new_id : ℕ → String) (invalid_role : Error) where
  unfoldable pub insert_team : String → String → Action Roster Team
  insert_team name user_id s =
      let t : Team = record { id = new_id s.drawn; name = name; owner_id = user_id } in
      let m : Membership = record {
        id = new_id (s.drawn + 1);
        team_id = new_id s.drawn;
        user_id = user_id;
        role = owner;
        status = accepted;
        joined_at = some s.world.now;
      } in
      (
        ok t,
        record s {
          drawn = s.drawn + 2;
          teams = s.teams ++ t ∷ [];
          memberships = s.memberships ++ m ∷ [];
        },
      )

  unfoldable pub create_team : String → String → Action Roster Team
  unfolding get_team_members_limit insert_team
  create_team caller name = do
    throw_if (is_empty name) (app_error "Team name is required." 400)
    limit ← get_team_members_limit caller
    throw_if (limit == 0) (
        app_error
          "Team support is not available on your current plan. Please upgrade to a Business plan."
          403)
    insert_team name caller

  unfoldable pub insert_member : String → String → TeamRole → Action Roster Membership
  insert_member team_id user_id role s =
      let m : Membership = record {
        id = new_id s.drawn;
        team_id = team_id;
        user_id = user_id;
        role = role;
        status = pending;
        joined_at = none;
      } in
      (ok m, record s { drawn = s.drawn + 1; memberships = s.memberships ++ m ∷ [] })

  unfoldable pub invite_as : String → String → AskedRole → Action Roster Membership
  unfolding insert_member
  invite_as team_id user_id unnamed = insert_member team_id user_id member
  invite_as team_id user_id (named role) = insert_member team_id user_id role
  invite_as team_id user_id other = throw invalid_role

  abbrev no_seat : ℕ → Error
  no_seat limit =
      app_error
        (concat (
          "Maximum seat limit of "
          ∷ show_nat limit
          ∷ " members on the team owner's plan has been reached."
          ∷ []))
        403

  unfoldable pub seat_member : Team → User → AskedRole → Action Roster Membership
  unfolding get_team_members_limit invite_as
  seat_member t u role = do
    limit ← get_team_members_limit t.owner_id
    taken ← look (λ s. count (is_seat_of t.id) s.memberships)
    throw_if (leb (limit + 1) taken) (no_seat limit)
    there ← look (λ s. any (is_in t.id u.id) s.memberships)
    throw_if there (app_error "User is already a member or has a pending invite." 409)
    invite_as t.id u.id role

  unfoldable pub invite_to : User → AskedRole → Option Team → Action Roster Membership
  unfolding seat_member
  invite_to u role none = throw null_team
  invite_to u role (some t) = seat_member t u role

  unfoldable pub invite_user : String → AskedRole → Option User → Action Roster Membership
  unfolding invite_to
  invite_user team_id role none = throw (app_error "User with this email does not exist." 404)
  invite_user team_id role (some u) = do
    t ← look (λ s. find (is_team team_id) s.teams)
    invite_to u role t

  unfoldable pub invite_member : String → String → String → AskedRole → Action Roster Membership
  unfolding invite_user
  invite_member caller team_id email role = do
    throw_if (is_empty team_id || is_empty email) (app_error "teamId and email are required." 400)
    requester ← look (λ s. find (is_accepted_in team_id caller) s.memberships)
    throw_if (not (manages requester))
        (app_error "Forbidden: Only team owners and admins can invite members." 403)
    target ← look (λ s. find (λ (u : User). str_eq u.email email) s.world.users)
    invite_user team_id role target

unfoldable pub accept_found : Option Membership → Action Roster Membership
accept_found none = throw (app_error "No pending invitation found for this team." 404)
accept_found (some m) = do
  now ← gets (λ (s : Roster). s.world.now)
  modify (λ (s : Roster). record s {
    memberships = update_where (is_row m.id) (joined_now now) s.memberships;
  })
  pure (joined_now now m)

unfoldable pub accept_invite : String → String → Action Roster Membership
unfolding accept_found
accept_invite caller team_id = do
  throw_if (is_empty team_id) (app_error "teamId is required." 400)
  found ← look (λ s. find (is_pending_in team_id caller) s.memberships)
  accept_found found

abbrev pub is_admin_member : Option Membership → Bool
is_admin_member none = false
is_admin_member (some m) = is_admin_role m.role

unfoldable pub remove_found : Option Membership → Option Membership → Action Roster (Unit {0})
remove_found requester none = throw (app_error "User is not a member of this team." 404)
remove_found requester (some m) = do
  throw_if (is_owner_role m.role) (app_error "Cannot remove the team owner." 403)
  throw_if (is_admin_member requester && is_admin_role m.role)
      (app_error "Admins cannot remove other admins." 403)
  modify
      (λ (s : Roster). record s { memberships = select (λ k. not (is_row m.id k)) s.memberships })

unfoldable pub revoke_member : String → String → String → Action Roster (Unit {0})
unfolding remove_found
revoke_member caller team_id user_id = do
  throw_if (is_empty team_id || is_empty user_id) (app_error "teamId and userId are required." 400)
  requester ← look (λ s. find (is_accepted_in team_id caller) s.memberships)
  throw_if (not (manages requester))
      (app_error "Forbidden: Only team owners and admins can remove members." 403)
  target ← look (λ s. find (is_in team_id user_id) s.memberships)
  remove_found requester target

-- the members of a team, with the account of each
unfoldable pub list_team_members : String → String → Action Roster (List (Membership × Option User))
list_team_members caller team_id = do
  belongs ← look (λ s. any (is_accepted_in team_id caller) s.memberships)
  throw_if (not belongs) (app_error "Unauthorized: You do not belong to this team." 403)
  look (λ s.
      map (λ (m : Membership). (m, find (λ (u : User). str_eq u.id m.user_id) s.world.users))
        (select (λ (m : Membership). str_eq m.team_id team_id) s.memberships))

-- the memberships of a user, with the team of each
unfoldable pub list_user_teams : String → Action Roster (List (Membership × Option Team))
list_user_teams caller = look (λ s.
    map (λ (m : Membership). (m, find (is_team m.team_id) s.teams))
      (select (λ (m : Membership). str_eq m.user_id caller) s.memberships))
