-- ===== src/Teams/Owners.antt =====
-- The owner of a team through the requests on teams.
use url_shortner_system_desi.Common.{
  Keeps-bind, ℕ, ◌+◌, ◌≤◌, String, true, Option, none, some, List, [], ◌∷◌, ◌++◌, find, any, arith,
  ◌≡◌, refl, eq_refl, Keeps, keeps_rules, Keeps-throw, Keeps-then, Keeps-throw_if, All-append,
  Error,
}
use url_shortner_system_desi.State.{User}
use url_shortner_system_desi.Access.{member, accepted, pending, TeamRole, owner}
use url_shortner_system_desi.Teams.State.{Roster, Team, Membership}
use url_shortner_system_desi.Teams.Handlers.{
  invite_as, is_in, invite_to, get_team_members_limit, seat_member, invite_user, invite_member,
  revoke_member, create_team, accept_invite, AskedRole, insert_team, insert_member, remove_found,
  unnamed, named, other,
}
use url_shortner_system_desi.Teams.Rows.{
  any-append_last, IsOwned, is_owner_of, on_world-IsOwned, look-IsOwned, role_with, Fits-role_with,
  owned_with, accept_found-IsOwned, look_then, remove_found-IsOwned,
}

module _ (drawn_at : String → ℕ) (new_id : ℕ → String) (fresh : (n : ℕ) → drawn_at (new_id n) ≡ n)
    (invalid_role : Error) where
  insert_member-IsOwned :
      (team_id user_id : String) (role : TeamRole)
      → Keeps (IsOwned drawn_at) (insert_member new_id invalid_role team_id user_id role)
  unfolding insert_member
  insert_member-IsOwned team_id user_id role = record {
    at = λ s k.
        let m : Membership = record {
          id = new_id s.drawn;
          team_id = team_id;
          user_id = user_id;
          role = role;
          status = pending;
          joined_at = none;
        } in
        let later : s.drawn ≤ drawn_at m.id = omega (arith, fresh s.drawn) in
        let made : drawn_at m.id + 1 ≤ s.drawn + 1 = omega (arith, fresh s.drawn) in
        record {
          role_at = role_with drawn_at s k m (s.drawn + 1) later made;
          fits = Fits-role_with drawn_at s k m (s.drawn + 1) later made;
          owned = owned_with drawn_at s k m (s.drawn + 1) later made;
        };
  }

  insert_team-IsOwned :
      (name user_id : String)
      → Keeps (IsOwned drawn_at) (insert_team new_id invalid_role name user_id)
  unfolding insert_team
  insert_team-IsOwned name user_id = record {
    at = λ s k.
        let t : Team = record { id = new_id s.drawn; name = name; owner_id = user_id } in
        let m : Membership = record {
          id = new_id (s.drawn + 1);
          team_id = new_id s.drawn;
          user_id = user_id;
          role = owner;
          status = accepted;
          joined_at = some s.world.now;
        } in
        let later : s.drawn ≤ drawn_at m.id = omega (arith, fresh (s.drawn + 1)) in
        let made : drawn_at m.id + 1 ≤ s.drawn + 2 = omega (arith, fresh (s.drawn + 1)) in
        let own : is_owner_of t m ≡ true = ground (arith, eq_refl t.id, eq_refl user_id) in
        record {
          role_at = role_with drawn_at s k m (s.drawn + 2) later made;
          fits = Fits-role_with drawn_at s k m (s.drawn + 2) later made;
          owned =
              All-append (λ u. any (is_owner_of u) (s.memberships ++ m ∷ []) ≡ true) s.teams t
                (owned_with drawn_at s k m (s.drawn + 2) later made)
                (any-append_last (is_owner_of t) s.memberships m own);
        };
  }

  ruleset team_rules = (
    keeps_rules, on_world-IsOwned, look-IsOwned, insert_team-IsOwned, insert_member-IsOwned,
    accept_found-IsOwned,
  )

  limit-IsOwned : (user_id : String) → Keeps (IsOwned drawn_at) (get_team_members_limit user_id)
  unfolding get_team_members_limit
  limit-IsOwned user_id = search team_rules depth 8

  create-IsOwned :
      (caller name : String)
      → Keeps (IsOwned drawn_at) (create_team new_id invalid_role caller name)
  unfolding create_team
  create-IsOwned caller name = search (team_rules, limit-IsOwned) depth 14

  invite_as-IsOwned :
      (team_id user_id : String) (role : AskedRole)
      → Keeps (IsOwned drawn_at) (invite_as new_id invalid_role team_id user_id role)
  unfolding invite_as
  invite_as-IsOwned team_id user_id unnamed = insert_member-IsOwned team_id user_id member
  invite_as-IsOwned team_id user_id (named role) = insert_member-IsOwned team_id user_id role
  invite_as-IsOwned team_id user_id other = Keeps-throw

  seat-IsOwned :
      (t : Team) (u : User) (role : AskedRole)
      → Keeps (IsOwned drawn_at) (seat_member new_id invalid_role t u role)
  unfolding seat_member
  seat-IsOwned t u role = search (team_rules, limit-IsOwned, invite_as-IsOwned) depth 16

  invite_to-IsOwned :
      (u : User) (role : AskedRole) (o : Option Team)
      → Keeps (IsOwned drawn_at) (invite_to new_id invalid_role u role o)
  unfolding invite_to
  invite_to-IsOwned u role none = Keeps-throw
  invite_to-IsOwned u role (some t) = seat-IsOwned t u role

  invite_user-IsOwned :
      (team_id : String) (role : AskedRole) (o : Option User)
      → Keeps (IsOwned drawn_at) (invite_user new_id invalid_role team_id role o)
  unfolding invite_user
  invite_user-IsOwned team_id role none = Keeps-throw
  invite_user-IsOwned team_id role (some u) = search (team_rules, invite_to-IsOwned) depth 10

  invite-IsOwned :
      (caller team_id email : String) (role : AskedRole)
      → Keeps (IsOwned drawn_at) (invite_member new_id invalid_role caller team_id email role)
  unfolding invite_member
  invite-IsOwned caller team_id email role = search (team_rules, invite_user-IsOwned) depth 14

  accept-IsOwned :
      (caller team_id : String) → Keeps (IsOwned drawn_at) (accept_invite caller team_id)
  unfolding accept_invite
  accept-IsOwned caller team_id = search team_rules depth 12

  revoke-IsOwned :
      (caller team_id user_id : String)
      → Keeps (IsOwned drawn_at) (revoke_member caller team_id user_id)
  unfolding revoke_member
  revoke-IsOwned caller team_id user_id = Keeps-then (Keeps-throw_if _ _) (
      Keeps-bind (look-IsOwned drawn_at _) (λ requester. Keeps-then (Keeps-throw_if _ _) (
        look_then drawn_at (λ s. find (is_in team_id user_id) s.memberships)
          (remove_found requester)
          (λ s k.
            remove_found-IsOwned drawn_at requester (find (is_in team_id user_id) s.memberships)
              (is_in team_id user_id) s refl k))))

-- a request on teams, with its caller
pub data TeamCall : Type 0 where
  create : String → TeamCall
  invite : String → String → AskedRole → TeamCall
  accept : String → TeamCall
  revoke : String → String → TeamCall

module _ (new_id : ℕ → String) (invalid_role : Error) where
  -- the tables that a request leaves, whether it answers or throws
  unfoldable pub after_team_call : String → TeamCall → Roster → Roster
  unfolding create_team invite_member accept_invite revoke_member
  after_team_call caller (create name) s = (create_team new_id invalid_role caller name s).1
  after_team_call caller (invite team_id email role) s =
      (invite_member new_id invalid_role caller team_id email role s).1
  after_team_call caller (accept team_id) s = (accept_invite caller team_id s).1
  after_team_call caller (revoke team_id user_id) s = (revoke_member caller team_id user_id s).1

  unfoldable pub after_team_calls : List (String × TeamCall) → Roster → Roster
  unfolding after_team_call
  after_team_calls [] s = s
  after_team_calls ((caller, c) ∷ cs) s = after_team_calls cs (after_team_call caller c s)

  module _ (drawn_at : String → ℕ) (fresh : (n : ℕ) → drawn_at (new_id n) ≡ n) where
    one_call-IsOwned :
        (caller : String) (c : TeamCall) (s : Roster)
        → IsOwned drawn_at s
        → IsOwned drawn_at (after_team_call caller c s)
    unfolding after_team_call
    one_call-IsOwned caller (create name) s k =
        (create-IsOwned drawn_at new_id fresh invalid_role caller name).at s k
    one_call-IsOwned caller (invite team_id email role) s k =
        (invite-IsOwned drawn_at new_id fresh invalid_role caller team_id email role).at s k
    one_call-IsOwned caller (accept team_id) s k =
        (accept-IsOwned drawn_at new_id fresh invalid_role caller team_id).at s k
    one_call-IsOwned caller (revoke team_id user_id) s k =
        (revoke-IsOwned drawn_at new_id fresh invalid_role caller team_id user_id).at s k

    -- Whatever is asked of teams, one request after another and by anyone, where each team has an
    -- accepted membership of its owner with the owner's role, each team has one afterwards, the teams
    -- made meanwhile included. The identifiers that the database makes are told apart by `drawn_at`.
    pub after_team_calls-IsOwned :
        (cs : List (String × TeamCall)) (s : Roster)
        → IsOwned drawn_at s
        → IsOwned drawn_at (after_team_calls cs s)
    unfolding after_team_calls
    after_team_calls-IsOwned [] s k = k
    after_team_calls-IsOwned ((caller, c) ∷ cs) s k =
        after_team_calls-IsOwned cs (after_team_call caller c s) (one_call-IsOwned caller c s k)
