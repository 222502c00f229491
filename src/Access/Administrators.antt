-- ===== src/Access/Administrators.antt =====
-- How many active administrators the changes of roles and statuses leave.
use url_shortner_system_desi.Common.{
  ℕ, ◌+◌, ◌≤◌, String, true, false, Option, none, some, List, [], ◌∷◌, ok, arith, ◌≡◌, refl, find,
  count, update_where,
}
use url_shortner_system_desi.State.{Role, user, admin}
use url_shortner_system_desi.Access.State.{
  AccountStatus, active, suspended, banned, is_active, same_status, Person, Realm,
}
use url_shortner_system_desi.Access.Gate.{is_person}
use url_shortner_system_desi.Access.Suspension.{update_user_status-ended}
use url_shortner_system_desi.Access.Admin.{
  with_status, with_role, next_version, is_active_admin, update_user_role, change_role,
  guard_last_admin, set_person, update_user_status,
}

abbrev pub admins : List Person → ℕ
admins ps = count is_active_admin ps

admins-promote :
    (id : String) (ps : List Person)
    → admins ps ≤ admins (update_where (is_person id) (with_role admin) ps)
admins-promote id [] = omega arith
admins-promote id (p ∷ ps) = ground (arith, admins-promote id ps)

admins-demote :
    (id : String) (ps : List Person)
    → admins ps ≤ admins (update_where (is_person id) (with_role user) ps) + count (is_person id) ps
admins-demote id [] = omega arith
admins-demote id (p ∷ ps) = ground (arith, admins-demote id ps)

module _ (id : String) (w : Realm) where
  change_role-keeps_admin :
      (role : Role) (o : Option Person)
      → count (is_person id) w.people ≤ 1
      → 1 ≤ admins w.people
      → 1 ≤ admins (change_role id role o w).1.people
  unfolding change_role guard_last_admin set_person
  change_role-keeps_admin role none one some_admin = some_admin
  change_role-keeps_admin admin (some p) one some_admin = ground (arith, admins-promote id w.people)
  change_role-keeps_admin user (some p) one some_admin = ground (arith, admins-demote id w.people)

  -- Where the table has one row at most with the id and some administrator is active, a change of
  -- that user's role, whether it succeeds or not, leaves an active administrator.
  pub role_change_keeps_admin :
      (role : Option Role)
      → count (is_person id) w.people ≤ 1
      → 1 ≤ admins w.people
      → 1 ≤ admins (update_user_role id role w).1.people
  unfolding update_user_role
  role_change_keeps_admin none one some_admin = some_admin
  role_change_keeps_admin (some role) one some_admin =
      let kept = change_role-keeps_admin role (find (is_person id) w.people) one some_admin in
      ground (arith, kept)

admins-next_version :
    (id : String) (ps : List Person)
    → admins (update_where (is_person id) next_version ps) ≡ admins ps
admins-next_version id [] = refl
admins-next_version id (p ∷ ps) = ground (arith, admins-next_version id ps)

module _ (id : String) (status : AccountStatus) (out : is_active status ≡ false) where
  admins-with_status_le :
      (ps : List Person) → admins (update_where (is_person id) (with_status status) ps) ≤ admins ps
  admins-with_status_le [] = omega arith
  admins-with_status_le (p ∷ ps) = ground (arith, admins-with_status_le ps)

  admins-with_status :
      (ps : List Person) (p : Person)
      → find (is_person id) ps ≡ some p
      → is_active_admin p ≡ true
      → admins (update_where (is_person id) (with_status status) ps) + 1 ≤ admins ps
  admins-with_status [] p found chief = ground arith
  admins-with_status (q ∷ ps) p found chief =
      ground (arith, admins-with_status ps p, admins-with_status_le ps)

-- A change of status has no such guard: the last active administrator can be suspended or banned,
-- and then no administrator is active.
pub last_admin_can_be_suspended :
    (id : String) (status : AccountStatus) (w : Realm) (p : Person)
    → w.db_error ≡ none
    → find (is_person id) w.people ≡ some p
    → is_active_admin p ≡ true
    → admins w.people ≡ 1
    → is_active status ≡ false
    → ((update_user_status id (some status) w).0 ≡ ok tt)
      × (admins (update_user_status id (some status) w).1.people ≡ 0)
last_admin_can_be_suspended id status w p up found chief last out =
    let done = update_user_status-ended id status w p up found (differs status p chief out) out in
    let fewer = admins-with_status id status out w.people p found chief in
    rw done (
      refl,
      omega (
        arith,
        fewer,
        admins-next_version id (update_where (is_person id) (with_status status) w.people),
      ),
    )
  where
    differs :
        (status : AccountStatus) (p : Person)
        → is_active_admin p ≡ true
        → is_active status ≡ false
        → same_status p.status status ≡ false
    differs active p chief out = ground arith
    differs suspended p chief out = ground arith
    differs banned p chief out = ground arith
