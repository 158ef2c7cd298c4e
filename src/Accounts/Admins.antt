-- ===== src/Accounts/Admins.antt =====
-- The calls on accounts against the guards of `SetRole` and `DeleteUser` in
-- internal/store/users.go, which are about the last administrator.
use quicksurvey.Base.{
  ◌⊎◌, inl, inr, ℕ, ◌≡◌, refl, ◌∙◌, subst, Bool, true, false, Option-cases, Bool-cases,
  Result-cases, some, List, [], ◌∷◌, Text, arith, ok,
}
use quicksurvey.Accounts.{
  User, Role, Accounts, find_user, update_user, approved_admin, add_user, add_user_must_change,
  set_password, revoke_sessions, set_role, delete_user, approve_user, is_admin,
}
use quicksurvey.Accounts.Invites.{
  create_invite, revoke_invite, claim_invite, find_invite, find_invite_id, invite_digest,
}
use quicksurvey.Accounts.Resets.{create_reset, use_reset, find_reset, reset_digest}
use quicksurvey.Accounts.Actions.{
  Action, adds, adds_must_change, sets_password, revokes_sessions, sets_role, deletes, approves,
  creates_invite, revokes_invite, claims, creates_reset, uses_reset, call, after, run,
}
use quicksurvey.Accounts.Roster.{
  IsSafe, count_other_admins_lem, other_admin_there, admin-filter, DistinctNames-filter,
  IsSafe-snoc, IsSafe-update_user_mono, IsSafe-update_user,
}

abbrev Safe : Accounts → Type 0
Safe db = IsSafe db.users

add_user-Safe :
    (db : Accounts) (name : Text) (role : Role) (password : Text) (must_change pend : Bool)
    (invited_by hash : Text) (now : ℕ) (r : User × Accounts)
    → Safe db
    → add_user db name role password must_change pend invited_by hash now ≡ ok r
    → Safe r.1
unfolding add_user
add_user-Safe db name role password must_change pend invited_by hash now r s h =
    subst IsSafe (ground arith) (IsSafe-snoc db.users r.0 (ground arith) s)

set_role-Safe :
    (db : Accounts) (name : Text) (role : Role) (db' : Accounts)
    → Safe db
    → set_role db name role ≡ ok db'
    → Safe db'
unfolding set_role
set_role-Safe db name role db' s h = elim (Option-cases (find_user name db.users)) [
  | inl absent ↦ absurd (ground arith)
  | inr (u, found) ↦
      subst IsSafe (ground arith)
        (changed u found (Bool-cases (approved_admin u)) (Bool-cases (is_admin role)))
]
  where
    set : User → User
    set v = record v { role = role }

    changed :
        (u : User)
        → find_user name db.users ≡ some u
        → (approved_admin u ≡ true) ⊎ (approved_admin u ≡ false)
        → (is_admin role ≡ true) ⊎ (is_admin role ≡ false)
        → IsSafe (update_user name set db.users)
    changed u found (inr plain) r =
        IsSafe-update_user name set db.users (λ _. refl)
          (other_admin_there name db.users u s.distinct s.administered found plain) s
    changed u found (inl adm) (inl stays) =
        IsSafe-update_user_mono name set db.users (λ _. refl) (λ v k. ground arith) s
    changed u found (inl adm) (inr demoted) =
        IsSafe-update_user name set db.users (λ _. refl)
          (ground (arith, count_other_admins_lem name db.users)) s

delete_user-Safe :
    (db : Accounts) (name : Text) (db' : Accounts)
    → Safe db
    → delete_user db name ≡ ok db'
    → Safe db'
unfolding delete_user
delete_user-Safe db name db' s h = elim (Option-cases (find_user name db.users)) [
  | inl absent ↦ absurd (ground arith)
  | inr (u, found) ↦ subst IsSafe (ground arith) (record {
    distinct = DistinctNames-filter name db.users s.distinct;
    administered = admin-filter name db.users ∙ elim (Bool-cases (approved_admin u)) [
      | inl adm ↦ ground (arith, count_other_admins_lem name db.users)
      | inr plain ↦ other_admin_there name db.users u s.distinct s.administered found plain
    ];
  })
]

approve_user-Safe :
    (db : Accounts) (name : Text) (role : Role) (db' : Accounts)
    → Safe db
    → approve_user db name role ≡ ok db'
    → Safe db'
unfolding approve_user
approve_user-Safe db name role db' s h = elim (Option-cases (find_user name db.users)) [
  | inl absent ↦ absurd (ground arith)
  | inr (u, found) ↦ subst IsSafe (ground arith) (
      IsSafe-update_user name (λ v. record v { pending = false; role = role }) db.users (λ _. refl)
        (other_admin_there name db.users u s.distinct s.administered found (ground arith)) s)
]

claim_invite-Safe :
    (mac : List Text → Text) (db : Accounts) (token name password hash : Text) (now : ℕ)
    (r : User × Accounts)
    → Safe db
    → claim_invite mac db token name password hash now ≡ ok r
    → Safe r.1
unfolding claim_invite
claim_invite-Safe mac db token name password hash now r s h =
    elim (Option-cases (find_invite (invite_digest mac token) db.invites)) [
      | inl absent ↦ absurd (ground arith)
      | inr (iv, found) ↦ subst IsSafe (ground arith) (IsSafe-snoc db.users r.0 (ground arith) s)
    ]

use_reset-Safe :
    (mac : List Text → Text) (db : Accounts) (token password hash : Text) (now : ℕ)
    (r : Text × Accounts)
    → Safe db
    → use_reset mac db token password hash now ≡ ok r
    → Safe r.1
unfolding use_reset
use_reset-Safe mac db token password hash now r s h =
    elim (Option-cases (find_reset (reset_digest mac token) db.resets)) [
      | inl absent ↦ absurd (ground arith)
      | inr (rp, found) ↦ subst IsSafe (ground arith) (
          IsSafe-update_user_mono rp.user
            (λ u. record u { hash = hash; must_change_password = false; sessions_from = now })
            db.users (λ _. refl) (λ v k. k) s)
    ]

-- Each call that succeeds keeps an approved administrator and unique names.
call-Safe :
    (mac : List Text → Text) (db : Accounts) (now : ℕ) (a : Action) (db' : Accounts)
    → Safe db
    → call mac db now a ≡ ok db'
    → Safe db'
unfolding call
call-Safe mac db now (adds name role password hash) db' s h =
    elim (Result-cases (add_user db name role password false false [] hash now)) [
      | inl (r, e) ↦
          subst IsSafe (ground arith)
            (add_user-Safe db name role password false false [] hash now r s e)
      | inr (x, e) ↦ absurd (ground arith)
    ]
call-Safe mac db now (adds_must_change name role password hash) db' s h =
    unfold add_user_must_change in
    elim (Result-cases (add_user db name role password true false [] hash now)) [
      | inl (r, e) ↦
          subst IsSafe (ground arith)
            (add_user-Safe db name role password true false [] hash now r s e)
      | inr (x, e) ↦ absurd (ground arith)
    ]
call-Safe mac db now (sets_password name password hash) db' s h =
    unfold set_password in
    subst IsSafe (ground arith) (
      IsSafe-update_user_mono name (λ u. record u { hash = hash; must_change_password = false })
        db.users (λ _. refl) (λ v k. k) s)
call-Safe mac db now (revokes_sessions name) db' s h =
    unfold revoke_sessions in
    subst IsSafe (ground arith) (
      IsSafe-update_user_mono name (λ u. record u { sessions_from = now }) db.users (λ _. refl)
        (λ v k. k) s)
call-Safe mac db now (sets_role name role) db' s h = set_role-Safe db name role db' s h
call-Safe mac db now (deletes name) db' s h = delete_user-Safe db name db' s h
call-Safe mac db now (approves name role) db' s h = approve_user-Safe db name role db' s h
call-Safe mac db now (creates_invite created_by role note ttl fresh token) db' s h =
    unfold create_invite in subst IsSafe (ground arith) s
call-Safe mac db now (revokes_invite id) db' s h =
    unfold revoke_invite in
    elim (Option-cases (find_invite_id id db.invites)) [
      | inl absent ↦ absurd (ground arith)
      | inr (iv, found) ↦ subst IsSafe (ground arith) s
    ]
call-Safe mac db now (claims token name password hash) db' s h =
    elim (Result-cases (claim_invite mac db token name password hash now)) [
      | inl (r, e) ↦
          subst IsSafe (ground arith) (claim_invite-Safe mac db token name password hash now r s e)
      | inr (x, e) ↦ absurd (ground arith)
    ]
call-Safe mac db now (creates_reset user created_by fresh token) db' s h =
    unfold create_reset in subst IsSafe (ground arith) s
call-Safe mac db now (uses_reset token password hash) db' s h =
    elim (Result-cases (use_reset mac db token password hash now)) [
      | inl (r, e) ↦
          subst IsSafe (ground arith) (use_reset-Safe mac db token password hash now r s e)
      | inr (x, e) ↦ absurd (ground arith)
    ]

-- After any sequence of calls on the accounts, failed ones included, there is an approved
-- administrator and no two accounts share a name, if that was so before.
pub run-IsSafe :
    (mac : List Text → Text) (db : Accounts) (calls : List (ℕ × Action))
    → IsSafe db.users
    → IsSafe (run mac db calls).users
unfolding run
run-IsSafe mac db [] s = s
run-IsSafe mac db ((now, a) ∷ calls) s =
    run-IsSafe mac (after db (call mac db now a)) calls (elim (Result-cases (call mac db now a)) [
      | inl (db', e) ↦ rw e (call-Safe mac db now a db' s e)
      | inr (x, e) ↦ rw e s
    ])
