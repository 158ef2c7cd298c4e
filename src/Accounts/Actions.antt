-- ===== src/Accounts/Actions.antt =====
-- The calls that change the accounts of internal/store, as one step each: an error leaves everything
-- as it was.
use quicksurvey.Base.{ℕ, Bool, List, [], ◌∷◌, Text, Result, ok, err}
use quicksurvey.Accounts.{
  Role, Accounts, add_user, add_user_must_change, set_password, revoke_sessions, set_role,
  delete_user, approve_user,
}
use quicksurvey.Accounts.Invites.{create_invite, revoke_invite, claim_invite}
use quicksurvey.Accounts.Resets.{create_reset, use_reset}

pub data Action : Type 0 where
  adds : (name : Text) → Role → (password hash : Text) → Action
  adds_must_change : (name : Text) → Role → (password hash : Text) → Action
  sets_password : (name password hash : Text) → Action
  revokes_sessions : (name : Text) → Action
  sets_role : (name : Text) → Role → Action
  deletes : (name : Text) → Action
  approves : (name : Text) → Role → Action
  creates_invite :
      (created_by : Text) → Role → (note : Text) → (ttl : ℕ) → (fresh token : Text) → Action
  revokes_invite : (id : Text) → Action
  claims : (token name password hash : Text) → Action
  creates_reset : (user created_by fresh token : Text) → Action
  uses_reset : (token password hash : Text) → Action

abbrev pub drop_value {ℓ} : {A : Type ℓ} → Result (A × Accounts) → Result Accounts
drop_value (ok (a, db)) = ok db
drop_value (err e) = err e

-- The call itself.
unfoldable pub call : (mac : List Text → Text) → Accounts → ℕ → Action → Result Accounts
call mac db now (adds name role password hash) =
    drop_value (add_user db name role password Bool.false Bool.false [] hash now)
call mac db now (adds_must_change name role password hash) =
    drop_value (add_user_must_change db name role password hash now)
call mac db now (sets_password name password hash) = set_password db name password hash now
call mac db now (revokes_sessions name) = revoke_sessions db name now
call mac db now (sets_role name role) = set_role db name role
call mac db now (deletes name) = delete_user db name
call mac db now (approves name role) = approve_user db name role
call mac db now (creates_invite created_by role note ttl fresh token) =
    drop_value (create_invite mac db created_by role note ttl fresh token now)
call mac db now (revokes_invite id) = revoke_invite db id
call mac db now (claims token name password hash) =
    drop_value (claim_invite mac db token name password hash now)
call mac db now (creates_reset user created_by fresh token) =
    drop_value (create_reset mac db user created_by fresh token now)
call mac db now (uses_reset token password hash) =
    drop_value (use_reset mac db token password hash now)

abbrev pub after : Accounts → Result Accounts → Accounts
after db (ok db') = db'
after db (err e) = db

unfoldable pub run : (mac : List Text → Text) → Accounts → List (ℕ × Action) → Accounts
run mac db [] = db
run mac db ((now, a) ∷ as') = run mac (after db (call mac db now a)) as'
