-- ===== src/Accounts.antt =====
-- The accounts of internal/store/users.go: roles, users and the operations on the `users` table.
--
-- `hash` is what `hashPassword` returns for the salt that it draws, and `verify` is the comparison of
-- a password with such a hash; a NULL time is 0. The file that holds the bootstrap password is the
-- field `initial_password`.
pub mod Invites
pub mod Resets
pub mod Actions
pub mod Roster
pub mod Admins
pub mod Standing
use quicksurvey.Base.{
  ℕ, suc, ◌==◌, leb, ltb, if◌then◌else◌, Bool, true, false, not, ◌&&◌, ◌||◌, Option, none, some,
  List, [], ◌∷◌, ◌++◌, filter, any, length, sort_by, Text, same, is_empty, trim_space, Result, ok,
  err, ◌>>=◌, ◌>>◌, require, or_fail, not_found, already_exists, bad_username, unknown_role,
  short_password, last_admin, already_approved,
}

pub data Role : Type 0 where
  viewer editor admin : Role
  other : Text → Role

-- `roleRank`: 0 for a role that is not in the map.
unfoldable pub rank : Role → ℕ
rank viewer = 1
rank editor = 2
rank admin = 3
rank (other s) = 0

unfoldable pub valid_role : Role → Bool
valid_role (other s) = false
valid_role _ = true

unfoldable pub at_least : Role → Role → Bool
unfolding rank
at_least r want = leb (rank want) (rank r)

abbrev pub is_admin : Role → Bool
is_admin admin = true
is_admin _ = false

pub record User : Type 0 where
  pub name : Text
  pub role : Role
  pub hash : Text
  pub created : ℕ
  pub must_change_password : Bool
  pub pending : Bool
  pub invited_by : Text
  pub sessions_from : ℕ

pub record Invite : Type 0 where
  pub id : Text
  pub digest : Text
  pub role : Role
  pub note : Text
  pub created_by : Text
  pub created : ℕ
  pub expires : ℕ
  pub claimed_by : Text
  pub claimed : ℕ
  pub revoked : Bool

pub record Reset : Type 0 where
  pub id : Text
  pub digest : Text
  pub user : Text
  pub created_by : Text
  pub created : ℕ
  pub expires : ℕ
  pub used : ℕ

pub record Accounts : Type 0 where
  pub users : List User
  pub invites : List Invite
  pub resets : List Reset
  pub initial_password : Option Text

-- [A-Za-z0-9], and that with dot, underscore and dash.
abbrev pub is_alnum : ℕ → Bool
is_alnum c = (leb b'A' c && leb c b'Z') || (leb b'a' c && leb c b'z') || (leb b'0' c && leb c b'9')

abbrev pub is_name_char : ℕ → Bool
is_name_char c = is_alnum c || c == b'.' || c == b'_' || c == b'-'

unfoldable pub all_name_chars : Text → Bool
all_name_chars [] = true
all_name_chars (c ∷ cs) = is_name_char c && all_name_chars cs

unfoldable pub valid_username : Text → Bool
unfolding all_name_chars
valid_username [] = false
valid_username (c ∷ cs) = is_alnum c && all_name_chars cs && leb (length cs) 63

-- SELECT … FROM users WHERE name = ?
unfoldable pub find_user : Text → List User → Option User
find_user name [] = none
find_user name (u ∷ us) = if same u.name name then some u else find_user name us

-- UPDATE users SET … WHERE name = ?
unfoldable pub update_user : Text → (User → User) → List User → List User
update_user name f [] = []
update_user name f (u ∷ us) = (if same u.name name then f u else u) ∷ update_user name f us

abbrev pub name_taken_by : Text → User → Bool
name_taken_by name u = same u.name name

-- An approved administrator, and one of another name.
abbrev pub approved_admin : User → Bool
approved_admin u = is_admin u.role && not u.pending

abbrev pub other_admin : Text → User → Bool
other_admin name u = approved_admin u && not (same u.name name)

unfoldable pub add_user :
    Accounts
    → (name : Text) → Role
    → (password : Text) → (must_change pend : Bool) → (invited_by hash : Text) (now : ℕ)
    → Result (User × Accounts)
add_user db raw role password must_change pend invited_by hash now = do
  let name = trim_space raw
  require (valid_username name) bad_username
  require (valid_role role) unknown_role
  require (leb 8 (length password)) short_password
  require (not (any (name_taken_by name) db.users)) already_exists
  let u : User = record {
    name = name;
    role = role;
    hash = hash;
    created = now;
    must_change_password = must_change;
    pending = pend;
    invited_by = invited_by;
    sessions_from = 0;
  }
  ok (u, record db { users = db.users ++ (u ∷ []) })

-- `AddUserMustChange`, which leaves the password in the file.
unfoldable pub add_user_must_change :
    Accounts
    → (name : Text) → Role
    → (password : Text) → (hash : Text) (now : ℕ) → Result (User × Accounts)
add_user_must_change db name role password hash now = do
  added ← add_user db name role password true false [] hash now
  ok (added.0, record (added.1) { initial_password = some password })

-- UPDATE resets SET used = ? WHERE user_name = ? AND used IS NULL
unfoldable pub retire_resets : Text → ℕ → List Reset → List Reset
retire_resets user now [] = []
retire_resets user now (r ∷ rs) =
    (if same r.user user && r.used == 0 then record r { used = now } else r)
    ∷ retire_resets user now rs

unfoldable pub set_password : Accounts → (name password hash : Text) (now : ℕ) → Result Accounts
set_password db name password hash now = do
  require (leb 8 (length password)) short_password
  require (any (name_taken_by name) db.users) not_found
  ok (record db {
    users = update_user name (λ u. record u { hash = hash; must_change_password = false }) db.users;
    resets = retire_resets name now db.resets;
    initial_password = none;
  })

unfoldable pub revoke_sessions : Accounts → (name : Text) (now : ℕ) → Result Accounts
revoke_sessions db name now = do
  require (any (name_taken_by name) db.users) not_found
  ok (record db { users = update_user name (λ u. record u { sessions_from = now }) db.users })

-- SELECT COUNT(*) FROM users WHERE role = ? AND pending = 0 AND name != ?
unfoldable pub count_other_admins : Text → List User → ℕ
count_other_admins name us = length (filter (other_admin name) us)

unfoldable pub set_role : Accounts → (name : Text) → Role → Result Accounts
unfolding count_other_admins
set_role db name role = do
  require (valid_role role) unknown_role
  u ← or_fail (find_user name db.users) not_found
  let demotes = approved_admin u && not (is_admin role)
  require (not (demotes && count_other_admins name db.users == 0)) last_admin
  ok (record db { users = update_user name (λ v. record v { role = role }) db.users })

unfoldable pub delete_user : Accounts → (name : Text) → Result Accounts
unfolding count_other_admins
delete_user db name = do
  u ← or_fail (find_user name db.users) not_found
  require (not (approved_admin u && count_other_admins name db.users == 0)) last_admin
  ok (record db { users = filter (λ v. not (same v.name name)) db.users })

unfoldable pub approve_user : Accounts → (name : Text) → Role → Result Accounts
approve_user db name role = do
  require (valid_role role) unknown_role
  u ← or_fail (find_user name db.users) not_found
  require u.pending already_approved
  ok (record db {
    users = update_user name (λ v. record v { pending = false; role = role }) db.users;
  })

unfoldable pub authenticate :
    (verify : Text → Text → Bool) → Accounts → (name password : Text) → Option User
authenticate verify db name password = elim (find_user name db.users) [
  | none ↦ none
  | some u ↦ if verify u.hash password then some u else none
]

-- Users awaiting approval, oldest first.
unfoldable pub pending_users : Accounts → List User
pending_users db = sort_by (λ a b. leb a.created b.created) (filter (λ u. u.pending) db.users)

unfoldable pub user_count : Accounts → ℕ
user_count db = length db.users
