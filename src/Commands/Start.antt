-- ===== src/Commands/Start.antt =====
-- A deployment as the commands of cmd/quicksurvey/main.go start and administer it.
use quicksurvey.Base.{
  ℕ, ◌≤◌, ◌≡◌, refl, Bool, true, false, some, [], ◌∷◌, length, any, Text, codes, text_discrete,
  trim_space, arith, ok,
}
use quicksurvey.Accounts.{
  admin, User, Accounts, add_user, add_user_must_change, find_user, valid_username, all_name_chars,
  valid_role, authenticate, user_count,
}
use quicksurvey.Accounts.Roster.{IsSafe}
use quicksurvey.Commands.{bootstrap_admin}

abbrev first_admin : (hash : Text) (now : ℕ) → User
first_admin hash now = record {
  name = codes "admin";
  role = admin;
  hash = hash;
  created = now;
  must_change_password = true;
  pending = false;
  invited_by = [];
  sessions_from = 0;
}

added :
    (db : Accounts) (drawn hash : Text) (now : ℕ)
    → db.users ≡ []
    → 8 ≤ length drawn
    → bootstrap_admin db drawn hash now
      ≡ ok (record db { users = first_admin hash now ∷ []; initial_password = some drawn })
unfolding bootstrap_admin add_user_must_change add_user valid_username all_name_chars valid_role
    trim_space any text_discrete user_count
added db drawn hash now new long = ground arith

pub bootstrapped :
    (db : Accounts) (drawn hash : Text) (now : ℕ)
    → db.users ≡ []
    → 8 ≤ length drawn
    → (db' : Accounts) × (bootstrap_admin db drawn hash now ≡ ok db')
      × (db'.initial_password ≡ some drawn)
bootstrapped db drawn hash now new long = (
  record db { users = first_admin hash now ∷ []; initial_password = some drawn },
  added db drawn hash now new long,
  refl,
)

first_admin-IsSafe : (hash : Text) (now : ℕ) → IsSafe (first_admin hash now ∷ [])
unfolding any
first_admin-IsSafe hash now = record { distinct = (refl, tt); administered = refl }

-- On a deployment without accounts, starting the server creates one, and does not fail: an approved
-- administrator whose password is the one drawn, of at least 8 bytes, if the hash of it that is
-- stored verifies; it is left in the file, it signs the administrator in, and it has to be changed.
pub bootstrap_admin_lem :
    (verify : Text → Text → Bool) (db : Accounts) (drawn hash : Text) (now : ℕ)
    → db.users ≡ []
    → 8 ≤ length drawn
    → verify hash drawn ≡ true
    → (db' : Accounts) × (u : User) × (bootstrap_admin db drawn hash now ≡ ok db')
      × (db'.users ≡ u ∷ [])
      × IsSafe db'.users
      × (db'.initial_password ≡ some drawn)
      × (authenticate verify db' (codes "admin") drawn ≡ some u)
      × (u.must_change_password ≡ true)
unfolding authenticate find_user text_discrete
bootstrap_admin_lem verify db drawn hash now new long good = (
  record db { users = first_admin hash now ∷ []; initial_password = some drawn },
  first_admin hash now,
  added db drawn hash now new long,
  refl,
  first_admin-IsSafe hash now,
  refl,
  ground (arith, good),
  refl,
)
