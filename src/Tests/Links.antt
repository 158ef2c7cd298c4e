-- ===== src/Tests/Links.antt =====
-- Invites, password resets and the administrators of a small instance.
use quicksurvey.Base.{
  ℕ, ◌≡◌, ◌≢◌, refl, true, false, none, some, List, [], ◌∷◌, ◌++◌, Text, codes, text_discrete, any,
  filter, ok, err, last_admin, arith, trim_space,
}
use quicksurvey.Accounts.{
  User, Role, admin, viewer, editor, Invite, Reset, Accounts, all_name_chars, valid_username,
  find_user, update_user, add_user, add_user_must_change, retire_resets, set_password,
  revoke_sessions, count_other_admins, set_role, delete_user, approve_user, name_taken_by,
  valid_role,
}
use quicksurvey.Accounts.Invites.{
  is_open, find_invite, find_invite_id, update_invite, invite_digest, create_invite, revoke_invite,
  claim_invite,
}
use quicksurvey.Accounts.Invites.Claims.{claim_invite_once}
use quicksurvey.Accounts.Resets.{find_reset, spend_reset, reset_digest, create_reset, use_reset}
use quicksurvey.Accounts.Resets.Uses.{use_reset_once}
use quicksurvey.Accounts.Actions.{Action, deletes, sets_role, sets_password, call, run}
use quicksurvey.Accounts.Roster.{IsSafe}
use quicksurvey.Accounts.Admins.{run-IsSafe}

-- A stand-in for the keyed digest.
abbrev pub join : List Text → Text
join [] = []
join (t ∷ ts) = t ++ join ts

abbrev ada : User
ada = record {
  name = codes "ada";
  role = admin;
  hash = codes "h";
  created = 1;
  must_change_password = false;
  pending = false;
  invited_by = [];
  sessions_from = 0;
}

abbrev link : Invite
link = record {
  id = codes "i1";
  digest = codes "inviteT";
  role = viewer;
  note = [];
  created_by = codes "ada";
  created = 2;
  expires = 100;
  claimed_by = [];
  claimed = 0;
  revoked = false;
}

abbrev reset_link : Text → Text → ℕ → Reset
reset_link id digest used = record {
  id = id;
  digest = digest;
  user = codes "ada";
  created_by = codes "ada";
  created = 2;
  expires = 7_200_000_000_002;
  used = used;
}

abbrev office : Accounts
office = record {
  users = ada ∷ [];
  invites = link ∷ [];
  resets = reset_link (codes "p1") (codes "resetR") 0 ∷ [];
  initial_password = some (codes "bootstrap");
}

abbrev bob : User
bob = record {
  name = codes "bob";
  role = viewer;
  hash = codes "hb";
  created = 9;
  must_change_password = false;
  pending = true;
  invited_by = codes "ada";
  sessions_from = 0;
}

abbrev joined : Accounts
joined = record office {
  users = ada ∷ bob ∷ [];
  invites = record link { claimed_by = codes "bob"; claimed = 9 } ∷ [];
}

-- All that a run on these accounts unfolds.
unfoldable accounts_program : Unit {0}
unfolding text_discrete any filter trim_space all_name_chars valid_username find_user update_user
    add_user add_user_must_change retire_resets set_password revoke_sessions count_other_admins
    set_role delete_user approve_user quicksurvey.Accounts.Invites.is_open find_invite
    find_invite_id update_invite create_invite revoke_invite claim_invite
    quicksurvey.Accounts.Resets.is_open find_reset spend_reset create_reset use_reset call run
accounts_program = tt

bob_claims :
    claim_invite join office (codes "T") (codes " bob ") (codes "longenough") (codes "hb") 9
    ≡ ok (bob, joined)
unfolding accounts_program
bob_claims = refl

claim_invite_once_example :
    claim_invite join joined (codes "T") (codes "eve") (codes "longenough") (codes "he") 10
    ≢ ok (bob, joined)
claim_invite_once_example =
    claim_invite_once join office joined (codes "T") (codes " bob ") (codes "longenough")
      (codes "hb") 9 bob bob_claims (codes "eve") (codes "longenough") (codes "he") 10 (bob, joined)

abbrev withdrawn : Accounts
withdrawn = record office { invites = record link { revoked = true } ∷ [] }

abbrev changed : Accounts
changed = record office {
  users = record ada { hash = codes "h2"; sessions_from = 9 } ∷ [];
  resets = reset_link (codes "p1") (codes "resetR") 9 ∷ [];
  initial_password = none;
}

use_reset_once_example :
    use_reset join changed (codes "R") (codes "longenough") (codes "h3") 10
    ≢ ok (codes "ada", changed)
unfolding accounts_program
use_reset_once_example =
    use_reset_once join office changed (codes "R") (codes "longenough") (codes "h2") (codes "ada") 9
      (ground arith) (refl, tt) refl (codes "longenough") (codes "h3") 10 (codes "ada", changed)

abbrev second : Reset
second = reset_link (codes "p2") (codes "resetQ") 0

abbrev reset_again : Accounts
reset_again = record office { resets = reset_link (codes "p1") (codes "resetR") 2 ∷ second ∷ [] }

abbrev renewed : Accounts
renewed = record office {
  users = record ada { hash = codes "h2" } ∷ [];
  resets = reset_link (codes "p1") (codes "resetR") 9 ∷ [];
  initial_password = none;
}

office-IsSafe : IsSafe office.users
unfolding accounts_program
office-IsSafe = record { distinct = (refl, tt); administered = refl }

-- The last administrator cannot be deleted.
delete_ada : delete_user office (codes "ada") ≡ err last_admin
unfolding accounts_program
delete_ada = refl

abbrev calls : List (ℕ × Action)
calls =
    (9, deletes (codes "ada"))
    ∷ (10, sets_role (codes "ada") viewer)
    ∷ (11, sets_password (codes "ada") (codes "longenough") (codes "h2"))
    ∷ []

run-IsSafe_example : IsSafe (run join office calls).users
run-IsSafe_example = run-IsSafe join office calls office-IsSafe
