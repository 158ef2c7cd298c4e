-- ===== src/Tests/Commands.antt =====
-- A deployment that starts without accounts, and a command on the one that it creates.
use quicksurvey.Base.{
  ◌≡◌, refl, true, false, none, some, [], ◌∷◌, codes, any, trim_space, text_discrete, ok,
}
use quicksurvey.Accounts.{
  admin, Accounts, add_user, add_user_must_change, valid_username, all_name_chars, valid_role,
  user_count,
}
use quicksurvey.Commands.{bootstrap_admin}

abbrev pub nobody : Accounts
nobody = record { users = []; invites = []; resets = []; initial_password = none }

started :
    (bootstrap_admin nobody (codes "0123456789abcdef") (codes "hash") 1)
    ≡ ok (record nobody {
      users =
          record {
            name = codes "admin";
            role = admin;
            hash = codes "hash";
            created = 1;
            must_change_password = true;
            pending = false;
            invited_by = [];
            sessions_from = 0;
          }
          ∷ [];
      initial_password = some (codes "0123456789abcdef");
    })
unfolding bootstrap_admin add_user_must_change add_user valid_username all_name_chars valid_role
    trim_space any text_discrete user_count
started = refl
