-- ===== src/Commands.antt =====
-- cmd/quicksurvey/main.go: the commands on accounts and exports, and the account that `serve` starts a
-- new deployment with.
--
-- The flags come parsed and the store opened. `parse_role` is the conversion of a flag to store.Role;
-- the salt of a hash is drawn, and so are the 12 random bytes, which come encoded.
pub mod Start
pub mod Upkeep
pub mod Serving
use quicksurvey.Base.{
  ℕ, ltb, if◌then◌else◌, Bool, true, false, not, ◌||◌, Option, none, some, List, [], ◌∷◌, ◌++◌,
  Text, codes, same, is_empty, reverse, ◌==◌, Result, ok, err, ◌>>=◌, ◌>>◌, require, or_fail,
  name_required, survey_required, unknown_command, no_survey, unknown_kind_of_export, no_password,
}
use quicksurvey.Survey.{Survey}
use quicksurvey.Tables.{Tables, load_survey}
use quicksurvey.Tally.{Ratio, responses, compute_tally}
use quicksurvey.Export.{response_rows, summary_rows}
use quicksurvey.Accounts.{
  Role, admin, User, Accounts, user_count, add_user, add_user_must_change, set_password, set_role,
  delete_user,
}
use quicksurvey.Web.Administration.{role_named, users_by_name}

unfoldable pub bootstrap_admin : Accounts → (drawn hash : Text) (now : ℕ) → Result Accounts
bootstrap_admin db drawn hash now =
    if ltb 0 (user_count db)
    then ok db
    else do added ← add_user_must_change db (codes "admin") admin drawn hash now; ok added.1

-- strings.TrimRight at line ends, on the reversed text.
unfoldable pub drop_line_ends : Text → Text
drop_line_ends [] = []
drop_line_ends (c ∷ cs) =
    let rest = drop_line_ends cs in if c == 10 || c == 13 then rest else c ∷ cs

-- The variable, and else the line: `none` where nothing could be read.
unfoldable pub read_password : (variable : Text) → (line : Option Text) → Result Text
unfolding drop_line_ends
read_password variable line =
    if not (is_empty variable)
    then ok variable
    else do typed ← or_fail line no_password; ok (reverse (drop_line_ends (reverse typed)))

-- What a command prints.
pub data Output : Type 0 where
  said : Text → Output
  listed : List User → Output

-- One `user` command, with its flags, and the password that is read for it.
pub record UserCommand : Type 0 where
  pub sub : Text
  pub name : Text
  pub role : Text
  pub variable : Text
  pub line : Option Text

abbrev with_said : Text → Result Accounts → Result (Output × Accounts)
with_said t (ok db) = ok (said t, db)
with_said t (err e) = err e

unfoldable pub user_add :
    Accounts → UserCommand → (hash : Text → Text) (now : ℕ) → Result (Output × Accounts)
user_add db c hash now = do
  require (not (is_empty c.name)) name_required
  pw ← read_password c.variable c.line
  added ← add_user db c.name (role_named c.role) pw false false [] (hash pw) now
  ok (said (codes "created " ++ c.name ++ codes " (" ++ c.role ++ codes ")"), added.1)

unfoldable pub user_passwd :
    Accounts → UserCommand → (hash : Text → Text) (now : ℕ) → Result (Output × Accounts)
user_passwd db c hash now = do
  require (not (is_empty c.name)) name_required
  pw ← read_password c.variable c.line
  with_said (codes "password changed for " ++ c.name ++ codes "; their sessions are signed out")
      (set_password db c.name pw (hash pw) now)

unfoldable pub user_role : Accounts → UserCommand → Result (Output × Accounts)
user_role db c = do
  require (not (is_empty c.name)) name_required
  with_said (c.name ++ codes " is now " ++ c.role) (set_role db c.name (role_named c.role))

unfoldable pub user_rm : Accounts → UserCommand → Result (Output × Accounts)
user_rm db c = do
  require (not (is_empty c.name)) name_required
  with_said (codes "deleted " ++ c.name) (delete_user db c.name)

unfoldable pub user_cmd :
    Accounts → UserCommand → (hash : Text → Text) (now : ℕ) → Result (Output × Accounts)
unfolding user_add user_passwd user_role user_rm
user_cmd db c hash now =
    if same c.sub (codes "list")
    then ok (listed (users_by_name db), db)
    else if same c.sub (codes "add")
    then user_add db c hash now
    else if same c.sub (codes "passwd")
    then user_passwd db c hash now
    else if same c.sub (codes "role")
    then user_role db c
    else if same c.sub (codes "rm")
    then user_rm db c
    else err unknown_command

module _ (format_time print_nat : ℕ → Text) (print_ratio : Ratio → Text) where
  abbrev export_lines : Tables → Survey → (kind : Text) → Result (List Text)
  export_lines db sv kind =
      let tally = compute_tally db sv.id in
      if same kind (codes "responses")
      then ok (response_rows format_time print_nat sv (responses db sv.id))
      else if same kind (codes "summary")
      then ok (summary_rows format_time print_nat print_ratio tally.0 tally.1)
      else err unknown_kind_of_export

  -- The lines that `export` writes.
  unfoldable pub export_cmd : Tables → (id kind : Text) → Result (List Text)
  export_cmd db id kind = do
    require (not (is_empty id)) survey_required
    sv ← or_fail (load_survey db id) no_survey
    export_lines db sv kind
