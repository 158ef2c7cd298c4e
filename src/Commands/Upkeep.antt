-- ===== src/Commands/Upkeep.antt =====
-- cmd/quicksurvey/main.go: which command runs, settings from the environment, and the commands `backup`,
-- `initial-password` and `healthcheck`.
--
-- The flags come parsed. An HTTP client is a function from the URL to the response's status, or none; a
-- variable that is not set is empty.
pub mod Collected
pub mod Probed
use quicksurvey.Base.{
  ℕ, ◌==◌, if◌then◌else◌, not, Option, none, some, List, [], ◌∷◌, ◌++◌, Text, codes, same, is_empty,
  Result, ok, err, ◌>>=◌, ◌>>◌, require, or_fail, target_required, usage, unknown_command,
  unhealthy, not_opened,
}
use quicksurvey.Accounts.{Accounts}
use quicksurvey.Store.Files.{
  File, backup_to, backup_to_writer, write_initial_password, read_initial_password,
}
use quicksurvey.Store.Opening.{Database, open_store}

-- The commands, each with the arguments that are left.
pub data Invocation : Type 0 where
  serve user export healthcheck backup initial_password : (args : List Text) → Invocation
  help : Invocation

unfoldable pub run_command : (args : List Text) → Result Invocation
run_command [] = err usage
run_command (command ∷ args) =
    if same command (codes "serve")
    then ok (serve args)
    else if same command (codes "user")
    then ok (user args)
    else if same command (codes "export")
    then ok (export args)
    else if same command (codes "healthcheck")
    then ok (healthcheck args)
    else if same command (codes "backup")
    then ok (backup args)
    else if same command (codes "initial-password")
    then ok (initial_password args)
    else if same command (codes "-h")
    then ok help
    else if same command (codes "--help")
    then ok help
    else if same command (codes "help")
    then ok help
    else err unknown_command

unfoldable pub env : (variable default : Text) → Text
env variable default = if not (is_empty variable) then variable else default

-- `envInt` and `envBool`, with strconv's parser.
unfoldable pub env_parsed {ℓ} : {A : Type ℓ} → (parse : Text → Option A) → (variable : Text) → A → A
env_parsed parse variable default =
    if not (is_empty variable)
    then elim (parse variable) [ none ↦ default | some v ↦ v ]
    else default

unfoldable pub health_url : (addr : Text) → Text
unfolding env
health_url addr = codes "http://127.0.0.1" ++ env addr (codes ":8080") ++ codes "/healthz"

unfoldable pub healthcheck_cmd : (client : Text → Option ℕ) → (target : Text) → Result (Unit {0})
healthcheck_cmd client target = do
  status ← or_fail (client target) unhealthy
  require (status == 200) unhealthy

-- What was written, the files, and the database.
pub record Ran : Type 0 where
  pub output : Result Text
  pub files : List File
  pub db : Database

module _ (exec : (statement : Text) → (database : Text) → List File → Option (List File))
    (absolute : Text → Option Text) (content : Database → Text) where
  abbrev backed_up : Database → List File → (to tmp : Text) → Ran
  backed_up db fs to tmp =
      if same to (codes "-")
      then (let (out, files) = backup_to_writer exec (content db) fs tmp in
          record { output = out; files = files; db = db })
      else elim (backup_to exec absolute (content db) fs to) [
        | ok files ↦ record {
          output = ok (codes "wrote " ++ to ++ (10 ∷ []));
          files = files;
          db = db;
        }
        | err why ↦ record { output = err why; files = fs; db = db }
      ]

  unfoldable pub backup_cmd : Database → (drawn : Text) → List File → (to tmp : Text) → Ran
  unfolding open_store backup_to backup_to_writer
  backup_cmd db drawn fs to tmp =
      if is_empty to
      then record { output = err target_required; files = fs; db = db }
      else elim (open_store db drawn) [
        | none ↦ record { output = err not_opened; files = fs; db = db }
        | some (opened, key) ↦ backed_up opened fs to tmp
      ]

-- The file that holds the first password, for the accounts that it was drawn with.
abbrev pub password_file : Accounts → Option Text
password_file db = elim db.initial_password [
  | none ↦ none
  | some pw ↦ some (write_initial_password pw)
]

unfoldable pub initial_password_cmd :
    Database → (drawn : Text) → (file : Option Text) → Result (Text × Database)
unfolding open_store read_initial_password
initial_password_cmd db drawn file = do
  opened ← or_fail (open_store db drawn) not_opened
  pw ← read_initial_password file
  ok (pw ++ (10 ∷ []), opened.0)
