-- ===== src/Tests/Backups.antt =====
-- Backups to paths with quote marks, by a SQLite that knows one statement, and the first password.
use quicksurvey.Base.{
  ℕ, zero, suc, ◌≡◌, refl, if◌then◌else◌, true, Option, none, some, List, [], ◌∷◌, ◌++◌, Text,
  codes, same, text_discrete, arith, ok, err, file_exists,
}
use quicksurvey.Survey.Edit.{is_some}
use quicksurvey.Accounts.{Accounts}
use quicksurvey.Accounts.Actions.{Action, sets_password}
use quicksurvey.Store.{double_quotes, quote_sql_string}
use quicksurvey.Store.Literals.{read_marked, read_literal, read_literal-quote_sql_string}
use quicksurvey.Store.Files.{File, find_file, remove_file, write_file, backup_to, backup_to_writer}
use quicksurvey.Store.Files.Snapshots.{backup_to_lem}
use quicksurvey.Commands.Upkeep.{healthcheck_cmd}
use quicksurvey.Commands.Upkeep.Probed.{healthcheck_cmd-serve}
use quicksurvey.Web.{Request, get, health}
use quicksurvey.Web.Routes.{path_of, serve}
use quicksurvey.Tests.Web.{server, site, chance, promotes}

abbrev drop_bytes : ℕ → Text → Text
drop_bytes zero t = t
drop_bytes (suc n) [] = []
drop_bytes (suc n) (c ∷ t) = drop_bytes n t

abbrev sqlite : (statement : Text) → (database : Text) → List File → Option (List File)
sqlite statement database fs = elim (read_literal (drop_bytes 12 statement)) [
  | some (path, []) ↦ elim (find_file path fs) [
    | none ↦ some (write_file path database fs)
    | some c ↦ none
  ]
  | other ↦ none
]

sqlite-vacuums :
    (path literal database : Text) (fs : List File)
    → read_literal literal ≡ some (path, [])
    → find_file path fs ≡ none
    → sqlite (codes "VACUUM INTO " ++ literal) database fs ≡ some (write_file path database fs)
sqlite-vacuums path literal database fs read free = ground (arith, read, free)

abbrev disk : List File
disk = record { path = codes "/data/old"; content = codes "x" } ∷ []

abbrev quoted_path : Text
quoted_path = codes "/data/it's"

read_literal-quote_sql_string_example :
    read_literal (quote_sql_string quoted_path ++ codes "; DROP TABLE users")
    ≡ some (quoted_path, codes "; DROP TABLE users")
read_literal-quote_sql_string_example =
    read_literal-quote_sql_string quoted_path (codes "; DROP TABLE users") refl

backup_to_lem_example :
    (is_some (find_file quoted_path disk) ≡ true
      → backup_to sqlite some (codes "db") disk quoted_path ≡ err file_exists)
    × (find_file quoted_path disk ≡ none
        → (later : List File) × (backup_to sqlite some (codes "db") disk quoted_path ≡ ok later)
          × ((q : Text)
              → find_file q later
                ≡ (if same quoted_path q then some (codes "db") else find_file q disk)))
backup_to_lem_example =
    backup_to_lem sqlite sqlite-vacuums some (codes "db") disk quoted_path quoted_path refl

refused : backup_to sqlite some (codes "db") disk (codes "/data/old") ≡ err file_exists
unfolding backup_to find_file text_discrete
refused = refl

streamed :
    (backup_to_writer sqlite (codes "db") disk (codes "/data/.backup-1")) ≡ (ok (codes "db"), disk)
unfolding backup_to_writer find_file remove_file text_discrete read_literal read_marked
    quote_sql_string double_quotes
streamed = refl

-- A password that is too short is refused, and the one after it is set.
abbrev attempts : List (ℕ × Action)
attempts =
    (2, sets_password (codes "admin") (codes "short") (codes "h1"))
    ∷ (3, sets_password (codes "admin") (codes "longenough") (codes "h2"))
    ∷ []

abbrev probe : Text → Request
probe url = record promotes {
  method = get;
  route = health;
  path = codes "/healthz";
  form = [];
  cookies = [];
}

healthcheck_cmd-serve_example :
    (healthcheck_cmd
        (λ url. some (serve server site (probe url) chance).0.status)
        (codes "http://h/healthz")
      ≡ ok tt)
    × ((serve server site (probe (codes "http://h/healthz")) chance).1 ≡ site)
unfolding path_of
healthcheck_cmd-serve_example =
    healthcheck_cmd-serve server site chance probe (codes "http://h/healthz") refl refl refl
