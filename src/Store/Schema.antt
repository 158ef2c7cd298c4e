-- ===== src/Store/Schema.antt =====
-- The schema of internal/store/store.go and `migrate`, which brings the tables of an older database to it.
--
-- A database has, for each of its tables, the names of its columns. Indexes change no shape and are left
-- out. `none` is an error of the database.
pub mod Migrated
pub mod Extended
use quicksurvey.Base.{
  ℕ, if◌then◌else◌, Bool, true, false, Option, none, some, List, [], ◌∷◌, ◌++◌, any, Text, codes,
  same,
}

pub record Table : Type 0 where
  pub name : Text
  pub columns : List Text

-- CREATE TABLE IF NOT EXISTS
unfoldable pub create_table : Table → List Table → List Table
create_table t [] = t ∷ []
create_table t (x ∷ xs) =
    let rest = create_table t xs in if same x.name t.name then x ∷ xs else x ∷ rest

unfoldable pub create_tables : List Table → List Table → List Table
create_tables [] db = db
create_tables (t ∷ ts) db = create_tables ts (create_table t db)

abbrev pub table_of : Text → List Text → Table
table_of name columns = record { name = name; columns = columns }

abbrev pub schema : List Table
schema =
    table_of (codes "meta") (codes "key" ∷ codes "value" ∷ [])
    ∷ table_of (codes "users") (
        codes "name"
        ∷ codes "role"
        ∷ codes "hash"
        ∷ codes "created"
        ∷ codes "must_change_password"
        ∷ codes "pending"
        ∷ codes "invited_by"
        ∷ codes "sessions_from"
        ∷ [])
    ∷ table_of (codes "invites") (
        codes "id"
        ∷ codes "digest"
        ∷ codes "role"
        ∷ codes "note"
        ∷ codes "created_by"
        ∷ codes "created"
        ∷ codes "expires"
        ∷ codes "claimed_by"
        ∷ codes "claimed"
        ∷ codes "revoked"
        ∷ [])
    ∷ table_of (codes "resets") (
        codes "id"
        ∷ codes "digest"
        ∷ codes "user_name"
        ∷ codes "created_by"
        ∷ codes "created"
        ∷ codes "expires"
        ∷ codes "used"
        ∷ [])
    ∷ table_of (codes "surveys") (
        codes "id"
        ∷ codes "type"
        ∷ codes "title"
        ∷ codes "description"
        ∷ codes "state"
        ∷ codes "show_results"
        ∷ codes "allow_write_in"
        ∷ codes "allow_comment"
        ∷ codes "no_randomize"
        ∷ codes "close_at"
        ∷ codes "first_opened_at"
        ∷ codes "created"
        ∷ codes "updated"
        ∷ [])
    ∷ table_of (codes "options") (
        codes "id"
        ∷ codes "survey_id"
        ∷ codes "position"
        ∷ codes "text"
        ∷ codes "status"
        ∷ codes "source"
        ∷ codes "merged_into"
        ∷ codes "created"
        ∷ [])
    ∷ table_of (codes "responses") (
        codes "id"
        ∷ codes "survey_id"
        ∷ codes "voter"
        ∷ codes "comment"
        ∷ codes "created"
        ∷ codes "updated"
        ∷ [])
    ∷ table_of (codes "choices") (codes "response_id" ∷ codes "option_id" ∷ [])
    ∷ table_of (codes "seen") (codes "response_id" ∷ codes "option_id" ∷ [])
    ∷ []

-- `addedColumns`
pub record Added : Type 0 where
  pub table : Text
  pub column : Text

abbrev pub added_columns : List Added
added_columns = record { table = codes "users"; column = codes "sessions_from" } ∷ []

-- SELECT name FROM pragma_table_info(?)
unfoldable pub table_info : Text → List Table → List Text
table_info name [] = []
table_info name (x ∷ xs) = if same x.name name then x.columns else table_info name xs

-- ALTER TABLE … ADD COLUMN, for a column that is not there.
unfoldable pub alter_table : Added → List Table → Option (List Table)
alter_table a [] = none
alter_table a (x ∷ xs) = elim (same x.name a.table) [
  | true ↦ some (record x { columns = x.columns ++ (a.column ∷ []) } ∷ xs)
  | false ↦ elim (alter_table a xs) [ none ↦ none | some ys ↦ some (x ∷ ys) ]
]

unfoldable pub ensure_column : Added → List Table → Option (List Table)
unfolding table_info alter_table
ensure_column a db =
    if any (λ c. same c a.column) (table_info a.table db) then some db else alter_table a db

unfoldable pub ensure_columns : List Added → List Table → Option (List Table)
unfolding ensure_column
ensure_columns [] db = some db
ensure_columns (a ∷ ads) db = elim (ensure_column a db) [
  | none ↦ none
  | some next ↦ ensure_columns ads next
]

-- `migrate`, up to its upgrade of seen sets.
unfoldable pub migrate_schema : List Table → Option (List Table)
unfolding create_table create_tables ensure_columns
migrate_schema db = ensure_columns added_columns (create_tables schema db)
