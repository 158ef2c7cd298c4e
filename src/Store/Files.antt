-- ===== src/Store/Files.antt =====
-- The files of internal/store/store.go beside the database: snapshots, and the first password.
--
-- A directory is the list of its files. SQLite runs a statement on the database's content and the
-- files, and `none` is its error; filepath.Abs is a parameter.
pub mod Snapshots
use quicksurvey.Base.{
  ℕ, if◌then◌else◌, not, Option, none, some, List, [], ◌∷◌, ◌++◌, Text, codes, same, trim_space,
  Result, ok, err, ◌>>=◌, ◌>>◌, require, or_fail, bad_path, file_exists, snapshot_failed,
  no_initial_password,
}
use quicksurvey.Survey.Edit.{is_some}
use quicksurvey.Store.{quote_sql_string}

pub record File : Type 0 where
  pub path : Text
  pub content : Text

unfoldable pub find_file : Text → List File → Option Text
find_file path [] = none
find_file path (f ∷ fs) = if same f.path path then some f.content else find_file path fs

unfoldable pub remove_file : Text → List File → List File
remove_file path [] = []
remove_file path (f ∷ fs) =
    let rest = remove_file path fs in if same f.path path then rest else f ∷ rest

abbrev pub write_file : (path content : Text) → List File → List File
write_file path content fs = record { path = path; content = content } ∷ remove_file path fs

abbrev pub vacuum_into : Text → Text
vacuum_into path = codes "VACUUM INTO " ++ quote_sql_string path

module _ (exec : (statement : Text) → (database : Text) → List File → Option (List File)) where
  unfoldable pub backup_to :
      (absolute : Text → Option Text)
      → (database : Text) → List File
      → (path : Text) → Result (List File)
  unfolding find_file
  backup_to absolute database fs path = do
    abs ← or_fail (absolute path) bad_path
    require (not (is_some (find_file abs fs))) file_exists
    or_fail (exec (vacuum_into abs) database fs) snapshot_failed

  -- `tmp` is the name that os.CreateTemp picks; the file of that name is removed on every way out.
  unfoldable pub backup_to_writer :
      (database : Text) → List File → (tmp : Text) → Result Text × List File
  unfolding find_file remove_file
  backup_to_writer database fs tmp =
      let free = remove_file tmp (write_file tmp [] fs) in
      elim (exec (vacuum_into tmp) database free) [
        | none ↦ (err snapshot_failed, remove_file tmp free)
        | some made ↦ (or_fail (find_file tmp made) snapshot_failed, remove_file tmp made)
      ]

-- The file that `writeInitialPassword` leaves.
abbrev pub write_initial_password : Text → Text
write_initial_password pw = pw ++ (10 ∷ [])

unfoldable pub read_initial_password : (file : Option Text) → Result Text
unfolding trim_space
read_initial_password file = do b ← or_fail file no_initial_password; ok (trim_space b)
