-- ===== src/Store/Files/Snapshots.antt =====
-- What a backup of internal/store/store.go does to the files.
use mathlib.Core.List.{append-nil}
use quicksurvey.Base.{
  ◌≡◌, refl, ap, ◌∙◌, sym, if◌then◌else◌, true, Option, none, some, List, [], ◌∷◌, ◌++◌, Text,
  codes, same, arith, ok, err, file_exists,
}
use quicksurvey.Survey.Edit.{is_some}
use quicksurvey.Store.{quote_sql_string}
use quicksurvey.Store.Literals.{read_literal, read_literal-quote_sql_string}
use quicksurvey.Store.Files.{
  File, find_file, remove_file, write_file, vacuum_into, backup_to, backup_to_writer,
}

find-remove_file :
    (path q : Text) (fs : List File)
    → find_file q (remove_file path fs) ≡ (if same path q then none else find_file q fs)
unfolding find_file remove_file
find-remove_file path q [] = ground arith
find-remove_file path q (f ∷ fs) = ground (arith, find-remove_file path q fs)

find-write_file :
    (path content q : Text) (fs : List File)
    → find_file q (write_file path content fs)
      ≡ (if same path q then some content else find_file q fs)
unfolding find_file
find-write_file path content q fs = ground (arith, find-remove_file path q fs)

module _ (exec : (statement : Text) → (database : Text) → List File → Option (List File))
    (vacuums : (path literal database : Text) (fs : List File)
      → read_literal literal ≡ some (path, [])
      → find_file path fs ≡ none
      → exec (codes "VACUUM INTO " ++ literal) database fs
        ≡ some (write_file path database fs)) where
  exec-vacuum_into :
      (path database : Text) (fs : List File)
      → find_file path fs ≡ none
      → exec (vacuum_into path) database fs ≡ some (write_file path database fs)
  exec-vacuum_into path database fs free =
      vacuums path (quote_sql_string path) database fs
        (ap read_literal (sym (append-nil (quote_sql_string path)))
          ∙ read_literal-quote_sql_string path [] refl)
        free

  -- Where VACUUM INTO writes the database to the path that its literal reads as, if there is no file, a
  -- backup to a path whose file is there is refused; otherwise it leaves a file of that very path with
  -- the database, and every other file as it was.
  pub backup_to_lem :
      (absolute : Text → Option Text) (database : Text) (fs : List File) (path abs : Text)
      → absolute path ≡ some abs
      → (is_some (find_file abs fs) ≡ true
          → backup_to exec absolute database fs path ≡ err file_exists)
        × (find_file abs fs ≡ none
            → (later : List File) × (backup_to exec absolute database fs path ≡ ok later)
              × ((q : Text)
                  → find_file q later ≡ (if same abs q then some database else find_file q fs)))
  unfolding backup_to
  backup_to_lem absolute database fs path abs at = (
    λ there. ground (arith, at),
    λ free. (
      write_file abs database fs,
      ground (arith, at, exec-vacuum_into abs database fs free),
      λ q. find-write_file abs database q fs,
    ),
  )

  -- Where VACUUM INTO writes the database to the path that its literal reads as, if there is no file, and
  -- the name picked for the snapshot is that of no file, a streamed backup is the database, and every
  -- file is as it was: the snapshot is gone.
  pub backup_to_writer_lem :
      (database : Text) (fs : List File) (tmp : Text)
      → find_file tmp fs ≡ none
      → let out = backup_to_writer exec database fs tmp in
        (out.0 ≡ ok database) × ((q : Text) → find_file q out.1 ≡ find_file q fs)
  unfolding backup_to_writer
  backup_to_writer_lem database fs tmp fresh =
      let free = remove_file tmp (write_file tmp [] fs) in
      let made =
        exec-vacuum_into tmp database free
          (ground (arith, find-remove_file tmp tmp (write_file tmp [] fs))) in
      (
        ground (arith, made, find-write_file tmp database tmp free),
        λ q. ground (
          arith,
          made,
          fresh,
          find-remove_file tmp q (write_file tmp database free),
          find-write_file tmp database q free,
          find-remove_file tmp q (write_file tmp [] fs),
          find-write_file tmp [] q fs,
        ),
      )
