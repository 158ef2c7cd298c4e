-- ===== src/Store/Opening.antt =====
-- Opening a database in internal/store/store.go: `migrate`, then the instance's HMAC key.
--
-- The secret is one key of the table `meta`; the 32 bytes that are drawn for it are an argument. Making the
-- directory, the connection and its pragmas, and the warning about older files are left out. `none` is an
-- error of the database.
pub mod Opened
pub mod Rivals
use quicksurvey.Base.{ℕ, ltb, if◌then◌else◌, Option, none, some, List, length, Text}
use quicksurvey.Tables.{Tables}
use quicksurvey.Backfill.{Meta, backfill_seen}
use quicksurvey.Store.Schema.{Table, migrate_schema}

pub record Database : Type 0 where
  pub shape : List Table
  pub tables : Tables
  pub upgrade : Meta
  pub secret : Option Text

unfoldable pub migrate : Database → Option Database
unfolding migrate_schema backfill_seen
migrate db = elim (migrate_schema db.shape) [
  | none ↦ none
  | some shape ↦
      let (tables, upgrade) = backfill_seen db.tables db.upgrade in
      some (record { shape = shape; tables = tables; upgrade = upgrade; secret = db.secret })
]

-- The key that is stored, where it is long enough.
unfoldable pub read_secret : Option Text → Option Text
read_secret none = none
read_secret (some k) = if ltb (length k) 32 then none else some k

-- The key, and what is stored then.
unfoldable pub load_or_create_secret : Option Text → (drawn : Text) → Text × Option Text
unfolding read_secret
load_or_create_secret stored drawn = elim (read_secret stored) [
  | some k ↦ (k, stored)
  | none ↦ (drawn, some drawn)
]

unfoldable pub open_store : Database → (drawn : Text) → Option (Database × Text)
unfolding migrate load_or_create_secret
open_store db drawn = elim (migrate db) [
  | none ↦ none
  | some next ↦
      let (key, stored) = load_or_create_secret next.secret drawn in
      some (record next { secret = stored }, key)
]
