-- ===== src/Store/Opening/Opened.antt =====
-- What a database of internal/store/store.go is once it was opened.
use quicksurvey.Base.{
  ◌≡◌, refl, inl, inr, true, Option-cases, Option, some, List, [], ◌∷◌, length, All, Text, arith,
}
use quicksurvey.Tables.{Tables}
use quicksurvey.Backfill.{
  Meta, backfill_seen, backfill_surveys, backfill_seen_for_survey, survey_ids_after,
}
use quicksurvey.Store.Schema.{schema, added_columns}
use quicksurvey.Store.Schema.Migrated.{IsEarly, Widens}
use quicksurvey.Store.Schema.Extended.{IsCurrent, migrate_schema-IsCurrent}
use quicksurvey.Store.Opening.{Database, migrate, read_secret, load_or_create_secret, open_store}

backfill_surveys-done :
    (ids : List Text) (db : Tables) (meta : Meta) → (backfill_surveys db meta ids).1.done ≡ true
unfolding backfill_surveys backfill_seen_for_survey
backfill_surveys-done [] db meta = refl
backfill_surveys-done (id ∷ ids) db meta =
    elim (Option-cases (backfill_seen_for_survey db meta id)) [
      | inl stopped ↦ ground (arith, stopped)
      | inr ((next, meta'), e) ↦ ground (arith, e, backfill_surveys-done ids next meta')
    ]

backfill_seen-done : (db : Tables) (meta : Meta) → (backfill_seen db meta).1.done ≡ true
unfolding backfill_seen
backfill_seen-done db meta =
    ground (arith, backfill_surveys-done (survey_ids_after db meta.through) db meta)

backfill_seen-again :
    (db : Tables) (meta : Meta) → meta.done ≡ true → backfill_seen db meta ≡ (db, meta)
unfolding backfill_seen
backfill_seen-again db meta done = ground arith

-- The key that is held from then on.
abbrev pub IsKey : Option Text → Text → Type 0
IsKey stored k = read_secret stored ≡ some k

load_or_create_secret-IsKey :
    (stored : Option Text) (drawn : Text)
    → length drawn ≡ 32
    → IsKey (load_or_create_secret stored drawn).1 (load_or_create_secret stored drawn).0
unfolding load_or_create_secret read_secret
load_or_create_secret-IsKey stored drawn long = elim (Option-cases (read_secret stored)) [
  | inl absent ↦ ground arith
  | inr (k, e) ↦ ground arith
]

load_or_create_secret-kept :
    (stored : Option Text) (drawn k : Text)
    → IsKey stored k
    → load_or_create_secret stored drawn ≡ (k, stored)
unfolding load_or_create_secret
load_or_create_secret-kept stored drawn k held = ground arith

-- A database whose tables, where they are there, lack no column but such as were added after its first
-- release, opens with a key, all the tables and columns of the schema, and the upgrade of seen sets
-- done; opening it again, whatever is drawn then, gives the same key and leaves it as it is.
pub open_store-again :
    (db : Database) (drawn : Text)
    → All (IsEarly added_columns db.shape) schema
    → length drawn ≡ 32
    → (later : Database) × (key : Text) × (open_store db drawn ≡ some (later, key))
      × IsCurrent later.shape
      × Widens db.shape later.shape
      × (later.upgrade.done ≡ true)
      × ((again : Text) → open_store later again ≡ some (later, key))
unfolding open_store migrate
open_store-again db drawn early long =
    let (shape, e, current, widens, same_shape) = migrate_schema-IsCurrent db.shape early in
    let out = backfill_seen db.tables db.upgrade in
    let held = load_or_create_secret db.secret drawn in
    let later : Database = record {
      shape = shape;
      tables = out.0;
      upgrade = out.1;
      secret = held.1;
    } in
    let done = backfill_seen-done db.tables db.upgrade in
    (
      later,
      held.0,
      ground (arith, e),
      current,
      widens,
      done,
      λ again. ground (
        arith,
        same_shape,
        backfill_seen-again out.0 out.1 done,
        load_or_create_secret-kept held.1 again held.0
            (load_or_create_secret-IsKey db.secret drawn long),
      ),
    )
