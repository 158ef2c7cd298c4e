-- ===== src/Store/Schema/Extended.antt =====
-- What `migrate` of internal/store/store.go makes of a database of an earlier version.
use quicksurvey.Base.{
  ◌≡◌, refl, ◌∙◌, sym, ap, subst, All-mono, inl, inr, if◌then◌else◌, true, ◌&&◌, ◌||◌, Bool-cases,
  some, List, [], ◌∷◌, ◌++◌, All, any, Text, codes, same, text_discrete, arith,
}
use quicksurvey.Store.Schema.{
  Table, create_table, create_tables, schema, Added, added_columns, table_info, alter_table,
  ensure_column, ensure_columns, migrate_schema,
}
use quicksurvey.Store.Schema.Migrated.{
  find_table, has_column, is_added, IsThere, IsEarly, IsApart, Widens, find-create_tables_kept,
  create_tables-IsThere,
}

has-append :
    (c d : Text) (cs : List Text) → has_column c (cs ++ (d ∷ [])) ≡ (has_column c cs || same d c)
unfolding any
has-append c d [] = ground arith
has-append c d (x ∷ cs) = ground (arith, has-append c d cs)

table_info-find :
    (name : Text) (cs : List Text) (db : List Table)
    → find_table name db ≡ some cs
    → table_info name db ≡ cs
unfolding table_info find_table
table_info-find name cs [] found = absurd (ground arith)
table_info-find name cs (x ∷ xs) found = elim (Bool-cases (same x.name name)) [
  | inl hit ↦ ground arith
  | inr miss ↦ ground (arith, table_info-find name cs xs (ground arith))
]

-- Where a table is there with some columns, so it is with one more; the others are as they were.
Extends : Added → List Text → (before later : List Table) → Type 0
Extends a cs before later =
    (name : Text)
    → find_table name later
      ≡ (if same a.table name then some (cs ++ (a.column ∷ [])) else find_table name before)

alter_table-Extends :
    (a : Added) (cs : List Text) (db : List Table)
    → find_table a.table db ≡ some cs
    → (later : List Table) × (alter_table a db ≡ some later) × Extends a cs db later
unfolding find_table alter_table Extends
alter_table-Extends a cs [] found = absurd (ground arith)
alter_table-Extends a cs (x ∷ xs) found = elim (Bool-cases (same x.name a.table)) [
  | inl hit ↦
      (record x { columns = x.columns ++ (a.column ∷ []) } ∷ xs, ground arith, λ name. ground arith)
  | inr miss ↦
      let (later, e, extends) = alter_table-Extends a cs xs (ground arith) in
      (x ∷ later, ground (arith, e), λ name. ground (arith, extends name))
]

-- A table has a column.
HasColumn : List Table → Added → Type 0
HasColumn db a =
    (ds : List Text) × (find_table a.table db ≡ some ds) × (has_column a.column ds ≡ true)

ensure_column-Widens :
    (a : Added) (cs : List Text) (db : List Table)
    → find_table a.table db ≡ some cs
    → (later : List Table) × (ensure_column a db ≡ some later) × Widens db later × HasColumn later a
unfolding ensure_column HasColumn Extends
ensure_column-Widens a cs db found =
    let info = table_info-find a.table cs db found in
    elim (Bool-cases (has_column a.column cs)) [
      | inl present ↦ (
        db,
        ground (arith, info, present),
        (λ name ds e. (ds, e, λ c h. h)),
        (cs, found, present),
      )
      | inr absent ↦
          let (later, e, extends) = alter_table-Extends a cs db found in
          (
            later,
            ground (arith, info, absent, e),
            λ name ds old. elim (Bool-cases (same a.table name)) [
              | inl hit ↦ (
                cs ++ (a.column ∷ []),
                ground (arith, extends name),
                λ c h.
                    let here : ds ≡ cs = ground (arith, old, found) in
                    ground (arith, has-append c a.column cs, here, h),
              )
              | inr miss ↦ (ds, ground (arith, extends name, old), λ c h. h)
            ],
            (
              cs ++ (a.column ∷ []),
              ground (arith, extends a.table),
              ground (arith, has-append a.column a.column cs),
            ),
          )
    ]

-- A table that lacked the column of `a` at most, has it now.
IsThere-step :
    (a : Added) (ads : List Added) (db later : List Table) (t : Table)
    → Widens db later
    → HasColumn later a
    → IsThere (a ∷ ads) db t
    → IsThere ads later t
unfolding HasColumn any
IsThere-step a ads db later t grows (es, at, added) (cs, found, covers) =
    let (ds, e, keeps) = grows t.name cs found in
    (
      ds,
      e,
      All-mono (λ c. (has_column c cs || is_added (a ∷ ads) t.name c) ≡ true)
          (λ c. (has_column c ds || is_added ads t.name c) ≡ true) t.columns
          (λ c h. elim (Bool-cases (has_column c cs)) [
            | inl old ↦ ground (arith, keeps c old)
            | inr new ↦ elim (Bool-cases (same a.table t.name && same a.column c)) [
              | inr other ↦ ground arith
              | inl hit ↦
                  let names : a.table ≡ t.name = ground arith in
                  let column : a.column ≡ c = ground arith in
                  let rows : es ≡ ds =
                    ground (arith, sym at ∙ ap (λ n. find_table n later) names ∙ e) in
                  let shown : has_column c ds ≡ true =
                    subst (λ x. has_column x ds ≡ true) column
                      (subst (λ xs. has_column a.column xs ≡ true) rows added) in
                  ground (arith, shown)
            ]
          ])
          covers,
    )

All-IsThere-step :
    (a : Added) (ads : List Added) (db later : List Table) (ts : List Table)
    → Widens db later
    → HasColumn later a
    → All (IsThere (a ∷ ads) db) ts
    → All (IsThere ads later) ts
All-IsThere-step a ads db later ts grows has =
    All-mono (IsThere (a ∷ ads) db) (IsThere ads later) ts
      (λ t. IsThere-step a ads db later t grows has)

-- The table that a column is added to is there.
HasTable : List Table → Added → Type 0
HasTable db a = (cs : List Text) × (find_table a.table db ≡ some cs)

HasTable-kept :
    (db later : List Table) (a : Added) → Widens db later → HasTable db a → HasTable later a
unfolding HasTable
HasTable-kept db later a grows (cs, found) = let (ds, e, keeps) = grows a.table cs found in (ds, e)

ensure_columns-IsThere :
    (ads : List Added) (ts db : List Table)
    → All (HasTable db) ads
    → All (IsThere ads db) ts
    → (later : List Table) × (ensure_columns ads db ≡ some later)
      × All (IsThere [] later) ts
      × Widens db later
unfolding ensure_columns HasTable
ensure_columns-IsThere [] ts db tables there = (db, refl, there, λ name cs e. (cs, e, λ c h. h))
ensure_columns-IsThere (a ∷ ads) ts db ((cs, found), tables) there =
    let (next, e, grows, has) = ensure_column-Widens a cs db found in
    let (later, e', there', grows') =
      ensure_columns-IsThere ads ts next
        (All-mono (HasTable db) (HasTable next) ads (λ b. HasTable-kept db next b grows) tables)
        (All-IsThere-step a ads db next ts grows has there) in
    (
      later,
      ground (arith, e, e'),
      there',
      λ name ds old.
          let (es, f, keeps) = grows name ds old in
          let (fs, f', keeps') = grows' name es f in (fs, f', λ c h. keeps' c (keeps c h)),
    )

-- Tables that are there are not created again.
create_table-there :
    (t : Table) (cs : List Text) (db : List Table)
    → find_table t.name db ≡ some cs
    → create_table t db ≡ db
unfolding create_table find_table
create_table-there t cs [] found = absurd (ground arith)
create_table-there t cs (x ∷ xs) found = elim (Bool-cases (same x.name t.name)) [
  | inl hit ↦ ground arith
  | inr miss ↦ ground (arith, create_table-there t cs xs (ground arith))
]

create_tables-there : (ts db : List Table) → All (IsThere [] db) ts → create_tables ts db ≡ db
unfolding create_tables
create_tables-there [] db there = refl
create_tables-there (t ∷ ts) db ((cs, found, covers), there) =
    ap (create_tables ts) (create_table-there t cs db found) ∙ create_tables-there ts db there

-- The tables and columns that the queries of the program name.
abbrev pub IsCurrent : List Table → Type 0
IsCurrent db = All (IsThere [] db) schema

schema-IsApart : IsApart schema
unfolding text_discrete
schema-IsApart = (
  (refl, (refl, (refl, (refl, (refl, (refl, (refl, (refl, tt)))))))),
  (
    (refl, (refl, (refl, (refl, (refl, (refl, (refl, tt))))))),
    (
      (refl, (refl, (refl, (refl, (refl, (refl, tt)))))),
      (
        (refl, (refl, (refl, (refl, (refl, tt))))),
        (
          (refl, (refl, (refl, (refl, tt)))),
          ((refl, (refl, (refl, tt))), ((refl, (refl, tt)), ((refl, tt), (tt, tt)))),
        ),
      ),
    ),
  ),
)

current-sessions_from : (db : List Table) → IsCurrent db → ensure_columns added_columns db ≡ some db
unfolding ensure_columns ensure_column any
current-sessions_from db current =
    let (cs, found, covers) = current.1.0 in
    let info = table_info-find (codes "users") cs db found in ground (arith, info, covers)

-- A database whose tables, where they are there, lack no column but such as were added after its
-- first release, is brought to all the tables and columns of the schema; none of its tables and
-- columns is lost, and migrating again changes nothing.
pub migrate_schema-IsCurrent :
    (db : List Table)
    → All (IsEarly added_columns db) schema
    → (later : List Table) × (migrate_schema db ≡ some later)
      × IsCurrent later
      × Widens db later
      × (migrate_schema later ≡ some later)
unfolding migrate_schema HasTable
migrate_schema-IsCurrent db early =
    let created = create_tables schema db in
    let there = create_tables-IsThere added_columns schema db schema-IsApart early in
    let users = there.1.0 in
    let (later, e, current, grows) =
      ensure_columns-IsThere added_columns schema created ((users.0, users.1), tt) there in
    (
      later,
      e,
      current,
      λ name cs old. grows name cs (find-create_tables_kept schema name cs db old),
      ap (ensure_columns added_columns) (create_tables-there schema later current)
          ∙ current-sessions_from later current,
    )
