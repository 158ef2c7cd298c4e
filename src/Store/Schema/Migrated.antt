-- ===== src/Store/Schema/Migrated.antt =====
-- What CREATE TABLE IF NOT EXISTS of internal/store/store.go makes of a database of an earlier version.
use quicksurvey.Base.{
  ◌⊎◌, ◌≡◌, refl, ◌∙◌, sym, subst, All-mono, inl, inr, if◌then◌else◌, Bool, true, false, ◌&&◌, ◌||◌,
  Bool-cases, Option, none, some, List, [], ◌∷◌, All, any, Text, same, arith,
}
use quicksurvey.Store.Schema.{Table, create_table, create_tables, Added}

-- The columns of a table that is there.
unfoldable pub find_table : Text → List Table → Option (List Text)
find_table name [] = none
find_table name (x ∷ xs) = if same x.name name then some x.columns else find_table name xs

abbrev pub has_column : Text → List Text → Bool
has_column c cs = any (λ d. same d c) cs

-- Columns that `ads` adds to a table.
abbrev pub is_added : List Added → Text → Text → Bool
is_added ads name c = any (λ (a : Added). same a.table name && same a.column c) ads

-- Columns that are those of a table, but for such as are added.
abbrev pub Covers : List Added → Table → List Text → Type 0
Covers ads t cs = All (λ c. (has_column c cs || is_added ads t.name c) ≡ true) t.columns

-- A table is there, with its columns, but for such as are added.
abbrev pub IsThere : List Added → List Table → Table → Type 0
IsThere ads db t = (cs : List Text) × (find_table t.name db ≡ some cs) × Covers ads t cs

-- A table, if it is there, has its columns, but for such as are added.
abbrev pub IsEarly : List Added → List Table → Table → Type 0
IsEarly ads db t = (cs : List Text) → find_table t.name db ≡ some cs → Covers ads t cs

-- Names that are all different.
abbrev pub IsApart : List Table → Type 0
IsApart [] = Unit {0}
IsApart (t ∷ ts) = All (λ x. same t.name x.name ≡ false) ts × IsApart ts

-- Every table keeps its columns.
abbrev pub Widens : (before later : List Table) → Type 0
Widens before later =
    (name : Text) (cs : List Text)
    → find_table name before ≡ some cs
    → (ds : List Text) × (find_table name later ≡ some ds)
      × ((c : Text) → has_column c cs ≡ true → has_column c ds ≡ true)

find-create_table_same :
    (t : Table) (db : List Table)
    → (cs : List Text) × (find_table t.name (create_table t db) ≡ some cs)
      × ((find_table t.name db ≡ some cs) ⊎ (cs ≡ t.columns))
unfolding find_table create_table
find-create_table_same t [] = (t.columns, ground arith, inr refl)
find-create_table_same t (x ∷ xs) =
    let (cs, e, from) = find-create_table_same t xs in
    elim (Bool-cases (same x.name t.name)) [
      | inl hit ↦ (x.columns, ground arith, inl (ground arith))
      | inr miss ↦ (
        cs,
        ground (arith, e),
        elim from [ inl old ↦ inl (ground (arith, old)) | inr new ↦ inr new ],
      )
    ]

find-create_table_other :
    (t : Table) (name : Text) (db : List Table)
    → same t.name name ≡ false
    → find_table name (create_table t db) ≡ find_table name db
unfolding find_table create_table
find-create_table_other t name [] other = ground arith
find-create_table_other t name (x ∷ xs) other =
    ground (arith, find-create_table_other t name xs other)

find-create_table_kept :
    (t : Table) (name : Text) (cs : List Text) (db : List Table)
    → find_table name db ≡ some cs
    → find_table name (create_table t db) ≡ some cs
unfolding find_table create_table
find-create_table_kept t name cs [] found = absurd (ground arith)
find-create_table_kept t name cs (x ∷ xs) found = elim (Bool-cases (same x.name name)) [
  | inl hit ↦ ground arith
  | inr miss ↦ ground (arith, find-create_table_kept t name cs xs (ground arith))
]

pub find-create_tables_kept :
    (ts : List Table) (name : Text) (cs : List Text) (db : List Table)
    → find_table name db ≡ some cs
    → find_table name (create_tables ts db) ≡ some cs
unfolding create_tables
find-create_tables_kept [] name cs db found = found
find-create_tables_kept (t ∷ ts) name cs db found =
    find-create_tables_kept ts name cs (create_table t db)
      (find-create_table_kept t name cs db found)

has_self : (cs : List Text) → All (λ c. has_column c cs ≡ true) cs
unfolding any
has_self [] = tt
has_self (c ∷ cs) = (
  ground arith,
  All-mono (λ d. has_column d cs ≡ true) (λ d. has_column d (c ∷ cs) ≡ true) cs
      (λ d h. ground (arith, h)) (has_self cs),
)

Covers-own : (ads : List Added) (t : Table) → Covers ads t t.columns
Covers-own ads t =
    All-mono (λ c. has_column c t.columns ≡ true)
      (λ c. (has_column c t.columns || is_added ads t.name c) ≡ true) t.columns
      (λ c h. ground (arith, h)) (has_self t.columns)

module _ (ads : List Added) where
  IsThere-create_table :
      (t : Table) (db : List Table) → IsEarly ads db t → IsThere ads (create_table t db) t
  IsThere-create_table t db early =
      let (cs, e, from) = find-create_table_same t db in
      (
        cs,
        e,
        elim from [
          | inl old ↦ early cs old
          | inr new ↦ subst (Covers ads t) (sym new) (Covers-own ads t)
        ],
      )

  IsThere-kept :
      (ts : List Table) (t : Table) (db : List Table)
      → IsThere ads db t
      → IsThere ads (create_tables ts db) t
  IsThere-kept ts t db (cs, e, covers) = (cs, find-create_tables_kept ts t.name cs db e, covers)

  IsEarly-rest :
      (t : Table) (ts : List Table) (db : List Table)
      → All (λ x. same t.name x.name ≡ false) ts
      → All (IsEarly ads db) ts
      → All (IsEarly ads (create_table t db)) ts
  IsEarly-rest t [] db apart early = tt
  IsEarly-rest t (x ∷ ts) db (other, apart) (first, early) = (
    λ cs e. first cs (sym (find-create_table_other t x.name db other) ∙ e),
    IsEarly-rest t ts db apart early,
  )

  pub create_tables-IsThere :
      (ts : List Table) (db : List Table)
      → IsApart ts
      → All (IsEarly ads db) ts
      → All (IsThere ads (create_tables ts db)) ts
  unfolding create_tables
  create_tables-IsThere [] db apart early = tt
  create_tables-IsThere (t ∷ ts) db (others, apart) (first, early) = (
    IsThere-kept ts t (create_table t db) (IsThere-create_table t db first),
    create_tables-IsThere ts (create_table t db) apart (IsEarly-rest t ts db others early),
  )
