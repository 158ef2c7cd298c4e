-- ===== src/Tally/Cache.antt =====
-- The cache of `Store.Tally` in internal/store/response.go, with writers and readers interleaved.
--
-- A writer first commits and then bumps the counter (`Store.tx`); a reader loads the counter, looks
-- for a cached tally under the lock, and otherwise computes one by five queries, each of which may see
-- a newer database than the one before, and stores it under the lock. Each of these is one step, and a
-- writer may commit or bump between any two. The joins of `attach` with `responses` drop nothing, since
-- a choice or an exposure goes when its response does. Only writers of this process are modelled.
pub mod History
pub mod Served
pub mod Current
use quicksurvey.Base.{
  ℕ, zero, suc, ◌+◌, ◌≤◌, ◌==◌, ◌≡◌, if◌then◌else◌, Option, none, some, List, [], ◌∷◌, ◌++◌, map,
  filter, sort_by, Text, same,
}
use quicksurvey.Survey.{Survey}
use quicksurvey.Tables.{Tables, ResponseRow, find_survey, load_options}
use quicksurvey.Response.{Response}
use quicksurvey.Response.Save.{load_ids}
use quicksurvey.Tally.{TallyRow, older, tally_of}

abbrev pub Tallied : Type 0
Tallied = List TallyRow × ℕ

-- `tallyGen` and `tallyCache`.
pub record Cached : Type 0 where
  pub tally_gen : ℕ
  pub entries : List (Text × Tallied)

unfoldable pub lookup : Text → List (Text × Tallied) → Option Tallied
lookup key [] = none
lookup key ((k, v) ∷ es) = if same k key then some v else lookup key es

-- The first locked section of `Tally`, for a reader that has loaded `gen`.
unfoldable pub hit : Cached → ℕ → Text → Option Tallied
hit c gen key = if c.tally_gen == gen then lookup key c.entries else none

-- The second locked section, for a reader that had loaded `gen` and now reads `current`.
unfoldable pub store_tally : Cached → (gen current : ℕ) → Text → Tallied → Cached
store_tally c gen current key v =
    let kept = (if c.tally_gen == gen then c else record { tally_gen = gen; entries = [] }) in
    if current == gen then record { tally_gen = gen; entries = (key, v) ∷ kept.entries } else kept

-- How far a reader is: it has loaded the counter, has found nothing in the cache, has read the row of
-- the survey, its options, the rows of its responses, their choices, and what they have seen, from
-- which it makes the tally; or it has returned a tally.
pub data Progress : Type 0 where
  loaded missed : Progress
  has_row has_survey : Survey → Progress
  has_rows : Survey → List ResponseRow → Progress
  has_choices : Survey → List Response → Progress
  has_tally answered : Tallied → Progress

pub record Reader : Type 0 where
  pub key : Text
  pub gen : ℕ
  pub progress : Progress

unfoldable pub look : Cached → (gen : ℕ) → (key : Text) → Progress
unfolding hit
look c gen key = elim (hit c gen key) [ none ↦ missed | some v ↦ answered v ]

-- SELECT … FROM responses WHERE survey_id = ? ORDER BY created, id
unfoldable pub rows_of : Tables → Text → List ResponseRow
rows_of db sid = sort_by older (filter (λ r. same r.survey_id sid) db.responses)

-- The first `attach`, and the second.
unfoldable pub with_choices : Tables → ResponseRow → Response
with_choices db r = record {
  id = r.id;
  voter = r.voter;
  choices = load_ids db.choices r.id;
  seen = [];
  comment = r.comment;
  created = r.created;
  updated = r.updated;
}

unfoldable pub with_seen : Tables → Response → Response
with_seen db r = record r { seen = load_ids db.seen r.id }

-- The next query of a reader, on the database as it is then.
unfoldable pub query : Tables → (key : Text) → Progress → Progress
unfolding rows_of with_choices with_seen
query db key missed = elim (find_survey key db.surveys) [
  | none ↦ has_tally ([], 0)
  | some sv ↦ has_row sv
]
query db key (has_row sv) = has_survey (record sv { options = load_options db.options sv.id })
query db key (has_survey sv) = has_rows sv (rows_of db key)
query db key (has_rows sv rows) = has_choices sv (map (with_choices db) rows)
query db key (has_choices sv rs) = has_tally (tally_of sv (map (with_seen db) rs))
query db key loaded = loaded
query db key (has_tally t) = has_tally t
query db key (answered t) = answered t

-- `in_flight` counts the transactions that have committed and not yet bumped the counter. `log` is the
-- history, which no step reads: the database after each number of commits, the latest first.
pub record System : Type 0 where
  pub db : Tables
  pub gen : ℕ
  pub in_flight : ℕ
  pub cached : Cached
  pub readers : List Reader
  pub log : List (ℕ × Tables)

pub data Step (s : System) : System → Type 0 where
  commits :
      (db' : Tables)
      → Step s (record s {
        db = db';
        in_flight = suc s.in_flight;
        log = (s.gen + suc s.in_flight, db') ∷ s.log;
      })
  bumps : (n : ℕ) → s.in_flight ≡ suc n → Step s (record s { gen = suc s.gen; in_flight = n })
  begins :
      (key : Text)
      → Step s
          (record s { readers = record { key = key; gen = s.gen; progress = loaded } ∷ s.readers })
  looks :
      (before after : List Reader) (r : Reader)
      → s.readers ≡ before ++ (r ∷ after)
      → r.progress ≡ loaded
      → Step s (record s {
        readers = before ++ (record r { progress = look s.cached r.gen r.key } ∷ after);
      })
  queries :
      (before after : List Reader) (r : Reader)
      → s.readers ≡ before ++ (r ∷ after)
      → Step s (record s {
        readers = before ++ (record r { progress = query s.db r.key r.progress } ∷ after);
      })
  stores :
      (before after : List Reader) (r : Reader) (t : Tallied)
      → s.readers ≡ before ++ (r ∷ after)
      → r.progress ≡ has_tally t
      → Step s (record s {
        readers = before ++ (record r { progress = answered t } ∷ after);
        cached = store_tally s.cached r.gen s.gen r.key t;
      })

pub data Reach (s : System) : System → Type 0 where
  here : Reach s s
  next : {t u : System} → Reach s t → Step t u → Reach s u

-- A process that has just opened the database.
abbrev pub started : Tables → System
started db = record {
  db = db;
  gen = 0;
  in_flight = 0;
  cached = record { tally_gen = 0; entries = [] };
  readers = [];
  log = (0, db) ∷ [];
}
