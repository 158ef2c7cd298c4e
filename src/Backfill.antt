-- ===== src/Backfill.antt =====
-- `backfillSeen` of internal/store/store.go: seen sets for the answers that are older than the table
-- `seen`, one survey to a transaction.
--
-- `Meta` holds the two keys of the table `meta` that it uses: whether 'seen_backfilled' is there, and
-- the value of 'seen_backfilled_through', empty where there is none.
pub mod Exposed
pub mod Workers
use quicksurvey.Base.{
  ℕ, if◌then◌else◌, Bool, true, false, not, ◌&&◌, ◌||◌, Option, none, some, List, [], ◌∷◌, map,
  filter, any, sort_by, Text, same,
}
use quicksurvey.Survey.{SurveyOption, Survey, OptionStatus, pending, rejected}
use quicksurvey.Tables.{Tables, OptionRow, ResponseRow, Mark}
use quicksurvey.Response.Save.{is_mark, insert_or_ignore}
use quicksurvey.Tally.{text_le}

pub record Meta : Type 0 where
  pub done : Bool
  pub through : Text

-- o.status NOT IN ('pending', 'rejected')
abbrev pub was_on_ballot : OptionStatus → Bool
was_on_ballot pending = false
was_on_ballot rejected = false
was_on_ballot _ = true

-- The condition of the INSERT … SELECT.
abbrev pub was_shown : List Mark → ResponseRow → OptionRow → Bool
was_shown choices r o = was_on_ballot o.option.status || any (is_mark r.id o.option.id) choices

-- The ids that one response is given.
unfoldable pub exposed : List Mark → ResponseRow → List OptionRow → List Text
exposed choices r [] = []
exposed choices r (o ∷ os) =
    let rest = exposed choices r os in
    if same o.survey_id r.survey_id && was_shown choices r o then o.option.id ∷ rest else rest

-- INSERT OR IGNORE INTO seen … for the rows of `responses` that are left.
unfoldable pub backfill_rows :
    List Mark → List OptionRow → (sid : Text) → List ResponseRow → List Mark → List Mark
unfolding exposed
backfill_rows choices options sid [] seen = seen
backfill_rows choices options sid (r ∷ rs) seen =
    let next =
      (if same r.survey_id sid
        then insert_or_ignore r.id (exposed choices r options) seen
        else seen) in
    backfill_rows choices options sid rs next

-- `none` is `errBackfillDone`.
unfoldable pub backfill_seen_for_survey : Tables → Meta → Text → Option (Tables × Meta)
backfill_seen_for_survey db meta sid =
    if meta.done
    then none
    else some (
      record db { seen = backfill_rows db.choices db.options sid db.responses db.seen },
      record meta { through = sid },
    )

-- SELECT id FROM surveys WHERE id > ? ORDER BY id
unfoldable pub survey_ids_after : Tables → Text → List Text
survey_ids_after db through =
    sort_by text_le
      (filter (λ id. not (text_le id through)) (map (λ (sv : Survey). sv.id) db.surveys))

-- The loop, and the transaction after it.
unfoldable pub backfill_surveys : Tables → Meta → List Text → Tables × Meta
backfill_surveys db meta [] = (db, record { done = true; through = [] })
backfill_surveys db meta (id ∷ ids) = elim (backfill_seen_for_survey db meta id) [
  | none ↦ (db, meta)
  | some (next, meta') ↦ backfill_surveys next meta' ids
]

unfoldable pub backfill_seen : Tables → Meta → Tables × Meta
backfill_seen db meta =
    let rest = backfill_surveys db meta (survey_ids_after db meta.through) in
    if meta.done then (db, meta) else rest
