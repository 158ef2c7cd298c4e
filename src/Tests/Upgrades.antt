-- ===== src/Tests/Upgrades.antt =====
-- Two processes that backfill the database of Tests/Samples, without its seen sets; one is interrupted.
use quicksurvey.Base.{
  ◌≡◌, refl, true, false, filter, sort_by, any, [], ◌∷◌, All, Text, codes, text_discrete, arith,
}
use quicksurvey.Tables.{Tables, ResponseRow}
use quicksurvey.Response.{has}
use quicksurvey.Response.Save.{load_ids, insert_or_ignore}
use quicksurvey.Tally.{text_le}
use quicksurvey.Backfill.{Meta, exposed, backfill_rows, backfill_seen_for_survey, survey_ids_after}
use quicksurvey.Backfill.Exposed.{IsExposed}
use quicksurvey.Backfill.Workers.{
  resuming, listed, Upgrade, UpgradeReach, here, next, resumes, lists, upgrades, finishes, stops,
}
use quicksurvey.Backfill.Workers.Finished.{survey_ids, IsHandled}
use quicksurvey.Backfill.Workers.Marked.{UpgradeReach-marked}
use quicksurvey.Tests.Samples.{tables}

abbrev bare_tables : Tables
bare_tables = record tables { seen = [] }

abbrev todo : Meta
todo = record { done = false; through = [] }

abbrev filled : Tables
filled = record bare_tables {
  seen =
      backfill_rows bare_tables.choices bare_tables.options (codes "s1") bare_tables.responses [];
}

abbrev at_end : Upgrade
at_end = record {
  db = filled;
  meta = record { done = false; through = codes "s1" };
  workers = listed [] ∷ [];
}

none-IsHandled :
    (sid : Text)
    → has sid (survey_ids bare_tables) ≡ true
    → text_le sid [] ≡ true
    → IsHandled bare_tables bare_tables.seen sid
unfolding has text_le text_discrete
none-IsHandled [] there le = absurd (ground arith)
none-IsHandled (x ∷ xs) there le = absurd (ground arith)

ran : UpgradeReach (record { db = bare_tables; meta = todo; workers = [] }) at_end
unfolding survey_ids_after backfill_seen_for_survey filter sort_by text_le
ran =
    next
      (next (next (next (next here resumes) resumes) (lists [] (resuming [] ∷ []) [] refl))
        (stops (listed (codes "s1" ∷ []) ∷ []) [] (resuming []) refl))
      (upgrades [] [] (codes "s1") [] filled (record { done = false; through = codes "s1" }) refl
        refl)

UpgradeReach-marked_example :
    (filled ≡ record bare_tables { seen = filled.seen })
    × ((rid id : Text) → has id (load_ids [] rid) ≡ true → has id (load_ids filled.seen rid) ≡ true)
    × All
        (λ (r : ResponseRow).
          has r.survey_id (survey_ids bare_tables) ≡ true
          → All (IsExposed filled r) bare_tables.options)
        bare_tables.responses
UpgradeReach-marked_example =
    UpgradeReach-marked bare_tables todo at_end
      (record at_end { meta = record { done = true; through = [] }; workers = [] }) none-IsHandled
      ran (finishes [] [] refl) refl refl

shown :
    load_ids filled.seen (codes "r1")
    ≡ codes "tea" ∷ codes "chai" ∷ codes "char" ∷ codes "coffee" ∷ []
unfolding load_ids backfill_rows exposed insert_or_ignore any text_discrete
shown = refl
