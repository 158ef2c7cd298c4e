-- ===== src/Backfill/Workers.antt =====
-- Processes that run `backfillSeen` of internal/store/store.go on one database at a time. Each
-- transaction, and each read outside one, is one step; a process may stop at any of them.
pub mod Finished
pub mod Marked
use quicksurvey.Base.{◌≡◌, true, some, List, [], ◌∷◌, ◌++◌, Text}
use quicksurvey.Tables.{Tables}
use quicksurvey.Backfill.{Meta, backfill_seen_for_survey, survey_ids_after}

-- A process has read how far the work is, or has surveys left to do.
pub data Worker : Type 0 where
  resuming : Text → Worker
  listed : List Text → Worker

pub record Upgrade : Type 0 where
  pub db : Tables
  pub meta : Meta
  pub workers : List Worker

-- A process that read the mark of completion too early may go on; and once the mark is there, a
-- process serves, and the tables change.
pub data UpgradeStep (s : Upgrade) : Upgrade → Type 0 where
  resumes : UpgradeStep s (record s { workers = resuming s.meta.through ∷ s.workers })
  lists :
      (before after : List Worker) (t : Text)
      → s.workers ≡ before ++ (resuming t ∷ after)
      → UpgradeStep s (record s { workers = before ++ (listed (survey_ids_after s.db t) ∷ after) })
  upgrades :
      (before after : List Worker) (id : Text) (ids : List Text) (db : Tables) (meta : Meta)
      → s.workers ≡ before ++ (listed (id ∷ ids) ∷ after)
      → backfill_seen_for_survey s.db s.meta id ≡ some (db, meta)
      → UpgradeStep s (record { db = db; meta = meta; workers = before ++ (listed ids ∷ after) })
  finishes :
      (before after : List Worker)
      → s.workers ≡ before ++ (listed [] ∷ after)
      → UpgradeStep s
          (record s { meta = record { done = true; through = [] }; workers = before ++ after })
  stops :
      (before after : List Worker) (w : Worker)
      → s.workers ≡ before ++ (w ∷ after)
      → UpgradeStep s (record s { workers = before ++ after })
  serves : (db : Tables) → s.meta.done ≡ true → UpgradeStep s (record s { db = db })

pub data UpgradeReach (s : Upgrade) : Upgrade → Type 0 where
  here : UpgradeReach s s
  next : {t u : Upgrade} → UpgradeReach s t → UpgradeStep t u → UpgradeReach s u
