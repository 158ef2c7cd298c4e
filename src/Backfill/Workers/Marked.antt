-- ===== src/Backfill/Workers/Marked.antt =====
-- What the database is when the first of several processes marks the backfill of
-- internal/store/store.go as done.
use quicksurvey.Base.{
  ◌≡◌, refl, sym, ap, ◌∙◌, subst, true, false, some, List, [], ◌∷◌, ◌++◌, All, All-mono, Text, same,
  same_refl, arith,
}
use quicksurvey.Tables.{Tables, ResponseRow}
use quicksurvey.Response.{has}
use quicksurvey.Response.Save.{load_ids}
use quicksurvey.Backfill.{Meta, backfill_rows, backfill_seen_for_survey, survey_ids_after}
use quicksurvey.Backfill.Exposed.{IsExposed, Given, Grows, backfill_rows-Grows, has-exposed}
use quicksurvey.Backfill.Workers.{
  Worker, resuming, listed, Upgrade, UpgradeStep, resumes, lists, upgrades, finishes, stops, serves,
  UpgradeReach, here, next,
}
use quicksurvey.Backfill.Workers.Finished.{
  survey_ids, IsHandled, IsThrough, IsLeft, IsLeft-listed, IsLeft-step, IsUnder, replaced, taken,
}

module _ (db : Tables) where
  IsUnder-upgraded :
      (s : Upgrade) (before after : List Worker) (id : Text) (ids : List Text) (db' : Tables)
      (meta : Meta)
      → IsUnder db s
      → s.workers ≡ before ++ (listed (id ∷ ids) ∷ after)
      → backfill_seen_for_survey s.db s.meta id ≡ some (db', meta)
      → IsUnder db (record { db = db'; meta = meta; workers = before ++ (listed ids ∷ after) })
  unfolding backfill_seen_for_survey
  IsUnder-upgraded s before after id ids db' meta under e ran =
      let seen = s.db.seen in
      let later = backfill_rows db.choices db.options id db.responses seen in
      let all = subst (All (IsLeft db seen)) e under.left in
      let (left, through) =
        IsLeft-step db seen id ids (taken db seen before after (listed (id ∷ ids)) all).0 in
      let grows = backfill_rows-Grows db.choices db.options id db.responses seen in
      let made : db'
          ≡ record s.db { seen = backfill_rows s.db.choices s.db.options id s.db.responses seen } =
        ground (arith, ran) in
      let rows : db' ≡ record db { seen = later } =
        made
        ∙ ap
            (λ (d : Tables). record d {
              seen = backfill_rows d.choices d.options id d.responses seen;
            })
            under.rows in
      let marks : db'.seen ≡ later = ap (λ (d : Tables). d.seen) rows in
      let mark : meta.through ≡ id = ground (arith, ran) in
      record {
        rows = rows ∙ ap (λ ms. record db { seen = ms }) (sym marks);
        grows =
            subst (Grows db.choices db.options db.seen) (sym marks)
              (λ rid x h. grows rid x (under.grows rid x h));
        through =
            subst (λ ms. IsThrough db ms meta.through) (sym marks)
              (subst (IsThrough db later) (sym mark) through);
        left =
            subst (λ ms. All (IsLeft db ms) (before ++ (listed ids ∷ after))) (sym marks)
              (replaced db seen later before after (listed (id ∷ ids)) (listed ids) grows all left);
      }

  IsUnder-step :
      (s t : Upgrade) → IsUnder db s → UpgradeStep s t → t.meta.done ≡ false → IsUnder db t
  unfolding survey_ids_after
  IsUnder-step s t under resumes going = record {
    rows = under.rows;
    grows = under.grows;
    through = under.through;
    left = (under.through, under.left);
  }
  IsUnder-step s t under (lists before after m e) going =
      let all = subst (All (IsLeft db s.db.seen)) e under.left in
      let mine = (taken db s.db.seen before after (resuming m) all).0 in
      let same_list : survey_ids_after s.db m ≡ survey_ids_after db m =
        ap (λ (d : Tables). survey_ids_after d m) under.rows in
      record {
        rows = under.rows;
        grows = under.grows;
        through = under.through;
        left =
            replaced db s.db.seen s.db.seen before after (resuming m)
              (listed (survey_ids_after s.db m)) (λ rid id h. h) all
              (subst (λ ids. IsLeft db s.db.seen (listed ids)) (sym same_list)
                (IsLeft-listed db s.db.seen m mine));
      }
  IsUnder-step s t under (upgrades before after id ids db' meta e ran) going =
      IsUnder-upgraded s before after id ids db' meta under e ran
  IsUnder-step s t under (finishes before after e) going = absurd (ground arith)
  IsUnder-step s t under (stops before after w e) going = record {
    rows = under.rows;
    grows = under.grows;
    through = under.through;
    left = (taken db s.db.seen before after w (subst (All (IsLeft db s.db.seen)) e under.left)).1;
  }
  IsUnder-step s t under (serves db' done) going = absurd (ground (arith, done, going))

  -- The mark stays.
  going-before : (s t : Upgrade) → UpgradeStep s t → t.meta.done ≡ false → s.meta.done ≡ false
  unfolding backfill_seen_for_survey
  going-before s t resumes going = going
  going-before s t (lists before after m e) going = going
  going-before s t (upgrades before after id ids db' meta e ran) going = ground (arith, ran)
  going-before s t (finishes before after e) going = absurd (ground arith)
  going-before s t (stops before after w e) going = going
  going-before s t (serves db' done) going = going

  IsUnder-reach :
      (s t : Upgrade) → IsUnder db s → UpgradeReach s t → t.meta.done ≡ false → IsUnder db t
  IsUnder-reach s t under here going = under
  IsUnder-reach s t under (next {t = u} reach step) going =
      IsUnder-step u t (IsUnder-reach s u under reach (going-before u t step going)) step going

  -- All the surveys are handled when a process has none left.
  marked :
      (s t : Upgrade)
      → IsUnder db s
      → UpgradeStep s t
      → s.meta.done ≡ false
      → t.meta.done ≡ true
      → (t.db ≡ s.db) × ((sid : Text) → has sid (survey_ids db) ≡ true → IsHandled db s.db.seen sid)
  unfolding backfill_seen_for_survey has
  marked s t under resumes going done = absurd (ground (arith, going, done))
  marked s t under (lists before after m e) going done = absurd (ground (arith, going, done))
  marked s t under (upgrades before after id ids db' meta e ran) going done =
      absurd (ground (arith, ran, going, done))
  marked s t under (finishes before after e) going done =
      let mine =
        (taken db s.db.seen before after (listed [])
          (subst (All (IsLeft db s.db.seen)) e under.left)).0 in
      (refl, λ sid there. mine.1 sid there refl)
  marked s t under (stops before after w e) going done = absurd (ground (arith, going, done))
  marked s t under (serves db' served) going done = absurd (ground (arith, going, served))

-- From the surveys to their responses.
of_surveys :
    (P : ResponseRow → Type 0) (ids : List Text) (rs : List ResponseRow)
    → ((sid : Text) → has sid ids ≡ true → All (λ r. same r.survey_id sid ≡ true → P r) rs)
    → All (λ (r : ResponseRow). has r.survey_id ids ≡ true → P r) rs
of_surveys P ids [] h = tt
of_surveys P ids (r ∷ rs) h = (
  λ there. (h r.survey_id there).0 (same_refl r.survey_id),
  of_surveys P ids rs (λ sid there. (h sid there).1),
)

-- A database that no process is backfilling yet, whose mark of progress, if there is one, is true, is
-- backfilled by any number of processes, which read, work and stop in any order: when one of them
-- marks the backfill as done, nothing but `seen` has changed, nothing was taken from it, and every
-- choice that a response to an existing survey holds, of an option of its survey, is among what the
-- response has seen.
pub UpgradeReach-marked :
    (db : Tables) (meta : Meta) (s t : Upgrade)
    → IsThrough db db.seen meta.through
    → UpgradeReach (record { db = db; meta = meta; workers = [] }) s
    → UpgradeStep s t
    → s.meta.done ≡ false
    → t.meta.done ≡ true
    → (t.db ≡ record db { seen = t.db.seen })
      × ((rid id : Text)
          → has id (load_ids db.seen rid) ≡ true
          → has id (load_ids t.db.seen rid) ≡ true)
      × All
          (λ (r : ResponseRow).
            has r.survey_id (survey_ids db) ≡ true → All (IsExposed t.db r) db.options)
          db.responses
UpgradeReach-marked db meta s t true_mark reach step going done =
    let start : Upgrade = record { db = db; meta = meta; workers = [] } in
    let first : IsUnder db start = record {
      rows = refl;
      grows = λ rid id h. h;
      through = true_mark;
      left = tt;
    } in
    let under = IsUnder-reach db start s first reach going in
    let (same_rows, handled) = marked db s t under step going done in
    let choices : s.db.choices ≡ db.choices = ap (λ (d : Tables). d.choices) under.rows in
    subst
      (λ (later : Tables).
        (later ≡ record db { seen = later.seen })
        × Grows db.choices db.options db.seen later.seen
        × All
            (λ (r : ResponseRow).
              has r.survey_id (survey_ids db) ≡ true → All (IsExposed later r) db.options)
            db.responses)
      (sym same_rows)
      (
        under.rows,
        under.grows,
        All-mono _ _ db.responses
            (λ r given there.
              All-mono _ _ db.options
                (λ o found own chosen. given there o.option.id (
                  found own
                    (subst (λ ms. has o.option.id (load_ids ms r.id) ≡ true) choices chosen)))
                (has-exposed db.choices r db.options))
            (of_surveys (Given db.choices db.options s.db.seen) (survey_ids db) db.responses
              handled),
      )
