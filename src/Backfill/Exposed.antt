-- ===== src/Backfill/Exposed.antt =====
-- What `backfillSeen` of internal/store/store.go leaves in `seen`, against the stored choices.
use quicksurvey.Base.{
  All-mono, ◌≡◌, refl, sym, subst, true, false, List, [], ◌∷◌, All, Text, same, same_refl,
  text_discrete, arith,
}
use quicksurvey.Tables.{Tables, OptionRow, ResponseRow, Mark}
use quicksurvey.Response.{has}
use quicksurvey.Response.Save.{load_ids}
use quicksurvey.Response.Stored.{has-load_ids, has-insert_or_ignore}
use quicksurvey.Backfill.{
  Meta, exposed, backfill_rows, backfill_seen_for_survey, survey_ids_after, backfill_surveys,
  backfill_seen,
}

-- A choice of the response that names an option of its survey is among what it has seen.
abbrev pub IsExposed : Tables → ResponseRow → OptionRow → Type 0
IsExposed db r o =
    same o.survey_id r.survey_id ≡ true
    → has o.option.id (load_ids db.choices r.id) ≡ true
    → has o.option.id (load_ids db.seen r.id) ≡ true

pub All-both {ℓ κ ι} :
    {A : Type ℓ} (P : A → Type κ) (Q : A → Type ι) (xs : List A)
    → All P xs
    → All Q xs
    → All (λ x. P x × Q x) xs
All-both P Q [] h k = tt
All-both P Q (x ∷ xs) h k = ((h.0, k.0), All-both P Q xs h.1 k.1)

pub has-exposed :
    (choices : List Mark) (r : ResponseRow) (os : List OptionRow)
    → All
        (λ (o : OptionRow).
          same o.survey_id r.survey_id ≡ true
          → has o.option.id (load_ids choices r.id) ≡ true
          → has o.option.id (exposed choices r os) ≡ true)
        os
unfolding exposed has
has-exposed choices r [] = tt
has-exposed choices r (o ∷ os) = (
  λ own chosen. ground (arith, has-load_ids choices r.id o.option.id, same_refl o.option.id),
  All-mono _ _ os (λ p f own chosen. ground (arith, f own chosen)) (has-exposed choices r os),
)

module _ (choices : List Mark) (options : List OptionRow) where
  -- The response has been given all that it is to be given.
  abbrev pub Given : List Mark → ResponseRow → Type 0
  Given seen r =
      (id : Text) → has id (exposed choices r options) ≡ true → has id (load_ids seen r.id) ≡ true

  abbrev pub Grows : List Mark → List Mark → Type 0
  Grows seen seen' =
      (rid id : Text) → has id (load_ids seen rid) ≡ true → has id (load_ids seen' rid) ≡ true

  pub backfill_rows-Grows :
      (sid : Text) (rs : List ResponseRow) (seen : List Mark)
      → Grows seen (backfill_rows choices options sid rs seen)
  unfolding backfill_rows
  backfill_rows-Grows sid [] seen rid id h = h
  backfill_rows-Grows sid (r ∷ rs) seen rid id h =
      backfill_rows-Grows sid rs _ rid id
        (ground (arith, has-insert_or_ignore r.id (exposed choices r options) seen rid id))

  pub backfill_rows-Given :
      (sid : Text) (rs : List ResponseRow) (seen : List Mark)
      → All
          (λ (r : ResponseRow).
            same r.survey_id sid ≡ true → Given (backfill_rows choices options sid rs seen) r)
          rs
  unfolding backfill_rows
  backfill_rows-Given sid [] seen = tt
  backfill_rows-Given sid (r ∷ rs) seen = (
    λ own id h. backfill_rows-Grows sid rs _ r.id id (
        rw own (
          ground (
            arith,
            has-insert_or_ignore r.id (exposed choices r options) seen r.id id,
            same_refl r.id,
          ))),
    backfill_rows-Given sid rs _,
  )

-- What a run over some surveys does to the tables.
record Filled (db db' : Tables) (ids : List Text) : Type 0 where
  surveys : db'.surveys ≡ db.surveys
  options : db'.options ≡ db.options
  responses : db'.responses ≡ db.responses
  choices : db'.choices ≡ db.choices
  grows : Grows db.choices db.options db.seen db'.seen
  given :
      All
        (λ (r : ResponseRow). has r.survey_id ids ≡ true → Given db.choices db.options db'.seen r)
        db.responses

backfill_surveys-Filled :
    (ids : List Text) (db : Tables) (meta : Meta)
    → meta.done ≡ false
    → Filled db (backfill_surveys db meta ids).0 ids
      × ((backfill_surveys db meta ids).1.done ≡ true)
unfolding backfill_surveys backfill_seen_for_survey has
backfill_surveys-Filled [] db meta h = (
  record {
    surveys = refl;
    options = refl;
    responses = refl;
    choices = refl;
    grows = λ rid id k. k;
    given =
        All-mono (λ _. Unit {0}) _ db.responses (λ r _ k. absurd (ground arith))
          (all_unit db.responses);
  },
  refl,
)
  where
    all_unit : (rs : List ResponseRow) → All (λ _. Unit {0}) rs
    all_unit [] = tt
    all_unit (r ∷ rs) = (tt, all_unit rs)
backfill_surveys-Filled (sid ∷ ids) db meta h =
    let seen1 = backfill_rows db.choices db.options sid db.responses db.seen in
    let db1 : Tables = record db { seen = seen1 } in
    let meta1 : Meta = record meta { through = sid } in
    let (f, finished) = backfill_surveys-Filled ids db1 meta1 h in
    let firsts = backfill_rows-Given db.choices db.options sid db.responses db.seen in
    let step : backfill_surveys db meta (sid ∷ ids) ≡ backfill_surveys db1 meta1 ids =
      ground arith in
    subst (λ (out : Tables × Meta). Filled db out.0 (sid ∷ ids) × (out.1.done ≡ true)) (sym step)
      (
        record {
          surveys = f.surveys;
          options = f.options;
          responses = f.responses;
          choices = f.choices;
          grows = λ rid id k.
              f.grows rid id
                (backfill_rows-Grows db.choices db.options sid db.responses db.seen rid id k);
          given =
              All-mono _ _ db.responses
                (λ r p k id e. elim (text_discrete sid r.survey_id) [
                  | yes own ↦
                      f.grows r.id id
                        (p.0 (let q : same r.survey_id sid ≡ true = ground arith in q) id e)
                  | no other ↦ p.1 (ground arith) id e
                ])
                (All-both _ _ db.responses firsts f.given);
        },
        finished,
      )

-- The backfill, from wherever an earlier one was interrupted, completes, changes nothing but `seen`,
-- takes nothing from it, and leaves every choice that a response to one of the surveys still to do
-- holds, of an option of its survey, among what the response has seen: no such option can come out
-- of it with more votes than exposures.
pub backfill_seen-IsExposed :
    (db : Tables) (meta : Meta)
    → meta.done ≡ false
    → let out = backfill_seen db meta in
      (out.1.done ≡ true)
      × (out.0 ≡ record db { seen = out.0.seen })
      × ((rid id : Text)
          → has id (load_ids db.seen rid) ≡ true
          → has id (load_ids out.0.seen rid) ≡ true)
      × All
          (λ (r : ResponseRow).
            has r.survey_id (survey_ids_after db meta.through) ≡ true
            → All (IsExposed out.0 r) db.options)
          db.responses
unfolding backfill_seen
backfill_seen-IsExposed db meta h =
    let ids = survey_ids_after db meta.through in
    let (f, finished) = backfill_surveys-Filled ids db meta h in
    let run : backfill_seen db meta ≡ backfill_surveys db meta ids = ground arith in
    subst
      (λ (out : Tables × Meta).
        (out.1.done ≡ true)
        × (out.0 ≡ record db { seen = out.0.seen })
        × Grows db.choices db.options db.seen out.0.seen
        × All (λ (r : ResponseRow). has r.survey_id ids ≡ true → All (IsExposed out.0 r) db.options)
            db.responses)
      (sym run)
      (
        finished,
        ground (arith, f.surveys, f.options, f.responses, f.choices),
        f.grows,
        All-mono _ _ db.responses
            (λ r given due.
              All-mono _ _ db.options
                (λ o found own chosen. given due o.option.id (
                  found own
                    (subst (λ ms. has o.option.id (load_ids ms r.id) ≡ true) f.choices chosen)))
                (has-exposed db.choices r db.options))
            f.given,
      )
