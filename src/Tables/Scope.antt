-- ===== src/Tables/Scope.antt =====
-- What `saveSurvey` of internal/store/survey.go does to the rows of other surveys.
use quicksurvey.Base.{
  ℕ, suc, ◌≡◌, refl, ◌∙◌, ◌≢◌, List, [], ◌∷◌, arith, filter, Text, same, ok, ap, sym, subst,
  Option-cases, text_discrete, some, inl, inr,
}
use quicksurvey.Survey.{SurveyOption, Survey}
use quicksurvey.Tables.{
  OptionRow, Tables, find_survey, load_options, load_survey, stamp, upsert_survey, upsert_option,
  upsert_options, save_survey,
}

filter-upsert_option :
    (sid other : Text) (i : ℕ) (o : SurveyOption) (rows : List OptionRow)
    → other ≢ sid
    → filter (λ r. same r.survey_id other) (upsert_option sid i o rows)
      ≡ filter (λ r. same r.survey_id other) rows
unfolding filter upsert_option
filter-upsert_option sid other i o [] h = ground arith
filter-upsert_option sid other i o (r ∷ rs) h =
    ground (arith, filter-upsert_option sid other i o rs h)

filter-upsert_options :
    (sid other : Text) (i : ℕ) (os : List SurveyOption) (rows : List OptionRow)
    → other ≢ sid
    → filter (λ r. same r.survey_id other) (upsert_options sid i os rows)
      ≡ filter (λ r. same r.survey_id other) rows
unfolding upsert_options
filter-upsert_options sid other i [] rows h = refl
filter-upsert_options sid other i (o ∷ os) rows h =
    filter-upsert_options sid other (suc i) os (upsert_option sid i o rows) h
    ∙ filter-upsert_option sid other i o rows h

find-upsert_survey_ne :
    (other : Text) (sv : Survey) (rs : List Survey)
    → other ≢ sv.id
    → find_survey other (upsert_survey sv rs) ≡ find_survey other rs
unfolding find_survey upsert_survey
find-upsert_survey_ne other sv [] h = ground arith
find-upsert_survey_ne other sv (r ∷ rs) h = ground (arith, find-upsert_survey_ne other sv rs h)

pub id-stamp : (sv : Survey) (now : ℕ) → (stamp sv now).id ≡ sv.id
unfolding stamp
id-stamp sv now = ground arith

pub id-find_survey :
    (id : Text) (rs : List Survey) (sv : Survey) → find_survey id rs ≡ some sv → sv.id ≡ id
unfolding find_survey
id-find_survey id [] sv h = ground arith
id-find_survey id (r ∷ rs) sv h = ground (arith, id-find_survey id rs sv)

pub tables-save_survey :
    (db db' : Tables) (sv : Survey) (now : ℕ)
    → save_survey db sv now ≡ ok db'
    → db' ≡ record db {
      surveys = upsert_survey (stamp sv now) db.surveys;
      options = upsert_options sv.id 0 sv.options db.options;
    }
unfolding save_survey
tables-save_survey db db' sv now saved = ground arith

load_options-upsert_options :
    (sid other : Text) (os : List SurveyOption) (rows : List OptionRow)
    → other ≢ sid
    → load_options (upsert_options sid 0 os rows) other ≡ load_options rows other
unfolding load_options
load_options-upsert_options sid other os rows h = rw (filter-upsert_options sid other 0 os rows h)

-- Saving a survey changes nothing that is loaded for another one, whatever ids its options have.
pub load-save_survey_ne :
    (db db' : Tables) (sv : Survey) (now : ℕ) (other : Text)
    → other ≢ sv.id
    → save_survey db sv now ≡ ok db'
    → load_survey db' other ≡ load_survey db other
unfolding load_survey
load-save_survey_ne db db' sv now other h saved =
    let apart =
      find-upsert_survey_ne other (stamp sv now) db.surveys (λ e. h (e ∙ id-stamp sv now)) in
    rw (tables-save_survey db db' sv now saved, load_survey, apart)
      (elim (Option-cases (find_survey other db.surveys)) [
        | inl absent ↦ rw (absent, load_survey)
        | inr (r, found) ↦
            rw (found, load_survey)
              (ap (λ os. some (record r { options = os }))
                (ap (λ (d : Tables). load_options d.options r.id)
                    (tables-save_survey db db' sv now saved)
                  ∙ load_options-upsert_options sv.id r.id sv.options db.options
                      (λ e. h (sym (id-find_survey other db.surveys r found) ∙ e))))
      ])

find-upsert_survey :
    (sv : Survey) (rs : List Survey)
    → (c : ℕ) × (find_survey sv.id (upsert_survey sv rs)
        ≡ some (record sv { options = []; created = c }))
unfolding find_survey upsert_survey
find-upsert_survey sv [] = (sv.created, ground arith)
find-upsert_survey sv (r ∷ rs) = elim (text_discrete r.id sv.id) [
  | yes here ↦ (r.created, ground arith)
  | no there ↦ let (c, found) = find-upsert_survey sv rs in (c, ground arith)
]

-- The row of a survey that was just saved: the stamped survey, except for the time of creation.
pub find-save_survey :
    (db db' : Tables) (sv : Survey) (now : ℕ)
    → save_survey db sv now ≡ ok db'
    → (c : ℕ) × (find_survey sv.id db'.surveys
        ≡ some (record (stamp sv now) { options = []; created = c }))
find-save_survey db db' sv now saved =
    let (c, found) = find-upsert_survey (stamp sv now) db.surveys in
    (
      c,
      rw (tables-save_survey db db' sv now saved) (
          subst
            (λ i.
              find_survey i (upsert_survey (stamp sv now) db.surveys)
              ≡ some (record (stamp sv now) { options = []; created = c }))
            (id-stamp sv now) found),
    )
