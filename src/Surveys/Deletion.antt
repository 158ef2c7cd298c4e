-- ===== src/Surveys/Deletion.antt =====
-- What `DeleteSurvey` of internal/store/survey.go leaves behind.
use quicksurvey.Base.{
  ◌≡◌, ◌≢◌, refl, inl, inr, Bool, not, Option-cases, none, some, List, [], ◌∷◌, filter, Text, same,
  text_discrete, arith, ok,
}
use quicksurvey.Survey.{Survey}
use quicksurvey.Tables.{Tables, OptionRow, ResponseRow, find_survey, load_options, load_survey}
use quicksurvey.Response.Save.{load_response, find_row}
use quicksurvey.Surveys.{delete_survey}

find_deleted :
    (id : Text) (svs : List Survey) → find_survey id (filter (λ sv. not (same sv.id id)) svs) ≡ none
unfolding find_survey filter
find_deleted id [] = refl
find_deleted id (sv ∷ svs) = ground (arith, find_deleted id svs)

find_kept :
    (id other : Text) (svs : List Survey)
    → other ≢ id
    → find_survey other (filter (λ sv. not (same sv.id id)) svs) ≡ find_survey other svs
unfolding find_survey filter
find_kept id other [] h = refl
find_kept id other (sv ∷ svs) h = ground (arith, find_kept id other svs h)

found_id : (id : Text) (svs : List Survey) (sv : Survey) → find_survey id svs ≡ some sv → sv.id ≡ id
unfolding find_survey
found_id id [] sv h = absurd (ground arith)
found_id id (v ∷ svs) sv h = elim (text_discrete v.id id) [
  | yes e ↦ ground arith
  | no n ↦ found_id id svs sv (ground arith)
]

options_kept :
    (id other : Text) (rows : List OptionRow)
    → other ≢ id
    → filter (λ r. same r.survey_id other) (filter (λ r. not (same r.survey_id id)) rows)
      ≡ filter (λ r. same r.survey_id other) rows
unfolding filter
options_kept id other [] h = refl
options_kept id other (r ∷ rows) h = ground (arith, options_kept id other rows h)

row_deleted :
    (id voter : Text) (rows : List ResponseRow)
    → find_row id voter (filter (λ r. not (same r.survey_id id)) rows) ≡ none
unfolding find_row filter
row_deleted id voter [] = refl
row_deleted id voter (r ∷ rows) = ground (arith, row_deleted id voter rows)

-- After a survey was deleted neither it nor an answer to it is found any more, and every other survey
-- is found as it was.
pub delete_survey-gone :
    (db db' : Tables) (id : Text)
    → delete_survey db id ≡ ok db'
    → (load_survey db' id ≡ none)
      × ((voter : Text) (with_seen : Bool) → load_response db' id voter with_seen ≡ none)
      × ((other : Text) → other ≢ id → load_survey db' other ≡ load_survey db other)
unfolding delete_survey
delete_survey-gone db db' id h =
    let surveys_left : db'.surveys ≡ filter (λ sv. not (same sv.id id)) db.surveys = ground arith in
    let options_left : db'.options ≡ filter (λ o. not (same o.survey_id id)) db.options =
      ground arith in
    let rows_left : db'.responses ≡ filter (λ r. not (same r.survey_id id)) db.responses =
      ground arith in
    let gone : find_survey id db'.surveys ≡ none = rw surveys_left (find_deleted id db.surveys) in
    (
      unfold load_survey in rw (gone, load_survey),
      λ voter with_seen.
          let row : find_row id voter db'.responses ≡ none =
            rw rows_left (row_deleted id voter db.responses) in
          unfold load_response in rw (row, load_response),
      λ other apart.
          let same_row : find_survey other db'.surveys ≡ find_survey other db.surveys =
            rw surveys_left (find_kept id other db.surveys apart) in
          elim (Option-cases (find_survey other db.surveys)) [
            | inl absent ↦ unfold load_survey in rw (load_survey, same_row, absent)
            | inr (sv, found) ↦
                let e : sv.id ≡ other = found_id other db.surveys sv found in
                let rows : filter (λ r. same r.survey_id sv.id) db'.options
                    ≡ filter (λ r. same r.survey_id sv.id) db.options =
                  rw (e, options_left) (options_kept id other db.options apart) in
                unfold load_survey load_options in
                rw (load_survey, same_row, found, load_options, rows)
          ],
    )
