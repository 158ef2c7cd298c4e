-- ===== src/Surveys.antt =====
-- The operations of internal/store/survey.go on stored surveys: `CreateSurvey`, `UpdateSurvey`,
-- `DeleteSurvey` and `Surveys`.
--
-- An operation is the body of its transaction. The ids that `newID` draws are arguments.
pub mod Deletion
pub mod Discarded
use quicksurvey.Base.{
  ℕ, leb, if◌then◌else◌, Bool, true, false, not, List, [], ◌∷◌, map, filter, sort_by, Text, codes,
  same, is_empty, trim_space, Result, ok, ◌>>=◌, ◌>>◌, require, or_fail, needs_title, not_found,
}
use quicksurvey.Survey.{SurveyOption, Survey, approved, draft}
use quicksurvey.Survey.Edit.{is_some}
use quicksurvey.Tables.{Tables, find_survey, load_options, load_survey, save_survey, stamp}
use quicksurvey.Response.Save.{cascade}

-- The loop of `CreateSurvey` over the lines, each with the id that would be drawn for it.
unfoldable pub new_options : List (Text × Text) → (now : ℕ) → List SurveyOption
new_options [] now = []
new_options ((fresh, raw) ∷ lines) now =
    let rest = new_options lines now in
    let text = trim_space raw in
    if not (is_empty text)
    then record {
      id = fresh;
      text = text;
      status = approved;
      source = codes "editor";
      merged_into = [];
      created = now;
    }
      ∷ rest
    else rest

unfoldable pub create_survey :
    Tables
    → (title description : Text) → List (Text × Text)
    → (fresh : Text) (now : ℕ) → Result (Survey × Tables)
unfolding new_options
create_survey db raw description lines fresh now = do
  let title = trim_space raw
  require (not (is_empty title)) needs_title
  let sv : Survey = record {
    id = fresh;
    kind = codes "thumbsup";
    title = title;
    description = trim_space description;
    options = new_options lines now;
    state = draft;
    show_results = false;
    allow_write_in = true;
    allow_comment = true;
    no_randomize = false;
    close_at = 0;
    first_opened_at = 0;
    created = now;
    updated = now;
  }
  saved ← save_survey db sv now
  ok (sv, saved)

unfoldable pub update_survey :
    Tables → (id : Text) → (Survey → Result Survey) → (now : ℕ) → Result (Survey × Tables)
update_survey db id fn now = do
  sv ← or_fail (load_survey db id) not_found
  edited ← fn sv
  let out : Survey = record edited { updated = now }
  saved ← save_survey db out now
  ok (stamp out now, saved)

-- DELETE FROM surveys WHERE id = ?, with all that cascades from it.
unfoldable pub delete_survey : Tables → (id : Text) → Result Tables
delete_survey db id = do
  require (is_some (find_survey id db.surveys)) not_found
  ok (record db {
    surveys = filter (λ sv. not (same sv.id id)) db.surveys;
    options = filter (λ o. not (same o.survey_id id)) db.options;
    responses = filter (λ r. not (same r.survey_id id)) db.responses;
    choices = cascade db.responses id db.choices;
    seen = cascade db.responses id db.seen;
  })

abbrev with_options : Tables → Survey → Survey
with_options db sv = record sv { options = load_options db.options sv.id }

-- Newest first.
unfoldable pub surveys : Tables → List Survey
surveys db = map (with_options db) (sort_by (λ a b. leb b.created a.created) db.surveys)
