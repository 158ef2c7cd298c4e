-- ===== src/Documents/Restore.antt =====
-- `RestoreSurvey` of internal/store/portable.go, with `restorableResponses` and `insertResponses`.
pub mod Covered
pub mod Refused
pub mod Written
use quicksurvey.Base.{
  ℕ, suc, ◌==◌, if◌then◌else◌, Bool, true, false, not, ◌&&◌, ◌||◌, Option, none, some, List, [],
  ◌∷◌, ◌++◌, any, Text, codes, same, is_empty, trim_space, Result, ok, err, ◌>>=◌, ◌>>◌, require,
  or_fail, constraint_failed, already_exists, needs_title, unknown_status, unknown_kind,
  unknown_state, empty_option, responses_need_id, no_source_id, dangling_reference, no_voter,
}
use quicksurvey.Survey.{SurveyOption, Survey, OptionStatus, approved, SurveyState, draft, is_zero}
use quicksurvey.Survey.Edit.{is_some}
use quicksurvey.Tables.{Tables, ResponseRow, load_survey, save_survey, stamp}
use quicksurvey.Response.{Response, has}
use quicksurvey.Response.Save.{row_of, insert_choices, insert_seen}
use quicksurvey.Documents.{
  DocumentOption, DocumentResponse, DocumentBody, Document, document_responses, full,
  check_doc_header,
}

abbrev pub valid_state : SurveyState → Bool
valid_state (SurveyState.other s) = false
valid_state _ = true

abbrev pub valid_option_status : OptionStatus → Bool
valid_option_status (OptionStatus.other s) = false
valid_option_status _ = true

-- `optionID`, the latest assignment first.
unfoldable pub renamed : List (Text × Text) → Text → Option Text
renamed [] id = none
renamed ((k, to) ∷ m) id = if same k id then some to else renamed m id

-- The option that one round of the loop appends, with the id `id`.
abbrev pub status_of : DocumentOption → OptionStatus
status_of o = elim o.status [ none ↦ approved | some s ↦ s ]

abbrev pub restored_option : DocumentOption → (id : Text) (now : ℕ) → SurveyOption
restored_option o id now = record {
  id = id;
  text = trim_space o.text;
  status = status_of o;
  source = if same o.source (codes "writein") then o.source else codes "editor";
  merged_into = o.merged_into;
  created = if is_zero o.created then now else o.created;
}

abbrev pub restored_id : Bool → DocumentOption → Text → Text
restored_id keep_id o fresh = if keep_id && not (is_empty o.id) then o.id else fresh

module _ (keep_id : Bool) (draw : ℕ → Text) (now : ℕ) where
  unfoldable pub restore_options :
      (i : ℕ)
      → List (Text × Text)
      → List DocumentOption
      → Result (List SurveyOption × List (Text × Text))
  restore_options i m [] = ok ([], m)
  restore_options i m (o ∷ os) = do
    require (not (is_empty (trim_space o.text))) empty_option
    require (valid_option_status (status_of o)) unknown_status
    let id = restored_id keep_id o (draw i)
    rest ← restore_options (suc i) (if is_empty o.id then m else (o.id, id) ∷ m) os
    ok (restored_option o id now ∷ rest.0, rest.1)

-- The second pass.
unfoldable pub restore_merges : List (Text × Text) → List SurveyOption → Result (List SurveyOption)
restore_merges m [] = ok []
restore_merges m (o ∷ os) = do
  let target = if is_empty o.merged_into then some [] else renamed m o.merged_into
  to ← or_fail target dangling_reference
  rest ← restore_merges m os
  ok (record o { merged_into = to } ∷ rest)

-- The loop over `Choices`.
unfoldable pub restore_choices : List (Text × Text) → List Text → Result (List Text)
restore_choices m [] = ok []
restore_choices m (c ∷ cs) = do
  to ← or_fail (renamed m c) dangling_reference
  rest ← restore_choices m cs
  ok (to ∷ rest)

-- `held` and `r.Seen` hold the same ids.
abbrev pub hold : List Text → Text → List Text
hold held id = if has id held then held else held ++ (id ∷ [])

unfoldable pub restore_seen : List (Text × Text) → List Text → List Text → Result (List Text)
restore_seen m held [] = ok held
restore_seen m held (s ∷ ss) = do
  to ← or_fail (renamed m s) dangling_reference
  restore_seen m (hold held to) ss

unfoldable pub hold_all : List Text → List Text → List Text
hold_all held [] = held
hold_all held (c ∷ cs) = hold_all (hold held c) cs

unfoldable pub restore_response :
    List (Text × Text) → (fresh : Text) → DocumentResponse → Result Response
restore_response m fresh dr = do
  require (not (is_empty dr.voter)) no_voter
  choices ← restore_choices m dr.choices
  seen ← restore_seen m [] dr.seen
  ok (record {
    id = fresh;
    voter = dr.voter;
    choices = choices;
    seen = hold_all seen choices;
    comment = dr.comment;
    created = dr.created;
    updated = dr.updated;
  })

unfoldable pub restorable_responses :
    List (Text × Text)
    → (draw_response : ℕ → Text) (i : ℕ) → List DocumentResponse
    → Result (List Response)
restorable_responses m draw i [] = ok []
restorable_responses m draw i (dr ∷ drs) = do
  r ← restore_response m (draw i) dr
  rest ← restorable_responses m draw (suc i) drs
  ok (r ∷ rest)

-- The row of `responses` violates a constraint.
abbrev pub row_clash : Text → Response → ResponseRow → Bool
row_clash sid r row = same row.id r.id || (same row.survey_id sid && same row.voter r.voter)

unfoldable pub insert_response : Tables → Text → Response → Result Tables
insert_response db sid r = do
  require (not (any (row_clash sid r) db.responses)) constraint_failed
  chosen ← insert_choices r.id r.choices db.choices
  ok (record db {
    responses = db.responses ++ (row_of sid r ∷ []);
    choices = chosen;
    seen = insert_seen r.id r.seen db.seen;
  })

unfoldable pub insert_responses : Tables → Text → List Response → Result Tables
insert_responses db sid [] = ok db
insert_responses db sid (r ∷ rs) = do next ← insert_response db sid r; insert_responses next sid rs

-- The survey without its options, as `RestoreSurvey` makes it.
abbrev pub state_of : DocumentBody → SurveyState
state_of b = elim b.state [ none ↦ draft | some s ↦ s ]

abbrev pub or_now : ℕ → ℕ → ℕ
or_now t now = if is_zero t then now else t

abbrev pub restored_body : Document → (id kind title : Text) (now : ℕ) → Survey
restored_body doc id kind title now = record {
  id = id;
  kind = kind;
  title = title;
  description = trim_space doc.survey.description;
  options = [];
  state = if full doc then state_of doc.survey else draft;
  show_results = doc.survey.show_results;
  allow_write_in = doc.survey.allow_write_in;
  allow_comment = doc.survey.allow_comment;
  no_randomize = doc.survey.no_randomize;
  close_at = if full doc then doc.survey.close_at else 0;
  first_opened_at = if full doc then doc.survey.first_opened_at else 0;
  created = if full doc then or_now doc.survey.created now else now;
  updated = if full doc then or_now doc.survey.updated now else now;
}

abbrev pub kind_of : DocumentBody → Text
kind_of b = if is_empty b.kind then codes "thumbsup" else b.kind

-- The draws of one restore: the survey's id, the options' and the responses'.
pub record Draws : Type 0 where
  pub survey : Text
  pub option : ℕ → Text
  pub response : ℕ → Text

-- All that `RestoreSurvey` does before its transaction: the survey and the responses to write.
unfoldable pub restorable :
    Tables → Document → (keep_id : Bool) → Draws → (now : ℕ) → Result (Survey × List Response)
unfolding check_doc_header
restorable db doc keep_id draws now = do
  check_doc_header doc.format doc.version
  let title = trim_space doc.survey.title
  require (not (is_empty title)) needs_title
  require (same (kind_of doc.survey) (codes "thumbsup")) unknown_kind
  require (elim (document_responses doc) [ [] ↦ true | r ∷ rs ↦ keep_id ]) responses_need_id
  require (not (keep_id && is_empty doc.source_id)) no_source_id
  require (not (keep_id && is_some (load_survey db doc.source_id))) already_exists
  require (not (full doc) || valid_state (state_of doc.survey)) unknown_state
  restored ← restore_options keep_id draws.option now 0 [] doc.survey.options
  options ← restore_merges restored.1 restored.0
  rs ← restorable_responses restored.1 draws.response 0 (document_responses doc)
  let id = if keep_id then doc.source_id else draws.survey
  ok (record (restored_body doc id (kind_of doc.survey) title now) { options = options }, rs)

unfoldable pub restore_survey :
    Tables → Document → (keep_id : Bool) → Draws → (now : ℕ) → Result (Survey × Tables)
restore_survey db doc keep_id draws now = do
  r ← restorable db doc keep_id draws now
  saved ← save_survey db r.0 now
  db' ← insert_responses saved r.0.id r.1
  ok (stamp r.0 now, db')
