-- ===== src/Documents.antt =====
-- internal/store/portable.go: the document that a survey is saved to and restored from.
--
-- An absent text of the JSON form is an empty text there; an absent status or state is `none` here,
-- and so is a list of responses that is nil. A version below 1 is 0. The JSON text itself is written
-- and read by encoding/json. `draw i` and `draw_response i` are the ids that `newID` draws for the
-- i-th option and response.
pub mod Restore
pub mod Definition
pub mod Backup
use quicksurvey.Base.{
  ℕ, suc, ◌==◌, ltb, if◌then◌else◌, Bool, true, false, not, ◌&&◌, ◌||◌, Option, none, some, List,
  [], ◌∷◌, ◌++◌, map, filter, Text, codes, same, is_empty, Result, ok, err, ◌>>=◌, ◌>>◌, require,
  or_fail, bad_format, no_version, newer_version, not_found,
}
use quicksurvey.Survey.{SurveyOption, Survey, OptionStatus, approved, SurveyState, is_approved}
use quicksurvey.Survey.Edit.{is_some}
use quicksurvey.Tables.{Tables, load_survey}
use quicksurvey.Response.{Response}
use quicksurvey.Tally.{responses}

pub record DocumentOption : Type 0 where
  pub text : Text
  pub source : Text
  pub id : Text
  pub status : Option OptionStatus
  pub merged_into : Text
  pub created : ℕ

pub record DocumentResponse : Type 0 where
  pub voter : Text
  pub choices : List Text
  pub seen : List Text
  pub comment : Text
  pub created : ℕ
  pub updated : ℕ

pub record DocumentBody : Type 0 where
  pub kind : Text
  pub title : Text
  pub description : Text
  pub show_results : Bool
  pub allow_write_in : Bool
  pub allow_comment : Bool
  pub no_randomize : Bool
  pub options : List DocumentOption
  pub state : Option SurveyState
  pub close_at : ℕ
  pub first_opened_at : ℕ
  pub created : ℕ
  pub updated : ℕ

pub record Document : Type 0 where
  pub format : Text
  pub version : ℕ
  pub exported : ℕ
  pub source_id : Text
  pub survey : DocumentBody
  pub responses : Option (List DocumentResponse)

abbrev pub doc_format : Text
doc_format = codes "quicksurvey.survey"

abbrev pub doc_version : ℕ
doc_version = 2

abbrev pub document_responses : Document → List DocumentResponse
document_responses doc = elim doc.responses [ none ↦ [] | some rs ↦ rs ]

abbrev pub full : Document → Bool
full doc = is_some doc.responses || is_some doc.survey.state

unfoldable pub check_doc_header : Text → ℕ → Result (Unit {0})
check_doc_header format version = do
  require (same format doc_format) bad_format
  require (not (ltb version 1)) no_version
  require (not (ltb doc_version version)) newer_version
  ok tt

-- One option as the loop of `SurveyDocument` writes it, in a definition and in a backup.
abbrev pub bare_option : SurveyOption → DocumentOption
bare_option o = record {
  text = o.text;
  source = o.source;
  id = [];
  status = none;
  merged_into = [];
  created = 0;
}

abbrev pub full_option : SurveyOption → DocumentOption
full_option o = record {
  text = o.text;
  source = o.source;
  id = o.id;
  status = some o.status;
  merged_into = o.merged_into;
  created = o.created;
}

abbrev pub document_response : Response → DocumentResponse
document_response r = record {
  voter = r.voter;
  choices = r.choices;
  seen = r.seen;
  comment = r.comment;
  created = r.created;
  updated = r.updated;
}

abbrev pub definition_body : Survey → DocumentBody
definition_body sv = record {
  kind = sv.kind;
  title = sv.title;
  description = sv.description;
  show_results = sv.show_results;
  allow_write_in = sv.allow_write_in;
  allow_comment = sv.allow_comment;
  no_randomize = sv.no_randomize;
  options = map bare_option (filter (λ o. is_approved o.status) sv.options);
  state = none;
  close_at = 0;
  first_opened_at = 0;
  created = 0;
  updated = 0;
}

abbrev pub full_body : Survey → DocumentBody
full_body sv = record (definition_body sv) {
  options = map full_option sv.options;
  state = some sv.state;
  close_at = sv.close_at;
  first_opened_at = sv.first_opened_at;
  created = sv.created;
  updated = sv.updated;
}

unfoldable pub survey_document :
    Tables → (id : Text) → (with_responses : Bool) → (now : ℕ) → Result Document
survey_document db id with_responses now = do
  sv ← or_fail (load_survey db id) not_found
  let rs = responses db sv.id
  ok (record {
    format = doc_format;
    version = doc_version;
    exported = now;
    source_id = sv.id;
    survey = if with_responses then full_body sv else definition_body sv;
    responses = if with_responses then some (map document_response rs) else none;
  })
