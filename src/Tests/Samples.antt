-- ===== src/Tests/Samples.antt =====
-- A survey with a chain of two merges, and tables that hold it with one response.
use quicksurvey.Base.{
  ℕ, true, false, List, [], ◌∷◌, Text, codes, text_discrete, filter, any, sort_by, trim_space,
}
use quicksurvey.Survey.{
  SurveyOption, Survey, OptionStatus, approved, merged, SurveyState, find_option, resolve_rounds,
  resolve, accepting, accepting_from, pending_options,
}
use quicksurvey.Survey.Edit.{update_last, new_status, set_option_status, add_option}
use quicksurvey.Tables.{
  Tables, OptionRow, Mark, find_survey, load_options, load_survey, stamp, upsert_survey,
  upsert_options, count_options, save_survey,
}
use quicksurvey.Response.{
  has, visible_to, on_ballot, off_ballot, pick, carry_forward, choices_of, visible_ids, in_order,
  seen_of, comment_of, response_of,
}
use quicksurvey.Response.Save.{
  load_ids, find_row, load_response, upsert_row, mark, delete_marks, insert_choices,
  insert_or_ignore, insert_batches, insert_seen, write_seen, write_response, save_response_tx,
  count_pending, add_write_in, cascade, clear_responses_tx, opened_at, publish,
}
use quicksurvey.Tally.{responses, text_le, count_once, count_responses, tally_of, compute_tally}

abbrev pub option_of : Text → OptionStatus → Text → SurveyOption
option_of id status into = record {
  id = id;
  text = id;
  status = status;
  source = codes "editor";
  merged_into = into;
  created = 1;
}

abbrev pub tea : SurveyOption
tea = option_of (codes "tea") approved []

abbrev pub chai : SurveyOption
chai = option_of (codes "chai") merged (codes "tea")

abbrev pub char : SurveyOption
char = option_of (codes "char") merged (codes "chai")

abbrev pub coffee : SurveyOption
coffee = option_of (codes "coffee") approved []

abbrev pub drinks : Survey
drinks = record {
  id = codes "s1";
  kind = codes "thumbsup";
  title = codes "drinks";
  description = [];
  options = tea ∷ chai ∷ char ∷ coffee ∷ [];
  state = SurveyState.opened;
  show_results = true;
  allow_write_in = true;
  allow_comment = true;
  no_randomize = false;
  close_at = 0;
  first_opened_at = 5;
  created = 1;
  updated = 5;
}

abbrev pub stored : ℕ → SurveyOption → OptionRow
stored i o = record { survey_id = codes "s1"; position = i; option = o }

abbrev pub ann_marks : List Mark
ann_marks = mark (codes "r1") (codes "chai") ∷ []

-- Ann has answered, and had been shown what she chose.
abbrev pub tables : Tables
tables = record {
  surveys = record drinks { options = [] } ∷ [];
  options = stored 0 tea ∷ stored 1 chai ∷ stored 2 char ∷ stored 3 coffee ∷ [];
  responses =
      record {
        id = codes "r1";
        survey_id = codes "s1";
        voter = codes "ann";
        comment = [];
        created = 6;
        updated = 6;
      }
      ∷ [];
  choices = ann_marks;
  seen = ann_marks;
}

-- The same survey while it is a draft that was never open.
abbrev pub draft_tables : Tables
draft_tables = record tables {
  surveys = record drinks { options = []; state = SurveyState.draft; first_opened_at = 0 } ∷ [];
}

-- All that a run of the program unfolds.
unfoldable pub program : Unit {0}
unfolding text_discrete filter any sort_by trim_space find_option resolve_rounds resolve accepting
    accepting_from pending_options update_last new_status set_option_status add_option find_survey
    load_options load_survey stamp upsert_survey upsert_options count_options save_survey has
    visible_to on_ballot off_ballot pick carry_forward choices_of visible_ids in_order seen_of
    comment_of response_of load_ids find_row load_response upsert_row delete_marks insert_choices
    insert_or_ignore insert_batches insert_seen write_seen write_response save_response_tx
    count_pending add_write_in cascade clear_responses_tx opened_at publish responses text_le
    count_once count_responses tally_of compute_tally
program = tt
