-- ===== src/Tests/Documents.antt =====
-- The sample survey saved and restored, and its answers given seen sets afterwards.
use quicksurvey.Base.{
  ℕ, ◌+◌, ◌<◌, ◌≡◌, refl, true, false, none, some, List, [], ◌∷◌, map, filter, Text, codes,
  trim_space, Result, ok, err, Error, All, arith, sort_by,
}
use quicksurvey.Survey.{SurveyOption, Survey, draft, is_approved}
use quicksurvey.Tables.{Tables, ResponseRow, load_survey}
use quicksurvey.Response.{Response, has}
use quicksurvey.Response.Covered.{IsCovered}
use quicksurvey.Response.Save.{load_ids}
use quicksurvey.Tally.{responses}
use quicksurvey.Documents.{
  Document, check_doc_header, survey_document, full_body, definition_body, document_response,
  bare_option, full_option, doc_format,
}
use quicksurvey.Documents.Restore.{
  Draws, renamed, restore_options, restore_merges, restore_choices, restore_seen, hold_all,
  restore_response, restorable_responses, insert_response, insert_responses, restorable,
  restore_survey, restored_body, restored_option,
}
use quicksurvey.Documents.Restore.Covered.{restore_survey-IsCovered}
use quicksurvey.Documents.Restore.Refused.{restore_survey-dangling}
use quicksurvey.Documents.Definition.{IsPlain, restorable-survey_document-false}
use quicksurvey.Documents.Backup.{IsStored, IsSavable, renumbered}
use quicksurvey.Documents.Backup.Restored.{IsFree, earlier, restore_survey-survey_document}
use quicksurvey.Backfill.{
  Meta, exposed, backfill_rows, backfill_seen_for_survey, survey_ids_after, backfill_surveys,
  backfill_seen,
}
use quicksurvey.Backfill.Exposed.{IsExposed, backfill_seen-IsExposed}
use quicksurvey.Tests.Samples.{tea, chai, char, coffee, drinks, tables, program}

unfoldable documents_program : Unit {0}
unfolding check_doc_header survey_document renamed restore_options restore_merges restore_choices
    restore_seen hold_all restore_response restorable_responses insert_response insert_responses
    restorable restore_survey renumbered exposed backfill_rows backfill_seen_for_survey
    survey_ids_after backfill_surveys backfill_seen
documents_program = tt

abbrev no_tables : Tables
no_tables = record { surveys = []; options = []; responses = []; choices = []; seen = [] }

abbrev draws : Draws
draws = record { survey = codes "s2"; option = λ i. (97 + i) ∷ []; response = λ i. (65 + i) ∷ [] }

abbrev backup : Document
backup = record {
  format = doc_format;
  version = 2;
  exported = 20;
  source_id = codes "s1";
  survey = full_body drinks;
  responses = some (map document_response (responses tables (codes "s1")));
}

abbrev plan : Document
plan = record backup { survey = definition_body drinks; responses = none }

tea-IsStored : IsStored drinks.options tea
unfolding program
tea-IsStored = record {
  text = refl;
  nonempty = refl;
  source = refl;
  status = refl;
  created = ground arith;
  id = refl;
  target = λ e. absurd (ground arith);
}

coffee-IsStored : IsStored drinks.options coffee
unfolding program
coffee-IsStored = record {
  text = refl;
  nonempty = refl;
  source = refl;
  status = refl;
  created = ground arith;
  id = refl;
  target = λ e. absurd (ground arith);
}

chai-IsStored : IsStored drinks.options chai
unfolding program
chai-IsStored = record {
  text = refl;
  nonempty = refl;
  source = refl;
  status = refl;
  created = ground arith;
  id = refl;
  target = λ e. refl;
}

char-IsStored : IsStored drinks.options char
unfolding program
char-IsStored = record {
  text = refl;
  nonempty = refl;
  source = refl;
  status = refl;
  created = ground arith;
  id = refl;
  target = λ e. refl;
}

tables-IsSavable : IsSavable drinks (responses tables (codes "s1"))
unfolding program
tables-IsSavable = record {
  id = refl;
  kind = refl;
  title = refl;
  titled = refl;
  description = refl;
  state = refl;
  created = ground arith;
  updated = ground arith;
  options = (tea-IsStored, (chai-IsStored, (char-IsStored, (coffee-IsStored, tt))));
  answers = (
    record {
      voter = refl;
      chosen = (refl, tt);
      shown = (refl, tt);
      distinct = (refl, tt);
      once = (refl, tt);
      covered = λ id h. h;
    },
    tt,
  );
  few = omega arith;
  first = λ _. ground arith;
  apart = ((refl, (refl, (refl, tt))), ((refl, (refl, tt)), ((refl, tt), (tt, tt))));
  voters = (tt, tt);
}

draws_apart : (i j : ℕ) → i < 1 → j < 1 → draws.response i ≡ draws.response j → i ≡ j
draws_apart i j p q e = omega arith

no_tables-IsFree : IsFree no_tables drinks draws.response 1
unfolding program
no_tables-IsFree = record {
  survey = refl;
  options = tt;
  option_ids = (tt, (tt, (tt, (tt, tt))));
  rows = tt;
  draws = draws_apart;
  row_ids = λ _ _. tt;
  no_choices = λ _ _. refl;
  no_seen = λ _ _. refl;
}

restore_survey-survey_document_example :
    (after : Tables) × (restore_survey no_tables backup true draws 30 ≡ ok (drinks, after))
    × (load_survey after (codes "s1") ≡ some drinks)
    × (responses after (codes "s1")
        ≡ sort_by earlier (renumbered draws.response 0 (responses tables (codes "s1"))))
unfolding program documents_program
restore_survey-survey_document_example =
    restore_survey-survey_document tables no_tables (codes "s1") drinks 20 backup draws 30 refl refl
      tables-IsSavable no_tables-IsFree

abbrev planned : Survey
planned = record (restored_body plan (codes "s2") (codes "thumbsup") (codes "drinks") 30) {
  options =
      restored_option (bare_option tea) (codes "a") 30
      ∷ restored_option (bare_option coffee) (codes "b") 30
      ∷ [];
}

abbrev no_answers : List Response
no_answers = []

restorable-survey_document-false_example :
    (no_answers ≡ [])
    × (planned.id ≡ codes "s2")
    × (planned.state ≡ draft)
    × (planned.first_opened_at ≡ 0)
    × All IsPlain planned.options
    × (map (λ o. o.text) planned.options
        ≡ map
            (λ o. trim_space o.text)
            (filter (λ (o : SurveyOption). is_approved o.status) drinks.options))
unfolding program documents_program
restorable-survey_document-false_example =
    restorable-survey_document-false tables tables (codes "s1") drinks 20 plan draws 30
      (planned, no_answers) refl refl refl

-- The value of a call that is there.
abbrev value_or {ℓ} : {A : Type ℓ} → A → Result A → A
value_or a (ok b) = b
value_or a (err e) = a

abbrev restored : Survey × Tables
restored = value_or (drinks, no_tables) (restore_survey no_tables backup true draws 30)

no_tables-IsCovered : IsCovered no_tables
no_tables-IsCovered rid id h = h

restore_survey-IsCovered_example : IsCovered restored.1
unfolding program documents_program
restore_survey-IsCovered_example =
    restore_survey-IsCovered no_tables restored.1 backup true draws 30 restored.0
      no_tables-IsCovered refl

-- Tea is left out, and chai was merged into it.
abbrev torn : Document
torn = record backup {
  survey = record (full_body drinks) { options = full_option chai ∷ full_option coffee ∷ [] };
}

restore_survey-dangling_example :
    (why : Error) × (restore_survey no_tables torn true draws 30 ≡ err why)
unfolding program
restore_survey-dangling_example =
    restore_survey-dangling no_tables torn true draws 30 (codes "tea") refl refl refl

abbrev unseen : Tables
unseen = record tables { seen = [] }

abbrev begun : Meta
begun = record { done = false; through = [] }

backfill_seen-IsExposed_example :
    ((backfill_seen unseen begun).1.done ≡ true)
    × ((backfill_seen unseen begun).0
        ≡ record unseen { seen = (backfill_seen unseen begun).0.seen })
    × ((rid id : Text)
        → has id (load_ids unseen.seen rid) ≡ true
        → has id (load_ids (backfill_seen unseen begun).0.seen rid) ≡ true)
    × All
        (λ (r : ResponseRow).
          has r.survey_id (survey_ids_after unseen begun.through) ≡ true
          → All (IsExposed (backfill_seen unseen begun).0 r) unseen.options)
        unseen.responses
backfill_seen-IsExposed_example = backfill_seen-IsExposed unseen begun refl

-- Ann, who chose chai, was shown every option that was on the ballot.
backfill_test :
    load_ids (backfill_seen unseen begun).0.seen (codes "r1") ≡ map (λ o. o.id) drinks.options
unfolding program documents_program
backfill_test = refl
