-- ===== src/Tests/Ballots.antt =====
-- Submissions to the sample survey, its tally and its publication.
use mathlib.Core.Option.{some-injective}
use quicksurvey.Base.{
  ℕ, ◌≡◌, refl, subst, ◌&&◌, ◌||◌, true, false, some, [], ◌∷◌, codes, same→eq, sym, ok, arith, All,
  length,
}
use quicksurvey.Survey.{Survey, SurveyState, find_option}
use quicksurvey.Survey.Edit.{is_some}
use quicksurvey.Tables.{Tables, load_survey}
use quicksurvey.Response.{Response, has, on_ballot, off_ballot, choices_of}
use quicksurvey.Response.Sets.{Distinct}
use quicksurvey.Response.Shown.{has-choices_of, prev_seen-Within}
use quicksurvey.Response.Save.{load_response, mark, insert_or_ignore, write_seen, save_response_tx}
use quicksurvey.Response.Stored.{write_seen_lem}
use quicksurvey.Response.Covered.{
  IsCovered, IsKnown, Wrote, save_response_tx-Wrote, save_response_tx-IsCovered,
}
use quicksurvey.Response.Publication.{publish_after_save}
use quicksurvey.Surveys.Discarded.{RowsApart, publish-responses}
use quicksurvey.Tally.{compute_tally, responses}
use quicksurvey.Tally.Rows.{IsTrue, IsComplete, Descending, compute_tally-IsTrue}
use quicksurvey.Tests.Samples.{drinks, tables, draft_tables, ann_marks, program}

-- Ann answers again, for coffee: her merged choice is carried forward.
abbrev ann_before : Response
ann_before = record {
  id = codes "r1";
  voter = codes "ann";
  choices = codes "chai" ∷ [];
  seen = codes "chai" ∷ [];
  comment = [];
  created = 6;
  updated = 6;
}

abbrev pub ann : Response
ann = record {
  id = codes "r1";
  voter = codes "ann";
  choices = codes "coffee" ∷ codes "chai" ∷ [];
  seen = codes "tea" ∷ codes "chai" ∷ codes "coffee" ∷ [];
  comment = codes "hot";
  created = 6;
  updated = 8;
}

abbrev answered : Tables
answered = record tables {
  responses =
      record {
        id = codes "r1";
        survey_id = codes "s1";
        voter = codes "ann";
        comment = codes "hot";
        created = 6;
        updated = 8;
      }
      ∷ [];
  choices = mark (codes "r1") (codes "coffee") ∷ mark (codes "r1") (codes "chai") ∷ [];
  seen =
      mark (codes "r1") (codes "chai")
      ∷ mark (codes "r1") (codes "tea")
      ∷ mark (codes "r1") (codes "coffee")
      ∷ [];
}

ann_answers :
    save_response_tx tables
      (codes "s1")
      (codes "ann")
      (codes "coffee" ∷ codes "gin" ∷ [])
      (codes " hot ")
      []
      false
      (codes "r9")
      8
    ≡ ok (ann, answered)
unfolding program
ann_answers = refl

ann_loaded : load_response tables (codes "s1") (codes "ann") true ≡ some ann_before
unfolding program
ann_loaded = refl

tables-IsCovered : IsCovered tables
tables-IsCovered rid id h = h

loaded_before :
    (p : Response) → load_response tables (codes "s1") (codes "ann") true ≡ some p → ann_before ≡ p
unfolding program
loaded_before p h = some-injective _ _ h

drinks-IsKnown : IsKnown tables (codes "s1") (codes "ann") drinks
unfolding program
drinks-IsKnown = record {
  distinct = λ p h. subst (λ (q : Response). Distinct q.seen) (loaded_before p h) (refl, tt);
  known = λ p h id m.
      let e : ann_before ≡ p = loaded_before p h in
      let n : has id ann_before.seen ≡ true =
        subst (λ (q : Response). has id q.seen ≡ true) (sym e) m in
      let i : codes "chai" ≡ id = same→eq (codes "chai") id (ground arith) in
      subst (λ j. is_some (find_option j drinks.options) ≡ true) i refl;
}

survey-IsKnown :
    (sv : Survey)
    → load_survey tables (codes "s1") ≡ some sv
    → IsKnown tables (codes "s1") (codes "ann") sv
unfolding program
survey-IsKnown sv e =
    subst (IsKnown tables (codes "s1") (codes "ann")) (some-injective _ _ e) drinks-IsKnown

save_response_tx-Wrote_example : Wrote tables answered ann
save_response_tx-Wrote_example =
    save_response_tx-Wrote tables (codes "s1") (codes "ann") (codes "coffee" ∷ codes "gin" ∷ [])
      (codes " hot ") [] false (codes "r9") 8 ann answered survey-IsKnown ann_answers

save_response_tx-IsCovered_example : IsCovered answered
save_response_tx-IsCovered_example =
    save_response_tx-IsCovered tables (codes "s1") (codes "ann") (codes "coffee" ∷ codes "gin" ∷ [])
      (codes " hot ") [] false (codes "r9") 8 ann answered tables-IsCovered survey-IsKnown
      ann_answers

has-choices_of_example :
    has (codes "chai") (choices_of drinks (some ann_before) [] (codes "coffee" ∷ [])) ≡ (
      (has (codes "chai") (codes "coffee" ∷ [])
        && on_ballot drinks.options (some ann_before) [] (codes "chai"))
      || (has (codes "chai") (codes "chai" ∷ [])
          && off_ballot drinks.options (some ann_before) [] (codes "chai")))
has-choices_of_example =
    has-choices_of drinks (some ann_before) [] (codes "coffee" ∷ []) (codes "chai")

write_seen_lem_example :
    write_seen (some ann_before) ann ann_marks ≡ insert_or_ignore (codes "r1") ann.seen ann_marks
unfolding program
write_seen_lem_example =
    write_seen_lem ann_marks ann_before ann refl (refl, tt)
      (prev_seen-Within drinks (some ann_before) [] (drinks-IsKnown.known ann_before ann_loaded))

compute_tally-IsTrue_example :
    All (IsTrue drinks (responses tables (codes "s1"))) (compute_tally tables (codes "s1")).0
    × IsComplete drinks (compute_tally tables (codes "s1")).0
    × Descending (compute_tally tables (codes "s1")).0
    × ((compute_tally tables (codes "s1")).1 ≡ length (responses tables (codes "s1")))
unfolding program
compute_tally-IsTrue_example = compute_tally-IsTrue tables (codes "s1") drinks tables-IsCovered refl

-- Ann's one vote, for a merged option, counts for tea.
tally_total : (compute_tally tables (codes "s1")).1 ≡ 1
unfolding program
tally_total = refl

-- An editor opens the draft with an ordinary save, and it is published later.
abbrev opened_sample : Survey
opened_sample = record drinks { first_opened_at = 0 }

abbrev saved_tables : Tables
saved_tables = record tables { surveys = record drinks { options = []; first_opened_at = 9 } ∷ [] }

abbrev published : Tables
published = record tables {
  surveys = record drinks { options = []; first_opened_at = 9; updated = 12 } ∷ [];
}

abbrev none_discarded : ℕ
none_discarded = 0

publish_after_save_example : (none_discarded ≡ 0) × (published.responses ≡ draft_tables.responses)
unfolding program
publish_after_save_example =
    publish_after_save draft_tables saved_tables published opened_sample 9 12 none_discarded
      (ground arith) refl refl refl

abbrev draft : Survey
draft = record drinks { state = SurveyState.draft; first_opened_at = 0 }

abbrev cleared : Tables
cleared = record draft_tables {
  surveys = record drinks { options = []; first_opened_at = 12; updated = 12 } ∷ [];
  responses = [];
  choices = [];
  seen = [];
}

draft-RowsApart : RowsApart draft_tables.responses
draft-RowsApart = (tt, tt)

publish-responses_example :
    (responses cleared (codes "s1") ≡ [])
    × (1 ≡ length (responses draft_tables (codes "s1")))
    × (responses cleared (codes "s2") ≡ responses draft_tables (codes "s2"))
unfolding program
publish-responses_example =
    publish-responses draft_tables cleared (codes "s1") (codes "s2") draft 12 1 draft-RowsApart
      (ground arith) refl refl
