-- ===== src/Response/Save.antt =====
-- The statements of internal/store/response.go, and the operations on responses that they make up:
-- `saveResponseTx`, `AddWriteIn`, `ClearResponses` and `Publish`.
--
-- An operation is the body of its transaction: an error leaves the tables as they were.
use quicksurvey.Base.{
  ℕ, zero, suc, ◌==◌, ltb, if◌then◌else◌, Bool, true, false, not, ◌&&◌, Option, none, some, List,
  [], ◌∷◌, ◌++◌, filter, any, length, take, drop, Text, codes, same, Result, ok, err, ◌>>=◌, ◌>>◌,
  require, or_fail, not_found, not_accepting, constraint_failed, no_write_ins,
  too_many_own_suggestions, too_many_suggestions,
}
use quicksurvey.Survey.{
  SurveyOption, Survey, pending, opened, is_pending, is_zero, find_option, accepting_from,
  pending_options,
}
use quicksurvey.Survey.Edit.{add_option, is_some}
use quicksurvey.Tables.{Tables, ResponseRow, Mark, find_survey, load_survey, save_survey}
use quicksurvey.Response.{Response, response_of, prev_choices}

-- SELECT option_id FROM … WHERE response_id = ?, which names no order: the order of insertion here.
unfoldable pub load_ids : List Mark → Text → List Text
load_ids [] rid = []
load_ids (m ∷ ms) rid =
    let rest = load_ids ms rid in if same m.response_id rid then m.option_id ∷ rest else rest

-- SELECT … FROM responses WHERE survey_id = ? AND voter = ?
unfoldable pub find_row : Text → Text → List ResponseRow → Option ResponseRow
find_row sid voter [] = none
find_row sid voter (r ∷ rs) =
    if same r.survey_id sid && same r.voter voter then some r else find_row sid voter rs

unfoldable pub load_response : Tables → Text → Text → Bool → Option Response
load_response db sid voter with_seen = elim (find_row sid voter db.responses) [
  | none ↦ none
  | some r ↦ some (record {
    id = r.id;
    voter = r.voter;
    choices = load_ids db.choices r.id;
    seen = if with_seen then load_ids db.seen r.id else [];
    comment = r.comment;
    created = r.created;
    updated = r.updated;
  })
]

-- INSERT INTO responses … ON CONFLICT(survey_id, voter) DO UPDATE
update_row : ResponseRow → List ResponseRow → List ResponseRow
update_row row [] = []
update_row row (r ∷ rs) =
    let rest = r ∷ update_row row rs in
    if same r.survey_id row.survey_id && same r.voter row.voter
    then record r { comment = row.comment; updated = row.updated } ∷ rs
    else rest

unfoldable pub upsert_row : ResponseRow → List ResponseRow → Result (List ResponseRow)
unfolding update_row
upsert_row row rs =
    if is_some (find_row row.survey_id row.voter rs)
    then ok (update_row row rs)
    else do require (not (any (λ r. same r.id row.id) rs)) constraint_failed; ok (rs ++ (row ∷ []))

abbrev pub is_mark : Text → Text → Mark → Bool
is_mark rid oid m = same m.response_id rid && same m.option_id oid

abbrev pub mark : Text → Text → Mark
mark rid oid = record { response_id = rid; option_id = oid }

-- DELETE FROM choices WHERE response_id = ?
unfoldable pub delete_marks : Text → List Mark → List Mark
delete_marks rid ms = filter (λ m. not (same m.response_id rid)) ms

-- INSERT INTO choices, once for each id
unfoldable pub insert_choices : Text → List Text → List Mark → Result (List Mark)
insert_choices rid [] ms = ok ms
insert_choices rid (id ∷ ids) ms =
    let rest = insert_choices rid ids (ms ++ (mark rid id ∷ [])) in
    if any (is_mark rid id) ms then err constraint_failed else rest

-- INSERT OR IGNORE INTO seen, with one row for each id
unfoldable pub insert_or_ignore : Text → List Text → List Mark → List Mark
insert_or_ignore rid [] ms = ms
insert_or_ignore rid (id ∷ ids) ms =
    insert_or_ignore rid ids (if any (is_mark rid id) ms then ms else ms ++ (mark rid id ∷ []))

abbrev pub seen_insert_batch : ℕ
seen_insert_batch = 1000

-- The loop of `insertSeen` over a batch size, on fuel.
unfoldable pub insert_batches : (fuel batch : ℕ) → Text → List Text → List Mark → List Mark
insert_batches zero batch rid ids ms = ms
insert_batches (suc f) batch rid [] ms = ms
insert_batches (suc f) batch rid (id ∷ ids) ms =
    insert_batches f batch rid (drop batch (id ∷ ids))
      (insert_or_ignore rid (take batch (id ∷ ids)) ms)

unfoldable pub insert_seen : Text → List Text → List Mark → List Mark
insert_seen rid ids ms = insert_batches (length ids) seen_insert_batch rid ids ms

-- The test that spares a resubmission the writes to `seen`.
unfoldable pub write_seen : Option Response → Response → List Mark → List Mark
write_seen none r ms = insert_seen r.id r.seen ms
write_seen (some p) r ms = if length r.seen == length p.seen then ms else insert_seen r.id r.seen ms

abbrev pub row_of : Text → Response → ResponseRow
row_of sid r = record {
  id = r.id;
  survey_id = sid;
  voter = r.voter;
  comment = r.comment;
  created = r.created;
  updated = r.updated;
}

-- The writes of `saveResponseTx`.
unfoldable pub write_response : Tables → Text → Option Response → Response → Result Tables
write_response db sid prev r = do
  rows ← upsert_row (row_of sid r) db.responses
  chosen ← insert_choices r.id r.choices (delete_marks r.id db.choices)
  ok (record db { responses = rows; choices = chosen; seen = write_seen prev r db.seen })

unfoldable pub save_response_tx :
    Tables
    → (sid voter : Text) → List Text
    → (comment allow_pending : Text) → (preview : Bool) → (fresh : Text) (now : ℕ)
    → Result (Response × Tables)
save_response_tx db sid voter choices comment allow_pending preview fresh now = do
  sv ← or_fail (load_survey db sid) not_found
  require (accepting_from sv now preview) not_accepting
  let prev = load_response db sid voter true
  let r = response_of sv prev allow_pending voter choices comment fresh now
  db' ← write_response db sid prev r
  ok (r, db')

unfoldable pub save_response :
    Tables
    → (sid voter : Text) → List Text
    → Text
    → (fresh : Text) (now : ℕ) → Result (Response × Tables)
save_response db sid voter choices comment fresh now =
    save_response_tx db sid voter choices comment [] false fresh now

unfoldable pub preview_response :
    Tables
    → (sid voter : Text) → List Text
    → Text
    → (fresh : Text) (now : ℕ) → Result (Response × Tables)
preview_response db sid voter choices comment fresh now =
    save_response_tx db sid voter choices comment [] true fresh now

abbrev pub max_write_ins_per_voter : ℕ
max_write_ins_per_voter = 5

abbrev pub max_pending_per_survey : ℕ
max_pending_per_survey = 50

-- The loop of `countPending`.
unfoldable pub count_pending : List SurveyOption → List Text → ℕ
count_pending os [] = 0
count_pending os (id ∷ ids) = elim (find_option id os) [
  | none ↦ count_pending os ids
  | some o ↦ let rest = count_pending os ids in if is_pending o.status then suc rest else rest
]

abbrev pub prev_comment : Option Response → Text
prev_comment none = []
prev_comment (some r) = r.comment

-- `addWriteIn`: the proposed option and the vote for it. Two ids are drawn, one for the option and
-- one for a first response.
unfoldable pub add_write_in :
    Tables
    → (sid voter text : Text) → (preview : Bool) → (fresh_option fresh : Text) (now : ℕ)
    → Result (Text × Tables)
add_write_in db sid voter text preview fresh_option fresh now = do
  sv ← or_fail (load_survey db sid) not_found
  require sv.allow_write_in no_write_ins
  require (accepting_from sv now preview) not_accepting
  let prev = load_response db sid voter false
  require (ltb (count_pending sv.options (prev_choices prev)) max_write_ins_per_voter)
      too_many_own_suggestions
  require (ltb (length (pending_options sv)) max_pending_per_survey) too_many_suggestions
  added ← add_option sv text pending (codes "writein") fresh_option now
  saved ← save_survey db (record (added.0) { updated = now }) now
  voted ←
      save_response_tx saved sid voter (prev_choices prev ++ (added.1 ∷ [])) (prev_comment prev)
        (added.1) preview fresh now
  ok (added.1, voted.1)

-- The rows of `choices` and `seen` whose response is deleted go with it: ON DELETE CASCADE.
unfoldable pub cascade : List ResponseRow → Text → List Mark → List Mark
cascade rows sid ms =
    filter (λ m. not (any (λ r. same r.survey_id sid && same r.id m.response_id) rows)) ms

unfoldable pub clear_responses_tx : Tables → Text → Result (ℕ × Tables)
clear_responses_tx db sid = do
  require (is_some (find_survey sid db.surveys)) not_found
  ok (
    length (filter (λ r. same r.survey_id sid) db.responses),
    record db {
      responses = filter (λ r. not (same r.survey_id sid)) db.responses;
      choices = cascade db.responses sid db.choices;
      seen = cascade db.responses sid db.seen;
    },
  )

-- What `Publish` makes of the survey that it loads.
unfoldable pub opened_at : Survey → ℕ → Survey
opened_at sv now = record sv {
  first_opened_at = if is_zero sv.first_opened_at then now else sv.first_opened_at;
  state = opened;
  close_at = if not (is_zero sv.close_at) && not (ltb now sv.close_at) then 0 else sv.close_at;
  updated = now;
}

unfoldable pub publish : Tables → Text → (now : ℕ) → Result (ℕ × Tables)
publish db sid now = do
  sv ← or_fail (load_survey db sid) not_found
  saved ← save_survey db (opened_at sv now) now
  let cleared = clear_responses_tx saved sid
  if is_zero sv.first_opened_at then cleared else ok (0, saved)
