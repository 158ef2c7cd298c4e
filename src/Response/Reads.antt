-- ===== src/Response/Reads.antt =====
-- The reads of internal/store/response.go that pages make: `ResponseFor`, `PriorAnswer`, `Comments`
-- and `Count`.
use quicksurvey.Base.{
  ℕ, Bool, not, ◌&&◌, Option, none, some, List, [], map, filter, length, sort_by, Text, same,
  is_empty,
}
use quicksurvey.Tables.{Tables, ResponseRow}
use quicksurvey.Response.{Response}
use quicksurvey.Response.Save.{load_response}
use quicksurvey.Tally.{older}

unfoldable pub response_for : Tables → (sid voter : Text) → Option Response
response_for db sid voter = load_response db sid voter Bool.true

unfoldable pub prior_answer : Tables → (sid voter : Text) → Option (List Text × Text)
prior_answer db sid voter = elim (load_response db sid voter Bool.false) [
  | none ↦ none
  | some r ↦ some (r.choices, r.comment)
]

abbrev commented : Text → ResponseRow → Bool
commented sid r = same r.survey_id sid && not (is_empty r.comment)

abbrev bare : ResponseRow → Response
bare r = record {
  id = r.id;
  voter = r.voter;
  choices = [];
  seen = [];
  comment = r.comment;
  created = r.created;
  updated = r.updated;
}

unfoldable pub comments : Tables → (sid : Text) → List Response
comments db sid = map bare (sort_by older (filter (commented sid) db.responses))

unfoldable pub count : Tables → (sid : Text) → ℕ
count db sid = length (filter (λ r. same r.survey_id sid) db.responses)
