-- ===== src/Response.antt =====
-- internal/store/response.go: recording a respondent's answer.
--
-- A Go map used as a set is the list of its members. The id that `newID` draws is an argument, and
-- so is the time: the two clock readings of one call are taken to agree.
pub mod Save
pub mod Sets
pub mod Shown
pub mod Stored
pub mod Covered
pub mod Publication
pub mod Reads
pub mod Authored
use quicksurvey.Base.{
  ℕ, zero, suc, ltb, ◌==◌, if◌then◌else◌, Bool, true, false, not, ◌&&◌, ◌||◌, Option, none, some,
  List, [], ◌∷◌, ◌++◌, map, filter, any, length, take, drop, Text, same, trim_space, Result, ok,
  err, ◌>>=◌, ◌>>◌, require, or_fail, not_found, not_accepting, constraint_failed,
}
use quicksurvey.Survey.{
  SurveyOption, Survey, OptionStatus, approved, pending, find_option, accepting_from,
}
use quicksurvey.Tables.{Tables, ResponseRow, Mark, find_survey, load_survey}

pub record Response : Type 0 where
  pub id : Text
  pub voter : Text
  pub choices : List Text
  pub seen : List Text
  pub comment : Text
  pub created : ℕ
  pub updated : ℕ

-- Membership: the loop of `Chose`, and a lookup in a Go map used as a set.
unfoldable pub has : Text → List Text → Bool
has id [] = false
has id (x ∷ xs) = same x id || has id xs

-- The choices and the seen set of the previous response; none without one.
abbrev pub prev_choices : Option Response → List Text
prev_choices none = []
prev_choices (some r) = r.choices

abbrev pub prev_seen : Option Response → List Text
prev_seen none = []
prev_seen (some r) = r.seen

abbrev pub status_visible : OptionStatus → Bool → Bool
status_visible approved own = true
status_visible pending own = own
status_visible _ own = false

unfoldable pub visible_to : SurveyOption → Option Response → Text → Bool
visible_to o prev allow = status_visible o.status (same o.id allow || has o.id (prev_choices prev))

-- The guards of the two loops over choices.
unfoldable pub on_ballot : List SurveyOption → Option Response → Text → Text → Bool
on_ballot os prev allow id = elim (find_option id os) [
  | none ↦ false
  | some o ↦ visible_to o prev allow
]

unfoldable pub off_ballot : List SurveyOption → Option Response → Text → Text → Bool
off_ballot os prev allow id = elim (find_option id os) [
  | none ↦ false
  | some o ↦ not (visible_to o prev allow)
]

-- The body of `for _, id := range choices`. `picked` and `r.Choices` hold the same ids.
unfoldable pub pick_step : List SurveyOption → Option Response → Text → List Text → Text → List Text
pick_step os prev allow picked id =
    if not (on_ballot os prev allow id) || has id picked then picked else picked ++ (id ∷ [])

unfoldable pub pick : List SurveyOption → Option Response → Text → List Text → List Text → List Text
unfolding pick_step
pick os prev allow picked [] = picked
pick os prev allow picked (id ∷ ids) = pick os prev allow (pick_step os prev allow picked id) ids

-- The body of `for _, id := range prev.Choices`.
unfoldable pub carry_step :
    List SurveyOption → Option Response → Text → List Text → Text → List Text
carry_step os prev allow picked id =
    if not (has id picked) && off_ballot os prev allow id then picked ++ (id ∷ []) else picked

unfoldable pub carry_forward :
    List SurveyOption → Option Response → Text → List Text → List Text → List Text
unfolding carry_step
carry_forward os prev allow picked [] = picked
carry_forward os prev allow picked (id ∷ ids) =
    carry_forward os prev allow (carry_step os prev allow picked id) ids

unfoldable pub choices_of : Survey → Option Response → Text → List Text → List Text
choices_of sv prev allow choices =
    let picked = pick sv.options prev allow [] choices in
    carry_forward sv.options prev allow picked (prev_choices prev)

-- The ids of the options on the ballot.
unfoldable pub visible_ids : List SurveyOption → Option Response → Text → List Text
visible_ids [] prev allow = []
visible_ids (o ∷ os) prev allow =
    let rest = visible_ids os prev allow in if visible_to o prev allow then o.id ∷ rest else rest

-- The walk that lists `shown` in the survey's order.
unfoldable pub in_order : List SurveyOption → List Text → List Text
in_order [] shown = []
in_order (o ∷ os) shown =
    let rest = in_order os shown in if has o.id shown then o.id ∷ rest else rest

unfoldable pub seen_of : Survey → Option Response → Text → List Text
seen_of sv prev allow = in_order sv.options (visible_ids sv.options prev allow ++ prev_seen prev)

abbrev pub max_comment : ℕ
max_comment = 2000

unfoldable pub comment_of : Survey → Text → Text
comment_of sv comment = if sv.allow_comment then take max_comment (trim_space comment) else []

unfoldable pub response_of :
    Survey
    → Option Response
    → Text
    → (voter : Text) → List Text
    → Text
    → (fresh : Text) (now : ℕ) → Response
unfolding choices_of seen_of comment_of
response_of sv prev allow voter choices comment fresh now = record {
  id = elim prev [ none ↦ fresh | some p ↦ p.id ];
  voter = voter;
  choices = choices_of sv prev allow choices;
  seen = seen_of sv prev allow;
  comment = comment_of sv comment;
  created = elim prev [ none ↦ now | some p ↦ p.created ];
  updated = now;
}
