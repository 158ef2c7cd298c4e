-- ===== src/Survey.antt =====
-- internal/store/survey.go: a survey and its options, as respondents see them.
--
-- A time is a number of nanoseconds, and 0 is Go's zero time (`IsZero`). `now` is an argument of
-- each operation that reads the clock.
pub mod Merge
pub mod Edit
use quicksurvey.Base.{
  ℕ, zero, suc, ◌==◌, ltb, if◌then◌else◌, Bool, true, false, ◌&&◌, ◌||◌, not, Option, none, some,
  List, [], ◌∷◌, ◌++◌, filter, length, sort_by, Text, same, is_empty,
}

pub data OptionStatus : Type 0 where
  approved pending rejected removed merged : OptionStatus
  other : Text → OptionStatus

abbrev pub is_approved : OptionStatus → Bool
is_approved approved = true
is_approved _ = false

abbrev pub is_pending : OptionStatus → Bool
is_pending pending = true
is_pending _ = false

abbrev pub is_merged : OptionStatus → Bool
is_merged merged = true
is_merged _ = false

pub data SurveyState : Type 0 where
  draft opened closed : SurveyState
  other : Text → SurveyState

abbrev pub is_draft : SurveyState → Bool
is_draft draft = true
is_draft _ = false

abbrev pub is_opened : SurveyState → Bool
is_opened opened = true
is_opened _ = false

pub record SurveyOption : Type 0 where
  pub id : Text
  pub text : Text
  pub status : OptionStatus
  pub source : Text
  pub merged_into : Text
  pub created : ℕ

pub record Survey : Type 0 where
  pub id : Text
  pub kind : Text
  pub title : Text
  pub description : Text
  pub options : List SurveyOption
  pub state : SurveyState
  pub show_results : Bool
  pub allow_write_in : Bool
  pub allow_comment : Bool
  pub no_randomize : Bool
  pub close_at : ℕ
  pub first_opened_at : ℕ
  pub created : ℕ
  pub updated : ℕ

abbrev pub is_zero : ℕ → Bool
is_zero t = t == 0

unfoldable pub accepting : Survey → ℕ → Bool
accepting sv now =
    if not (is_opened sv.state) then false else is_zero sv.close_at || ltb now sv.close_at

unfoldable pub accepting_from : Survey → ℕ → Bool → Bool
unfolding accepting
accepting_from sv now previewer = if previewer && is_draft sv.state then true else accepting sv now

unfoldable pub closed_by_clock : Survey → ℕ → Bool
closed_by_clock sv now =
    is_opened sv.state && not (is_zero sv.close_at) && not (ltb now sv.close_at)

abbrev pub randomize : Survey → Bool
randomize sv = not sv.no_randomize

-- The scan of `Option`: the first option with the id.
unfoldable pub find_option : Text → List SurveyOption → Option SurveyOption
find_option id [] = none
find_option id (o ∷ os) = if same o.id id then some o else find_option id os

-- The test of `Resolve`: this option hands its votes on.
abbrev pub moves_on : SurveyOption → Bool
moves_on o = is_merged o.status && not (is_empty o.merged_into)

-- The loop of `Resolve` with the rounds that are left.
unfoldable pub resolve_rounds : ℕ → List SurveyOption → Text → Text × Bool
resolve_rounds zero os id = (id, false)
resolve_rounds (suc n) os id = elim (find_option id os) [
  | none ↦ (id, false)
  | some o ↦
      let rest = resolve_rounds n os o.merged_into in
      if moves_on o then rest else (o.id, is_approved o.status)
]

unfoldable pub resolve : Survey → Text → Text × Bool
resolve sv id = resolve_rounds (suc (length sv.options)) sv.options id

-- The second loop of `Ballot` and `BallotFor`: the respondent's own pending write-ins.
unfoldable pub own_pending : List SurveyOption → List Text → List SurveyOption
own_pending os [] = []
own_pending os (id ∷ ids) = elim (find_option id os) [
  | none ↦ own_pending os ids
  | some o ↦ let rest = own_pending os ids in if is_pending o.status then o ∷ rest else rest
]

unfoldable pub ballot : Survey → List Text → List SurveyOption
unfolding own_pending
ballot sv pend = filter (λ o. is_approved o.status) sv.options ++ own_pending sv.options pend

-- `shuffle` is the seeded math/rand/v2 shuffle.
unfoldable pub ballot_for :
    (shuffle : Text → List SurveyOption → List SurveyOption)
    → Survey
    → List Text
    → Text
    → List SurveyOption
ballot_for shuffle sv pend seed =
    let shown = ballot sv [] in
    (if randomize sv && ltb 1 (length shown) then shuffle seed shown else shown)
    ++ own_pending sv.options pend

-- Oldest first. Go's sort leaves the order of equal times open; here they keep theirs.
unfoldable pub pending_options : Survey → List SurveyOption
pending_options sv =
    sort_by (λ a b. not (ltb b.created a.created)) (filter (λ o. is_pending o.status) sv.options)
