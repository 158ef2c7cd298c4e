-- ===== src/Tests/Surveys.antt =====
-- Merge chains, edits and saves of the sample survey.
use quicksurvey.Base.{
  ℕ, zero, suc, ◌≤◌, ◌≡◌, refl, inl, inr, true, false, Option, none, some, [], ◌∷◌, Text, codes, ok,
  err, arith,
}
use quicksurvey.Survey.{Survey, OptionStatus, approved, merged, resolve, SurveyOption}
use quicksurvey.Survey.Merge.{Ends, IsAcyclic, resolve-Ends, Ends-resolve}
use quicksurvey.Survey.Edit.Chains.{set_option_status-IsAcyclic, add_option-IsAcyclic}
use quicksurvey.Tables.{Tables, load_survey}
use quicksurvey.Tally.{responses}
use quicksurvey.Surveys.{create_survey, delete_survey, new_options}
use quicksurvey.Surveys.Discarded.{RowsApart, delete_survey-responses}
use quicksurvey.Tests.Samples.{tea, chai, char, coffee, drinks, tables, program}

-- A vote for "char" counts for "tea".
resolve_char : resolve drinks (codes "char") ≡ (codes "tea", true)
unfolding program
resolve_char = refl

resolve-Ends_example : resolve drinks (codes "char") ≡ (codes "tea", true)
unfolding program
resolve-Ends_example =
    resolve-Ends drinks 2 (codes "char") (codes "tea", true)
      (char, refl, refl, (chai, refl, refl, inr (tea, refl, refl, refl)))

Ends-resolve_example : (n : ℕ) × (n ≤ 4) × Ends drinks.options n (codes "char") (codes "tea", true)
unfolding program
Ends-resolve_example = Ends-resolve drinks (codes "char") (codes "tea") refl

abbrev empty : Survey
empty = record drinks { options = [] }

abbrev tea_as : Text → OptionStatus → Text → SurveyOption
tea_as id status into = record {
  id = id;
  text = codes "tea";
  status = status;
  source = codes "editor";
  merged_into = into;
  created = 7;
}

abbrev first : Survey
first = record drinks { options = tea_as (codes "o1") approved [] ∷ [] }

abbrev both : Survey
both = record drinks {
  options = tea_as (codes "o1") approved [] ∷ tea_as (codes "o2") approved [] ∷ [];
}

abbrev folded : Survey
folded = record drinks {
  options = tea_as (codes "o1") approved [] ∷ tea_as (codes "o2") merged (codes "o1") ∷ [];
}

empty-IsAcyclic : IsAcyclic []
unfolding program
empty-IsAcyclic id = (0, (id, false), inl (refl, refl))

first-IsAcyclic : IsAcyclic first.options
unfolding program
first-IsAcyclic =
    add_option-IsAcyclic empty (codes "tea") approved (codes "editor") (codes "o1") 7
      empty-IsAcyclic refl

both-IsAcyclic : IsAcyclic both.options
unfolding program
both-IsAcyclic =
    add_option-IsAcyclic first (codes " tea ") approved (codes "editor") (codes "o2") 7
      first-IsAcyclic refl

set_option_status-IsAcyclic_example : IsAcyclic folded.options
unfolding program
set_option_status-IsAcyclic_example =
    set_option_status-IsAcyclic both (codes "o2") merged (codes "o1") both-IsAcyclic refl

-- A second survey one of whose options has the id of an option of the first.
abbrev clash : Survey
clash = record drinks { id = codes "s2"; options = record coffee { id = codes "tea" } ∷ [] }

abbrev clashed : Tables
clashed = record tables {
  surveys = record drinks { options = [] } ∷ record clash { options = [] } ∷ [];
}

abbrev without_drinks : Tables
without_drinks = record { surveys = []; options = []; responses = []; choices = []; seen = [] }

tables-RowsApart : RowsApart tables.responses
tables-RowsApart = (tt, tt)

delete_survey-responses_example :
    (load_survey without_drinks (codes "s1") ≡ none)
    × (responses without_drinks (codes "s1") ≡ [])
    × (load_survey without_drinks (codes "s2") ≡ load_survey tables (codes "s2"))
    × (responses without_drinks (codes "s2") ≡ responses tables (codes "s2"))
unfolding program delete_survey
delete_survey-responses_example =
    delete_survey-responses tables without_drinks (codes "s1") (codes "s2") tables-RowsApart
      (ground arith) refl

-- Text of an option of a new survey is not bounded.
abbrev long : ℕ → Text
long zero = []
long (suc n) = 97 ∷ long n

abbrev created : Option Text
created = elim (create_survey tables (codes "t") [] ((codes "o1", long 201) ∷ []) (codes "s9") 1) [
  | err e ↦ none
  | ok r ↦ elim r.0.options [ [] ↦ none | o ∷ os ↦ some o.text ]
]

long_created : created ≡ some (long 201)
unfolding program create_survey new_options
long_created = refl
