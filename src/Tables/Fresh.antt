-- ===== src/Tables/Fresh.antt =====
-- What `loadSurvey` of internal/store/survey.go reads after `saveSurvey` wrote a survey that was not there.
use quicksurvey.Base.{
  ℕ, suc, ◌≤◌, ◌≡◌, refl, ◌∙◌, sym, ap, inl, inr, Bool-cases, true, false, ◌≢◌, leb, none, some,
  List, [], ◌∷◌, ◌++◌, map, filter, filter-append, insert_by, sort_by, length, All, Text, same,
  same_refl, arith, ok,
}
use mathlib.Core.List.{append-nil, append_assoc}
use quicksurvey.Survey.{SurveyOption, Survey, is_opened}
use quicksurvey.Survey.Edit.{max_options}
use quicksurvey.Tables.{
  OptionRow, Tables, find_survey, load_options, load_survey, stamp, upsert_survey, upsert_option,
  upsert_options, save_survey,
}

-- No two options have one id.
abbrev pub OptionsApart : List SurveyOption → Type 0
OptionsApart [] = Unit {0}
OptionsApart (o ∷ os) = All (λ q. same o.id q.id ≡ false) os × OptionsApart os

-- No row has the id of the option.
abbrev pub IsNew : List OptionRow → SurveyOption → Type 0
IsNew rows o = All (λ r. same r.option.id o.id ≡ false) rows

abbrev numbered : Text → ℕ → List SurveyOption → List OptionRow
numbered sid i [] = []
numbered sid i (o ∷ os) =
    record { survey_id = sid; position = i; option = o } ∷ numbered sid (suc i) os

upsert_option_new :
    (sid : Text) (i : ℕ) (o : SurveyOption) (rows : List OptionRow)
    → IsNew rows o
    → upsert_option sid i o rows
      ≡ rows ++ (record { survey_id = sid; position = i; option = o } ∷ [])
unfolding upsert_option
upsert_option_new sid i o [] h = refl
upsert_option_new sid i o (r ∷ rows) h = ground (arith, h.0, upsert_option_new sid i o rows h.1)

IsNew-snoc :
    (sid : Text) (i : ℕ) (o q : SurveyOption) (rows : List OptionRow)
    → same o.id q.id ≡ false
    → IsNew rows q
    → IsNew (rows ++ (record { survey_id = sid; position = i; option = o } ∷ [])) q
IsNew-snoc sid i o q [] h k = (h, tt)
IsNew-snoc sid i o q (r ∷ rows) h k = (k.0, IsNew-snoc sid i o q rows h k.1)

all-IsNew :
    (sid : Text) (i : ℕ) (o : SurveyOption) (os : List SurveyOption) (rows : List OptionRow)
    → All (λ q. same o.id q.id ≡ false) os
    → All (IsNew rows) os
    → All (IsNew (rows ++ (record { survey_id = sid; position = i; option = o } ∷ []))) os
all-IsNew sid i o [] rows h k = tt
all-IsNew sid i o (q ∷ os) rows h k =
    (IsNew-snoc sid i o q rows h.0 k.0, all-IsNew sid i o os rows h.1 k.1)

upsert_options_new :
    (sid : Text) (i : ℕ) (os : List SurveyOption) (rows : List OptionRow)
    → OptionsApart os
    → All (IsNew rows) os
    → upsert_options sid i os rows ≡ rows ++ numbered sid i os
unfolding upsert_options
upsert_options_new sid i [] rows d h = sym (append-nil rows)
upsert_options_new sid i (o ∷ os) rows d h =
    let row : OptionRow = record { survey_id = sid; position = i; option = o } in
    ap (upsert_options sid (suc i) os) (upsert_option_new sid i o rows h.0)
    ∙ upsert_options_new sid (suc i) os (rows ++ (row ∷ [])) d.1 (all-IsNew sid i o os rows d.0 h.1)
    ∙ append_assoc rows (row ∷ []) (numbered sid (suc i) os)

filter_others :
    (sid : Text) (rows : List OptionRow)
    → All (λ r. same r.survey_id sid ≡ false) rows
    → filter (λ r. same r.survey_id sid) rows ≡ []
unfolding filter
filter_others sid [] h = refl
filter_others sid (r ∷ rows) h = ground (arith, h.0, filter_others sid rows h.1)

filter-numbered :
    (sid : Text) (i : ℕ) (os : List SurveyOption)
    → filter (λ r. same r.survey_id sid) (numbered sid i os) ≡ numbered sid i os
unfolding filter
filter-numbered sid i [] = refl
filter-numbered sid i (o ∷ os) = ground (arith, same_refl sid, filter-numbered sid (suc i) os)

sort-numbered :
    (sid : Text) (i : ℕ) (os : List SurveyOption)
    → sort_by (λ a b. leb a.position b.position) (numbered sid i os) ≡ numbered sid i os
unfolding sort_by
sort-numbered sid i [] = refl
sort-numbered sid i (o ∷ []) = unfold insert_by in refl
sort-numbered sid i (o ∷ p ∷ os) =
    let rest = sort-numbered sid (suc i) (p ∷ os) in
    let row : OptionRow = record { survey_id = sid; position = i; option = o } in
    ap (insert_by (λ a b. leb a.position b.position) row) rest ∙ unfold insert_by in ground arith

map-numbered :
    (sid : Text) (i : ℕ) (os : List SurveyOption) → map (λ r. r.option) (numbered sid i os) ≡ os
map-numbered sid i [] = refl
map-numbered sid i (o ∷ os) = ap (λ l. o ∷ l) (map-numbered sid (suc i) os)

find_new :
    (sv : Survey) (rs : List Survey)
    → find_survey sv.id rs ≡ none
    → find_survey sv.id (upsert_survey sv rs) ≡ some (record sv { options = [] })
unfolding find_survey upsert_survey
find_new sv [] h = ground (arith, same_refl sv.id)
find_new sv (r ∷ rs) h = elim (Bool-cases (same r.id sv.id)) [
  | inl there ↦ absurd (ground arith)
  | inr other ↦ ground (arith, find_new sv rs)
]

pub stamp_stamped :
    (sv : Survey) (now : ℕ)
    → (is_opened sv.state ≡ true → sv.first_opened_at ≢ 0)
    → stamp sv now ≡ sv
unfolding stamp
stamp_stamped sv now h = elim (Bool-cases (is_opened sv.state)) [
  | inl open_now ↦ ground (arith, h open_now)
  | inr shut ↦ ground arith
]

-- A survey that is saved where it was not, within the bound on its options, is loaded as it is.
pub load-save_survey_new :
    (db : Tables) (sv : Survey) (now : ℕ)
    → find_survey sv.id db.surveys ≡ none
    → (is_opened sv.state ≡ true → sv.first_opened_at ≢ 0)
    → length sv.options ≤ max_options
    → OptionsApart sv.options
    → All (IsNew db.options) sv.options
    → All (λ r. same r.survey_id sv.id ≡ false) db.options
    → (saved : Tables) × (save_survey db sv now ≡ ok saved)
      × (load_survey saved sv.id ≡ some sv)
      × (saved.responses ≡ db.responses)
      × (saved.choices ≡ db.choices)
      × (saved.seen ≡ db.seen)
unfolding save_survey
load-save_survey_new db sv now gone first few apart new none_there =
    let st = stamp_stamped sv now first in
    let rows : load_options (upsert_options sv.id 0 sv.options db.options) sv.id ≡ sv.options =
      unfold load_options in
      ap (λ l. map (λ r. r.option) (sort_by (λ a b. leb a.position b.position) l))
        (ap (filter (λ r. same r.survey_id sv.id))
            (upsert_options_new sv.id 0 sv.options db.options apart new)
          ∙ filter-append (λ r. same r.survey_id sv.id) db.options (numbered sv.id 0 sv.options)
          ∙ ap (λ l. l ++ filter (λ r. same r.survey_id sv.id) (numbered sv.id 0 sv.options))
              (filter_others sv.id db.options none_there)
          ∙ filter-numbered sv.id 0 sv.options)
      ∙ ap (map (λ r. r.option)) (sort-numbered sv.id 0 sv.options)
      ∙ map-numbered sv.id 0 sv.options in
    let found : find_survey sv.id (upsert_survey (stamp sv now) db.surveys)
        ≡ some (record sv { options = [] }) =
      rw st (find_new sv db.surveys gone) in
    (
      record db {
        surveys = upsert_survey (stamp sv now) db.surveys;
        options = upsert_options sv.id 0 sv.options db.options;
      },
      ground arith,
      unfold load_survey in
          rw (load_survey, found) (ap (λ os. some (record sv { options = os })) rows),
      refl,
      refl,
      refl,
    )
