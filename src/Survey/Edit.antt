-- ===== src/Survey/Edit.antt =====
-- The editing functions of internal/store/survey.go: `SetOptionText`, `SetOptionStatus` and
-- `AddOption`. A fresh id is an argument, as `newID` draws it.
pub mod Chains
use quicksurvey.Base.{
  ℕ, leb, ltb, if◌then◌else◌, Bool, true, false, not, ◌||◌, Option, none, some, List, [], ◌∷◌, ◌++◌,
  length, Text, same, is_empty, trim_space, Result, ok, err, ◌>>=◌, ◌>>◌, require, or_fail,
  not_found, empty_text, text_too_long, too_many_options, bad_merge_target, merge_into_merged,
  unknown_status,
}
use quicksurvey.Survey.{
  SurveyOption, Survey, OptionStatus, approved, pending, rejected, removed, merged, find_option,
  is_merged,
}

abbrev pub max_option_text : ℕ
max_option_text = 200

abbrev pub max_options : ℕ
max_options = 500

abbrev pub is_some {ℓ} : {A : Type ℓ} → Option A → Bool
is_some none = false
is_some (some a) = true

-- The first option with the id is changed.
unfoldable pub update_first :
    Text → (SurveyOption → SurveyOption) → List SurveyOption → List SurveyOption
update_first id f [] = []
update_first id f (o ∷ os) =
    let rest = o ∷ update_first id f os in if same o.id id then f o ∷ os else rest

-- The last option with the id is changed: the scan of `SetOptionStatus` does not stop early.
unfoldable pub update_last :
    Text → (SurveyOption → SurveyOption) → List SurveyOption → List SurveyOption
update_last id f [] = []
update_last id f (o ∷ os) =
    let rest = o ∷ update_last id f os in
    if is_some (find_option id os) then rest else if same o.id id then f o ∷ os else rest

unfoldable pub set_option_text : Survey → Text → Text → Result Survey
set_option_text sv id raw = do
  let text = trim_space raw
  require (not (is_empty text)) empty_text
  require (leb (length text) max_option_text) text_too_long
  require (is_some (find_option id sv.options)) not_found
  ok (record sv { options = update_first id (λ o. record o { text = text }) sv.options })

-- The `switch`: the new status and merge target of the option, or the refusal.
unfoldable pub new_status : Survey → Text → OptionStatus → Text → Result (OptionStatus × Text)
new_status sv id approved into = ok (approved, [])
new_status sv id pending into = ok (pending, [])
new_status sv id rejected into = ok (rejected, [])
new_status sv id removed into = ok (removed, [])
new_status sv id merged into = do
  require (not (is_empty into || same into id)) bad_merge_target
  target ← or_fail (find_option into sv.options) not_found
  require (not (is_merged target.status)) merge_into_merged
  ok (merged, into)
new_status sv id (OptionStatus.other s) into = err unknown_status

abbrev pub with_status : OptionStatus × Text → SurveyOption → SurveyOption
with_status p o = record o { status = p.0; merged_into = p.1 }

unfoldable pub set_option_status : Survey → Text → OptionStatus → Text → Result Survey
unfolding new_status
set_option_status sv id status into = do
  require (is_some (find_option id sv.options)) not_found
  p ← new_status sv id status into
  ok (record sv { options = update_last id (with_status p) sv.options })

-- `AddOption`, with the id that `newID` draws and the time of the call.
unfoldable pub add_option :
    Survey → Text → OptionStatus → Text → (fresh : Text) (now : ℕ) → Result (Survey × Text)
add_option sv raw status source fresh now = do
  let text = trim_space raw
  require (not (is_empty text)) empty_text
  require (leb (length text) max_option_text) text_too_long
  require (ltb (length sv.options) max_options) too_many_options
  let o : SurveyOption = record {
    id = fresh;
    text = text;
    status = status;
    source = source;
    merged_into = [];
    created = now;
  }
  ok (record sv { options = sv.options ++ (o ∷ []) }, fresh)
