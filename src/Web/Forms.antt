-- ===== src/Web/Forms.antt =====
-- The functions that `handleEditSave`, `handleSetState` and `handleModerate` of internal/web/admin.go give
-- to `UpdateSurvey`, and what they read from a form.
use quicksurvey.Base.{
  ℕ, suc, if◌then◌else◌, Bool, true, false, not, ◌&&◌, ◌||◌, Option, none, some, List, [], ◌∷◌,
  ◌++◌, map, Text, codes, same, is_empty, trim_space, Result, ok, err, ◌>>=◌, ◌>>◌, require,
  needs_title, unknown_action,
}
use quicksurvey.Survey.{
  SurveyOption, Survey, OptionStatus, approved, pending, rejected, removed, merged, SurveyState,
  draft, opened, closed,
}
use quicksurvey.Survey.Edit.{set_option_text, set_option_status, add_option}
use quicksurvey.Web.{form_value, form_values}

-- The lines of a form field, each with the id that would be drawn for it.
unfoldable pub with_ids : (ℕ → Text) → ℕ → List Text → List (Text × Text)
with_ids draw i [] = []
with_ids draw i (t ∷ ts) = (draw i, t) ∷ with_ids draw (suc i) ts

-- The body of the loop over the options in `handleEditSave`.
abbrev pub is_moderated : OptionStatus → Bool
is_moderated pending = true
is_moderated merged = true
is_moderated rejected = true
is_moderated _ = false

unfoldable pub edit_option : List (Text × Text) → SurveyOption → SurveyOption
edit_option form o =
    let typed = trim_space (form_value form (codes "opt_" ++ o.id)) in
    let gone = not (is_empty (form_value form (codes "remove_" ++ o.id))) in
    if is_moderated o.status then o else record o {
      text = if is_empty typed then o.text else typed;
      status = if gone then removed else approved;
    }

-- The loop over the new options.
unfoldable pub add_options : Survey → List (Text × Text) → (now : ℕ) → Result Survey
add_options sv [] now = ok sv
add_options sv ((fresh, raw) ∷ lines) now = do
  next ←
      (if is_empty (trim_space raw)
        then ok sv
        else do added ← add_option sv raw approved (codes "editor") fresh now; ok added.0)
  add_options next lines now

-- The function that `handleEditSave` gives to `UpdateSurvey`.
unfoldable pub edited :
    List (Text × Text) → (close_at : ℕ) → (draw : ℕ → Text) (now : ℕ) → Survey → Result Survey
unfolding edit_option add_options
edited form close_at draw now sv = do
  let title = trim_space (form_value form (codes "title"))
  require (not (is_empty title)) needs_title
  let out : Survey = record sv {
    title = title;
    description = trim_space (form_value form (codes "description"));
    show_results = not (is_empty (form_value form (codes "show_results")));
    allow_write_in = not (is_empty (form_value form (codes "allow_write_in")));
    allow_comment = not (is_empty (form_value form (codes "allow_comment")));
    no_randomize = is_empty (form_value form (codes "randomize"));
    close_at = close_at;
    options = map (edit_option form) sv.options;
  }
  add_options out (with_ids draw 0 (form_values form (codes "newopt"))) now

-- The states that `handleSetState` takes.
unfoldable pub state_named : Text → Option SurveyState
state_named t =
    if same t (codes "draft")
    then some draft
    else if same t (codes "open")
    then some opened
    else if same t (codes "closed")
    then some closed
    else none

-- The function that `handleModerate` gives to `UpdateSurvey`, its `switch`, and its messages.
unfoldable pub set_moderated : (action opt into : Text) → Survey → Result Survey
set_moderated action opt into sv =
    if same action (codes "approve") || same action (codes "restore")
    then set_option_status sv opt approved []
    else if same action (codes "reject")
    then set_option_status sv opt rejected []
    else if same action (codes "remove")
    then set_option_status sv opt removed []
    else if same action (codes "merge")
    then set_option_status sv opt merged into
    else err unknown_action

unfoldable pub moderated : (action opt raw into : Text) → Survey → Result Survey
unfolding set_moderated
moderated action opt raw into sv = do
  let named = not (is_empty (trim_space raw)) && not (same action (codes "merge"))
  worded ← (if named then set_option_text sv opt (trim_space raw) else ok sv)
  set_moderated action opt into worded

abbrev pub moderation_text : Text → Text
moderation_text action =
    if same action (codes "approve")
    then codes "Suggestion approved; votes for it now count."
    else if same action (codes "reject")
    then codes "Suggestion rejected."
    else if same action (codes "merge")
    then codes "Suggestion merged; its votes moved to the option you chose."
    else if same action (codes "remove")
    then codes "Option removed from the survey."
    else if same action (codes "restore")
    then codes "Option restored."
    else []
