-- ===== src/Web/Editing.antt =====
-- The survey handlers of internal/web/admin.go that editors use: create, edit, state, moderation,
-- deletion and restore, with `ReadSurveyDocument` of internal/store/portable.go.
--
-- `ParseForm` has been done and did not fail. `decode_header` and `decode_document` are
-- encoding/json's two readings of an uploaded file.
use quicksurvey.Base.{
  ℕ, ◌==◌, ltb, if◌then◌else◌, Bool, false, not, Option, none, some, ◌++◌, Text, codes, same,
  is_empty, trim_space, Result, ok, err, ◌>>=◌, ◌>>◌, or_fail, not_json,
}
use quicksurvey.Survey.{Survey, SurveyState, opened}
use quicksurvey.Tables.{Tables, load_survey}
use quicksurvey.Surveys.{create_survey, update_survey, delete_survey}
use quicksurvey.Response.Save.{publish}
use quicksurvey.Response.Reads.{count}
use quicksurvey.Documents.{check_doc_header}
use quicksurvey.Documents.Restore.{Draws, restore_survey}
use quicksurvey.Web.{
  Reply, Server, Site, Message, text, failure, fail, see_other, says, complains, form_value,
}
use quicksurvey.Web.Sessions.{split_at}
use quicksurvey.Web.Gates.{UserHandler}
use quicksurvey.Web.Forms.{with_ids, edited, state_named, moderated, moderation_text}

abbrev pub admin_survey_url : Text → Text
admin_survey_url id = codes "/admin/s/" ++ id

abbrev edit_url : Text → Text
edit_url id = admin_survey_url id ++ codes "/edit"

abbrev pub plural : ℕ → (one many : Text) → Text
plural n one many = if n == 1 then one else many

module _ (s : Server) where
  -- The site after a transaction, and the redirect that says how it went.
  abbrev pub told : Site s.rate → (url done : Text) → Result (Survey × Tables) → Reply × Site s.rate
  told site url done (ok r) = (says done (see_other url), record site { tables = r.1 })
  told site url done (err e) = (complains (failure e) (see_other url), site)

  unfoldable pub handle_create_survey : UserHandler s
  unfolding split_at with_ids
  handle_create_survey me site req chance =
      let lines = with_ids chance.id 1 (split_at 10 (form_value req.form (codes "options"))) in
      elim (create_survey site.tables (form_value req.form (codes "title"))
        (form_value req.form (codes "description")) lines (chance.id 0) chance.now) [
          | err e ↦ (complains (failure e) (see_other (codes "/admin/")), site)
          | ok r ↦ (
            says
                (codes
                  "Survey created as a draft. Publish it when you are ready to share the link.")
                (see_other (edit_url r.0.id)),
            record site { tables = r.1 },
          )
        ]

  -- The layouts are tried in turn; no time is 0.
  unfoldable pub parse_close_at : Text → Option ℕ
  parse_close_at v =
      if is_empty (trim_space v) then some 0 else elim (s.parse_time (codes "2006-01-02T15:04") v) [
        | some t ↦ some t
        | none ↦ s.parse_time (codes "2006-01-02T15:04:05") v
      ]

  unfoldable pub handle_edit_save : (id : Text) → UserHandler s
  unfolding parse_close_at edited with_ids
  handle_edit_save id me site req chance =
      let v = form_value req.form (codes "close_at") in
      elim (parse_close_at v) [
        | none ↦ (
          complains (text (codes "could not understand the close time " ++ s.quote v))
              (see_other (edit_url id)),
          site,
        )
        | some close_at ↦ told site (edit_url id) (codes "Saved.") (
            update_survey site.tables id (edited req.form close_at chance.id chance.now) chance.now)
      ]

  abbrev pub opened_text : ℕ → Text
  opened_text n =
      if ltb 0 n
      then codes "Survey is now open. "
        ++ s.print_nat n
        ++ codes " test "
        ++ plural n (codes "response") (codes "responses")
        ++ codes " from the draft "
        ++ plural n (codes "was") (codes "were")
        ++ codes " discarded."
      else codes "Survey is now open."

  -- What `handleSetState` does with a state it takes.
  unfoldable pub enter_state :
      (id word : Text) → SurveyState → Site s.rate → (now : ℕ) → Reply × Site s.rate
  enter_state id word opened site now = elim (publish site.tables id now) [
    | err e ↦ (complains (failure e) (see_other (admin_survey_url id)), site)
    | ok r ↦
        (says (opened_text r.0) (see_other (admin_survey_url id)), record site { tables = r.1 })
  ]
  enter_state id word state site now =
      told site (admin_survey_url id) (codes "Survey is now " ++ word ++ codes ".")
        (update_survey site.tables id (λ sv. ok (record sv { state = state })) now)

  unfoldable pub handle_set_state : (id : Text) → UserHandler s
  unfolding enter_state state_named
  handle_set_state id me site req chance =
      let word = form_value req.form (codes "state") in
      elim (state_named word) [
        | none ↦ (fail 400 (text (codes "unknown survey state")), site)
        | some state ↦ enter_state id word state site chance.now
      ]

  unfoldable pub handle_moderate : (id : Text) → UserHandler s
  unfolding moderated
  handle_moderate id me site req chance =
      let action = form_value req.form (codes "action") in
      let opt = form_value req.form (codes "option") in
      let into = form_value req.form (codes "merge_into") in
      told site (admin_survey_url id) (moderation_text action) (
        update_survey site.tables id
          (moderated action opt (form_value req.form (codes "text")) into) chance.now)

  -- The title has to be typed; without a survey no title fits.
  abbrev pub confirms : Option Survey → Text → Bool
  confirms none typed = false
  confirms (some sv) typed = same (trim_space typed) sv.title

  unfoldable pub handle_delete_survey : (id : Text) → UserHandler s
  handle_delete_survey id me site req chance =
      if not (confirms (load_survey site.tables id) (form_value req.form (codes "confirm")))
      then (
        complains
            (text (codes "Not deleted: the confirmation text did not match the survey title."))
            (see_other (admin_survey_url id)),
        site,
      )
      else elim (delete_survey site.tables id) [
        | err e ↦ (complains (failure e) (see_other (admin_survey_url id)), site)
        | ok db ↦ (
          says (codes "Survey and all of its responses were deleted.")
              (see_other (codes "/admin/")),
          record site { tables = db },
        )
      ]

  unfoldable pub read_survey_document :
      Tables → (body : Text) → (keep_id : Bool) → Draws → (now : ℕ) → Result (Survey × Tables)
  read_survey_document db body keep_id draws now = do
    head ← or_fail (s.decode_header body) not_json
    check_doc_header head.0 head.1
    doc ← or_fail (s.decode_document body) not_json
    restore_survey db doc keep_id draws now

  abbrev pub not_restored : Site s.rate → Message → Reply × Site s.rate
  not_restored site m = (complains m (see_other (codes "/admin/")), site)

  abbrev pub restored_text : Survey → (keep_id : Bool) → ℕ → Text
  restored_text sv keep_id n =
      if keep_id
      then codes "Restored "
        ++ s.quote sv.title
        ++ codes " under its original link, with "
        ++ s.print_nat n
        ++ codes " "
        ++ plural n (codes "response") (codes "responses")
        ++ codes "."
      else codes "Restored "
        ++ s.quote sv.title
        ++ codes " as a new draft. It has its own link, and no responses."

  unfoldable pub handle_restore_survey : UserHandler s
  unfolding read_survey_document
  handle_restore_survey me site req chance =
      let keep_id = not (is_empty (form_value req.form (codes "keep_id"))) in
      elim req.file [
        | none ↦ not_restored site (text (codes "Choose a saved survey file to restore."))
        | some body ↦
            elim (read_survey_document site.tables body keep_id chance.restore chance.now) [
              | err e ↦ not_restored site (failure e)
              | ok r ↦ (
                says (restored_text r.0 keep_id (count r.1 r.0.id))
                    (see_other (admin_survey_url r.0.id)),
                record site { tables = r.1 },
              )
            ]
      ]
