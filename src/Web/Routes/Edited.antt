-- ===== src/Web/Routes/Edited.antt =====
-- The handlers of internal/web/admin.go that leave the accounts alone.
use quicksurvey.Base.{refl, arith, Text}
use quicksurvey.Accounts.{User}
use quicksurvey.Web.{Server, Page, AdminSurveyData}
use quicksurvey.Web.Gates.{UserHandler}
use quicksurvey.Web.Overview.{
  handle_dashboard, handle_admin_survey, handle_edit_form, handle_export, handle_save_survey,
  load_admin_survey,
}
use quicksurvey.Web.Editing.{
  handle_create_survey, handle_edit_save, handle_set_state, handle_moderate, handle_delete_survey,
  handle_restore_survey, enter_state,
}
use quicksurvey.Web.Administration.{handle_users}
use quicksurvey.Web.Entry.{handle_pending, handle_password_form}
use quicksurvey.Web.Routes.Kept.{Leaves}

module _ (s : Server) where
  -- What a handler for an account does with the accounts.
  abbrev pub UserLeaves : UserHandler s → Type 0
  UserLeaves h = (u : User) → Leaves s (h u)

  pub handle_dashboard-Leaves : UserLeaves (handle_dashboard s)
  unfolding handle_dashboard
  handle_dashboard-Leaves u site req chance = refl

  load_admin_survey-Leaves :
      (p : AdminSurveyData → Page) (id : Text) → UserLeaves (load_admin_survey s p id)
  unfolding load_admin_survey
  load_admin_survey-Leaves p id u site req chance = ground arith

  pub handle_admin_survey-Leaves : (id : Text) → UserLeaves (handle_admin_survey s id)
  unfolding handle_admin_survey
  handle_admin_survey-Leaves id u site req chance =
      load_admin_survey-Leaves Page.admin_survey id u site req chance

  pub handle_edit_form-Leaves : (id : Text) → UserLeaves (handle_edit_form s id)
  unfolding handle_edit_form
  handle_edit_form-Leaves id u site req chance =
      load_admin_survey-Leaves Page.edit id u site req chance

  pub handle_export-Leaves : (id kind : Text) → UserLeaves (handle_export s id kind)
  unfolding handle_export
  handle_export-Leaves id kind u site req chance = ground arith

  pub handle_save_survey-Leaves : (id kind : Text) → UserLeaves (handle_save_survey s id kind)
  unfolding handle_save_survey
  handle_save_survey-Leaves id kind u site req chance = ground arith

  pub handle_create_survey-Leaves : UserLeaves (handle_create_survey s)
  unfolding handle_create_survey
  handle_create_survey-Leaves u site req chance = ground arith

  pub handle_edit_save-Leaves : (id : Text) → UserLeaves (handle_edit_save s id)
  unfolding handle_edit_save
  handle_edit_save-Leaves id u site req chance = ground arith

  pub handle_set_state-Leaves : (id : Text) → UserLeaves (handle_set_state s id)
  unfolding handle_set_state enter_state
  handle_set_state-Leaves id u site req chance = ground arith

  pub handle_moderate-Leaves : (id : Text) → UserLeaves (handle_moderate s id)
  unfolding handle_moderate
  handle_moderate-Leaves id u site req chance = ground arith

  pub handle_delete_survey-Leaves : (id : Text) → UserLeaves (handle_delete_survey s id)
  unfolding handle_delete_survey
  handle_delete_survey-Leaves id u site req chance = ground arith

  pub handle_restore_survey-Leaves : UserLeaves (handle_restore_survey s)
  unfolding handle_restore_survey
  handle_restore_survey-Leaves u site req chance = ground arith

  pub handle_users-Leaves : UserLeaves (handle_users s)
  unfolding handle_users
  handle_users-Leaves u site req chance = refl

  pub handle_pending-Leaves : UserLeaves (handle_pending s)
  unfolding handle_pending
  handle_pending-Leaves u site req chance = refl

  pub handle_password_form-Leaves : UserLeaves (handle_password_form s)
  unfolding handle_password_form
  handle_password_form-Leaves u site req chance = refl
