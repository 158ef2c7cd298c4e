-- ===== src/Web/Routes/Tabled.antt =====
-- The handlers of internal/web that leave the tables of surveys alone.
use quicksurvey.Base.{ℕ, inl, inr, ◌≡◌, refl, arith, Result-cases, trim_space, Text, codes}
use quicksurvey.Accounts.{User, set_password}
use quicksurvey.Accounts.Invites.{revoke_invite}
use quicksurvey.Web.{Request, Server, Site, Chance, Page, AdminSurveyData, form_value}
use quicksurvey.Web.Clients.{issue_token, voter_token, limit_allow}
use quicksurvey.Web.Gates.{Handler, UserHandler}
use quicksurvey.Web.Respondents.{handle_ballot, handle_public_results}
use quicksurvey.Web.Entry.{
  handle_index, handle_login_form, handle_login, handle_logout, handle_pending,
  handle_password_form, handle_password_change, password_changed, handle_invite_form,
  handle_invite_claim, handle_reset_form, handle_reset,
}
use quicksurvey.Web.Overview.{
  handle_dashboard, handle_admin_survey, handle_edit_form, handle_export, handle_save_survey,
  load_admin_survey,
}
use quicksurvey.Web.Administration.{
  handle_users, handle_users_post, handle_invites_post, change_reply, Change, refuses, makes,
  make_reset_link, create_link, change_account, change_of,
}

module _ (s : Server) where
  -- The tables of surveys are not written.
  abbrev pub Stays : Handler s → Type 0
  Stays h =
      (site : Site s.rate) (req : Request) (chance : Chance)
      → (h site req chance).1.tables ≡ site.tables

  abbrev pub UserStays : UserHandler s → Type 0
  UserStays h = (u : User) → Stays (h u)

  pub voter_token-tables :
      (site : Site s.rate) (req : Request) (chance : Chance)
      → (voter_token s site req chance).site.tables ≡ site.tables
  unfolding voter_token issue_token limit_allow
  voter_token-tables site req chance = ground arith

  password_changed-tables :
      (site : Site s.rate) (name : Text) (now : ℕ)
      → (password_changed s site name now).1.tables ≡ site.tables
  password_changed-tables site name now = ground arith

  change_reply-tables :
      (site : Site s.rate) (c : Change) → (change_reply s site c).1.tables ≡ site.tables
  change_reply-tables site (refuses m) = refl
  change_reply-tables site (makes db done) = refl

  make_reset_link-Stays : (name : Text) → UserStays (make_reset_link s name)
  unfolding make_reset_link
  make_reset_link-Stays name u site req chance = ground arith

  create_link-Stays : UserStays (create_link s)
  unfolding create_link
  create_link-Stays u site req chance = ground arith

  load_admin_survey-Stays :
      (p : AdminSurveyData → Page) (id : Text) → UserStays (load_admin_survey s p id)
  unfolding load_admin_survey
  load_admin_survey-Stays p id u site req chance = ground arith

  pub handle_index-Stays : Stays (handle_index s)
  unfolding handle_index
  handle_index-Stays site req chance = ground arith

  pub handle_ballot-Stays : (id : Text) → Stays (handle_ballot s id)
  unfolding handle_ballot
  handle_ballot-Stays id site req chance = ground (arith, voter_token-tables site req chance)

  pub handle_public_results-Stays : (id : Text) → Stays (handle_public_results s id)
  unfolding handle_public_results
  handle_public_results-Stays id site req chance = ground arith

  pub handle_login_form-Stays : Stays (handle_login_form s)
  unfolding handle_login_form
  handle_login_form-Stays site req chance = ground (arith, voter_token-tables site req chance)

  pub handle_login-Stays : Stays (handle_login s)
  unfolding handle_login
  handle_login-Stays site req chance = ground arith

  pub handle_logout-Stays : Stays (handle_logout s)
  unfolding handle_logout
  handle_logout-Stays site req chance = ground arith

  pub handle_invite_form-Stays : (token : Text) → Stays (handle_invite_form s token)
  unfolding handle_invite_form
  handle_invite_form-Stays token site req chance =
      ground (arith, voter_token-tables site req chance)

  pub handle_invite_claim-Stays : (token : Text) → Stays (handle_invite_claim s token)
  unfolding handle_invite_claim
  handle_invite_claim-Stays token site req chance = ground arith

  pub handle_reset_form-Stays : (token : Text) → Stays (handle_reset_form s token)
  unfolding handle_reset_form
  handle_reset_form-Stays token site req chance = ground (arith, voter_token-tables site req chance)

  pub handle_reset-Stays : (token : Text) → Stays (handle_reset s token)
  unfolding handle_reset
  handle_reset-Stays token site req chance = ground arith

  pub handle_pending-Stays : UserStays (handle_pending s)
  unfolding handle_pending
  handle_pending-Stays u site req chance = refl

  pub handle_password_form-Stays : UserStays (handle_password_form s)
  unfolding handle_password_form
  handle_password_form-Stays u site req chance = refl

  pub handle_password_change-Stays : UserStays (handle_password_change s)
  unfolding handle_password_change
  handle_password_change-Stays u site req chance =
      let next = form_value req.form (codes "new") in
      elim (Result-cases
        (set_password site.accounts u.name next (s.hash chance.salt next) chance.now)) [
          | inr (x, e) ↦ ground (arith, e)
          | inl (db, e) ↦
              ground (
                arith,
                e,
                password_changed-tables (record site { accounts = db }) u.name chance.now,
              )
        ]

  pub handle_dashboard-Stays : UserStays (handle_dashboard s)
  unfolding handle_dashboard
  handle_dashboard-Stays u site req chance = refl

  pub handle_admin_survey-Stays : (id : Text) → UserStays (handle_admin_survey s id)
  unfolding handle_admin_survey
  handle_admin_survey-Stays id u site req chance =
      load_admin_survey-Stays Page.admin_survey id u site req chance

  pub handle_edit_form-Stays : (id : Text) → UserStays (handle_edit_form s id)
  unfolding handle_edit_form
  handle_edit_form-Stays id u site req chance =
      load_admin_survey-Stays Page.edit id u site req chance

  pub handle_export-Stays : (id kind : Text) → UserStays (handle_export s id kind)
  unfolding handle_export
  handle_export-Stays id kind u site req chance = ground arith

  pub handle_save_survey-Stays : (id kind : Text) → UserStays (handle_save_survey s id kind)
  unfolding handle_save_survey
  handle_save_survey-Stays id kind u site req chance = ground arith

  pub handle_users-Stays : UserStays (handle_users s)
  unfolding handle_users
  handle_users-Stays u site req chance = refl

  pub handle_users_post-Stays : UserStays (handle_users_post s)
  unfolding handle_users_post
  handle_users_post-Stays u site req chance =
      let action = form_value req.form (codes "action") in
      let name = trim_space (form_value req.form (codes "username")) in
      ground (
        arith,
        make_reset_link-Stays name u site req chance,
        change_reply-tables site (change_account site.accounts u req.form action name),
      )

  pub handle_invites_post-Stays : UserStays (handle_invites_post s)
  unfolding handle_invites_post
  handle_invites_post-Stays u site req chance =
      let id = form_value req.form (codes "id") in
      ground (
        arith,
        create_link-Stays u site req chance,
        change_reply-tables site
            (change_of (codes "Invitation link revoked.") (revoke_invite site.accounts id)),
      )
