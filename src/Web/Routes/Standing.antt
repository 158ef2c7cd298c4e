-- ===== src/Web/Routes/Standing.antt =====
-- Who can change what accounts may do, over every request that internal/web/server.go routes.
use quicksurvey.Base.{
  ◌⊎◌, inl, inr, ◌≡◌, refl, sym, ap, text_discrete, subst, true, false, arith, codes, same,
}
use quicksurvey.Accounts.{User, Role, viewer, editor, admin}
use quicksurvey.Accounts.Standing.{Keeps-refl}
use quicksurvey.Web.{
  Route, index, health, static, ballot, vote, write_in, results, invite_form, invite_claim,
  reset_form, reset_submit, login_form, login, logout, pending, password_form, password_change,
  dashboard, admin_survey, export, save, create, restore, edit_form, edit_save, set_state, moderate,
  delete, users, users_post, invites_post, Request, Reply, Server, Site, Chance,
}
use quicksurvey.Web.Gates.{UserHandler, require_role, has_prefix}
use quicksurvey.Web.Gates.Passed.{IsActive, require_role-IsPassed, require_role-IsActive}
use quicksurvey.Web.Respondents.{handle_ballot, handle_vote, handle_write_in, handle_public_results}
use quicksurvey.Web.Entry.{
  handle_index, handle_login_form, handle_login, handle_pending, handle_password_form,
  handle_password_change, handle_invite_form, handle_invite_claim, handle_reset_form, handle_reset,
}
use quicksurvey.Web.Overview.{
  handle_dashboard, handle_admin_survey, handle_edit_form, handle_export, handle_save_survey,
}
use quicksurvey.Web.Editing.{
  handle_create_survey, handle_edit_save, handle_set_state, handle_moderate, handle_delete_survey,
  handle_restore_survey,
}
use quicksurvey.Web.Administration.{handle_users, handle_users_post, handle_invites_post}
use quicksurvey.Web.Routes.{posts, takes, path_of, handler, behind, serve}
use quicksurvey.Web.Routes.Served.{served}
use quicksurvey.Web.Routes.Kept.{
  handle_ballot-Leaves, handle_vote-Leaves, handle_write_in-Leaves, handle_public_results-Leaves,
}
use quicksurvey.Web.Routes.Edited.{
  UserLeaves, handle_dashboard-Leaves, handle_admin_survey-Leaves, handle_edit_form-Leaves,
  handle_export-Leaves, handle_save_survey-Leaves, handle_create_survey-Leaves,
  handle_edit_save-Leaves, handle_set_state-Leaves, handle_moderate-Leaves,
  handle_delete_survey-Leaves, handle_restore_survey-Leaves, handle_users-Leaves,
  handle_pending-Leaves, handle_password_form-Leaves,
}
use quicksurvey.Web.Routes.Entered.{
  Spares, unwritten, of_accounts, of_Leaves, handle_index-Leaves, handle_login_form-Leaves,
  handle_login-Leaves, handle_invite_form-Leaves, handle_reset_form-Leaves, handle_logout-Spares,
  handle_password_change-Spares, handle_invite_claim-Spares, handle_reset-Spares,
  limit_login-Spares,
}

module _ (s : Server) where
  behind-Spares :
      (want : Role) (h : UserHandler s)
      → ((u : User) (site : Site s.rate) (req : Request) (chance : Chance)
          → Spares s site (h u site req chance))
      → (site : Site s.rate) (req : Request) (chance : Chance)
      → Spares s site (require_role s want h site req chance)
  behind-Spares want h spares site req chance =
      let r = require_role s want h site req chance in
      elim (require_role-IsPassed s want h site req chance) [
        | inl left ↦ unwritten s site r (ap (λ (x : Site s.rate). x.accounts) left)
        | inr (u, p, e) ↦
            of_accounts s site r (h u site req chance).1.accounts
              (ap (λ (x : Reply × Site s.rate). x.1.accounts) e) (spares u site req chance)
      ]

  behind-Leaves :
      (want : Role) (h : UserHandler s)
      → UserLeaves s h
      → (site : Site s.rate) (req : Request) (chance : Chance)
      → Spares s site (require_role s want h site req chance)
  behind-Leaves want h leaves = behind-Spares want h (λ u. of_Leaves s (h u) (leaves u))

  -- A post behind the gate for administrators, on a path of no other gate.
  behind-admin :
      (h : UserHandler s) (site : Site s.rate) (req : Request) (chance : Chance)
      → takes true req.method ≡ true
      → same req.path (codes "/account/pending") ≡ false
      → has_prefix req.path (codes "/account/password") ≡ false
      → Spares s site (require_role s admin h site req chance)
        ⊎ IsActive s admin site req chance.now
  unfolding takes
  behind-admin h site req chance posted waiting changing =
      let r = require_role s admin h site req chance in
      elim (require_role-IsActive s admin h site req chance (ground arith) waiting changing) [
        | inl left ↦ inl (unwritten s site r (ap (λ (x : Site s.rate). x.accounts) left))
        | inr active ↦ inr active
      ]

  routed :
      (route : Route) (site : Site s.rate) (req : Request) (chance : Chance)
      → req.path ≡ path_of route
      → takes (posts route) req.method ≡ true
      → Spares s site (behind s (handler s route) site req chance)
        ⊎ IsActive s admin site req chance.now
  unfolding posts path_of handler text_discrete
  routed index site req chance at posted =
      inl (of_Leaves s (handle_index s) (handle_index-Leaves s) site req chance)
  routed (ballot id) site req chance at posted =
      inl (of_Leaves s (handle_ballot s id) (handle_ballot-Leaves s id) site req chance)
  routed (vote id) site req chance at posted =
      inl (of_Leaves s (handle_vote s id) (handle_vote-Leaves s id) site req chance)
  routed (write_in id) site req chance at posted =
      inl (of_Leaves s (handle_write_in s id) (handle_write_in-Leaves s id) site req chance)
  routed (results id) site req chance at posted =
      inl (
        of_Leaves s (handle_public_results s id) (handle_public_results-Leaves s id) site req
          chance)
  routed (invite_form token) site req chance at posted =
      inl (
        of_Leaves s (handle_invite_form s token) (handle_invite_form-Leaves s token) site req
          chance)
  routed (reset_form token) site req chance at posted =
      inl
        (of_Leaves s (handle_reset_form s token) (handle_reset_form-Leaves s token) site req chance)
  routed login_form site req chance at posted =
      inl (of_Leaves s (handle_login_form s) (handle_login_form-Leaves s) site req chance)
  routed health site req chance at posted = inl (Keeps-refl site.accounts.users)
  routed (static file) site req chance at posted = inl (Keeps-refl site.accounts.users)
  routed (invite_claim token) site req chance at posted = inl (
      limit_login-Spares s (handle_invite_claim s token) (handle_invite_claim-Spares s token) site
        req chance)
  routed (reset_submit token) site req chance at posted =
      inl
        (limit_login-Spares s (handle_reset s token) (handle_reset-Spares s token) site req chance)
  routed login site req chance at posted = inl (
      limit_login-Spares s (handle_login s) (of_Leaves s (handle_login s) (handle_login-Leaves s))
        site req chance)
  routed logout site req chance at posted = inl (handle_logout-Spares s site req chance)
  routed password_change site req chance at posted = inl (
      behind-Spares viewer (handle_password_change s) (handle_password_change-Spares s) site req
        chance)
  routed pending site req chance at posted =
      inl (behind-Leaves viewer (handle_pending s) (handle_pending-Leaves s) site req chance)
  routed password_form site req chance at posted = inl (
      behind-Leaves viewer (handle_password_form s) (handle_password_form-Leaves s) site req chance)
  routed dashboard site req chance at posted =
      inl (behind-Leaves viewer (handle_dashboard s) (handle_dashboard-Leaves s) site req chance)
  routed (admin_survey id) site req chance at posted = inl (
      behind-Leaves viewer (handle_admin_survey s id) (handle_admin_survey-Leaves s id) site req
        chance)
  routed (export id kind) site req chance at posted = inl (
      behind-Leaves viewer (handle_export s id kind) (handle_export-Leaves s id kind) site req
        chance)
  routed create site req chance at posted = inl (
      behind-Leaves editor (handle_create_survey s) (handle_create_survey-Leaves s) site req chance)
  routed (save id kind) site req chance at posted = inl (
      behind-Leaves editor (handle_save_survey s id kind) (handle_save_survey-Leaves s id kind) site
        req chance)
  routed restore site req chance at posted = inl (
      behind-Leaves editor (handle_restore_survey s) (handle_restore_survey-Leaves s) site req
        chance)
  routed (edit_form id) site req chance at posted =
      inl (
        behind-Leaves editor (handle_edit_form s id) (handle_edit_form-Leaves s id) site req chance)
  routed (edit_save id) site req chance at posted =
      inl (
        behind-Leaves editor (handle_edit_save s id) (handle_edit_save-Leaves s id) site req chance)
  routed (set_state id) site req chance at posted =
      inl (
        behind-Leaves editor (handle_set_state s id) (handle_set_state-Leaves s id) site req chance)
  routed (moderate id) site req chance at posted =
      inl
        (behind-Leaves editor (handle_moderate s id) (handle_moderate-Leaves s id) site req chance)
  routed (delete id) site req chance at posted = inl (
      behind-Leaves editor (handle_delete_survey s id) (handle_delete_survey-Leaves s id) site req
        chance)
  routed users site req chance at posted =
      inl (behind-Leaves admin (handle_users s) (handle_users-Leaves s) site req chance)
  routed users_post site req chance at posted =
      behind-admin (handle_users_post s) site req chance posted
        (subst (λ p. same p (codes "/account/pending") ≡ false) (sym at) refl)
        (subst (λ p. has_prefix p (codes "/account/password") ≡ false) (sym at) refl)
  routed invites_post site req chance at posted =
      behind-admin (handle_invites_post s) site req chance posted
        (subst (λ p. same p (codes "/account/pending") ≡ false) (sym at) refl)
        (subst (λ p. has_prefix p (codes "/account/password") ≡ false) (sym at) refl)

-- A request that comes on its route's path leaves the role and the approval of every account as they
-- were, creates none but such as wait for approval, and deletes none, unless it carries the session
-- of an approved administrator, with no password to change, and that session's CSRF token.
pub serve-Keeps :
    (s : Server) (site : Site s.rate) (req : Request) (chance : Chance)
    → req.path ≡ path_of req.route
    → Spares s site (serve s site req chance) ⊎ IsActive s admin site req chance.now
serve-Keeps s site req chance at =
    let r = serve s site req chance in
    elim (served s site req chance) [
      | inl left ↦ inl (unwritten s site r (ap (λ (x : Site s.rate). x.accounts) left))
      | inr (taken, e) ↦ elim (routed s req.route site req chance at taken) [
        | inr administered ↦ inr administered
        | inl spared ↦ inl (
            of_accounts s site r (behind s (handler s req.route) site req chance).1.accounts
              (ap (λ (x : Reply × Site s.rate). x.1.accounts) e) spared)
      ]
    ]
