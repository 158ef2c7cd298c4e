-- ===== src/Web/Routes/Authoring.antt =====
-- Who can change surveys, over every request that internal/web/server.go routes.
use quicksurvey.Base.{
  ◌⊎◌, inl, inr, ◌≡◌, refl, ◌∙◌, sym, ap, subst, text_discrete, true, false, none, arith, codes,
  same,
}
use quicksurvey.Accounts.{Role, viewer, editor, admin}
use quicksurvey.Tables.Authored.{IsKeyed, decided_of}
use quicksurvey.Response.Authored.{Spared, Spared-refl}
use quicksurvey.Web.{
  Route, index, health, static, ballot, vote, write_in, results, invite_form, invite_claim,
  reset_form, reset_submit, login_form, login, logout, pending, password_form, password_change,
  dashboard, admin_survey, export, save, create, restore, edit_form, edit_save, set_state, moderate,
  delete, users, users_post, invites_post, Request, Reply, Server, Site, Chance,
}
use quicksurvey.Web.Clients.{limit_ok, client_key}
use quicksurvey.Web.Gates.{Handler, UserHandler, require_role, limit_login, has_prefix}
use quicksurvey.Web.Gates.Passed.{IsActive, require_role-IsPassed, require_role-IsActive}
use quicksurvey.Web.Respondents.{handle_ballot, handle_public_results}
use quicksurvey.Web.Entry.{
  handle_index, handle_login_form, handle_login, handle_logout, handle_pending,
  handle_password_form, handle_password_change, handle_invite_form, handle_invite_claim,
  handle_reset_form, handle_reset,
}
use quicksurvey.Web.Overview.{
  handle_dashboard, handle_admin_survey, handle_edit_form, handle_export, handle_save_survey,
}
use quicksurvey.Web.Editing.{
  handle_create_survey, handle_edit_save, handle_set_state, handle_moderate, handle_delete_survey,
  handle_restore_survey,
}
use quicksurvey.Web.Administration.{handle_users, handle_users_post, handle_invites_post}
use quicksurvey.Web.Routes.{posts, takes, path_of, handler, behind, serve}
use quicksurvey.Web.Routes.Served.{served}
use quicksurvey.Web.Routes.Authored.{
  of_tables, unwritten, handle_vote-Spared, handle_write_in-Spared,
}
use quicksurvey.Web.Routes.Tabled.{
  Stays, UserStays, handle_index-Stays, handle_ballot-Stays, handle_public_results-Stays,
  handle_login_form-Stays, handle_login-Stays, handle_logout-Stays, handle_invite_form-Stays,
  handle_invite_claim-Stays, handle_reset_form-Stays, handle_reset-Stays, handle_pending-Stays,
  handle_password_form-Stays, handle_password_change-Stays, handle_dashboard-Stays,
  handle_admin_survey-Stays, handle_edit_form-Stays, handle_export-Stays, handle_save_survey-Stays,
  handle_users-Stays, handle_users_post-Stays, handle_invites_post-Stays,
}

module _ (s : Server) where
  -- A handler spares what editors decided, or answers an active editor.
  abbrev Decides : Handler s → Type 0
  Decides h =
      (site : Site s.rate) (req : Request) (chance : Chance)
      → Spared site.tables (h site req chance).1.tables ⊎ IsActive s editor site req chance.now

  staying : (h : Handler s) → Stays s h → Decides h
  staying h stays site req chance =
      inl (unwritten s site (h site req chance) (stays site req chance))

  behind-Stays : (want : Role) (h : UserHandler s) → UserStays s h → Stays s (require_role s want h)
  behind-Stays want h stays site req chance =
      elim (require_role-IsPassed s want h site req chance) [
        | inl left ↦ ap (λ (x : Site s.rate). x.tables) left
        | inr (u, p, e) ↦ ap (λ (x : Reply × Site s.rate). x.1.tables) e ∙ stays u site req chance
      ]

  limit_login-Stays : (h : Handler s) → Stays s h → Stays s (limit_login s h)
  unfolding limit_login
  limit_login-Stays h stays site req chance =
      let counted : Site s.rate = record site {
        login_limit = (limit_ok s site.login_limit (client_key s req) chance.now).1;
      } in
      ground (arith, stays counted req chance)

  -- A post behind the gate for editors, on a path of no other gate.
  editing :
      (h : UserHandler s) (site : Site s.rate) (req : Request) (chance : Chance)
      → takes true req.method ≡ true
      → same req.path (codes "/account/pending") ≡ false
      → has_prefix req.path (codes "/account/password") ≡ false
      → Spared site.tables (require_role s editor h site req chance).1.tables
        ⊎ IsActive s editor site req chance.now
  unfolding takes
  editing h site req chance posted waiting changing =
      let r = require_role s editor h site req chance in
      elim (require_role-IsActive s editor h site req chance (ground arith) waiting changing) [
        | inl left ↦ inl (unwritten s site r (ap (λ (x : Site s.rate). x.tables) left))
        | inr active ↦ inr active
      ]

  routed :
      (route : Route) (site : Site s.rate) (req : Request) (chance : Chance)
      → IsKeyed site.tables.options
      → decided_of (chance.id 0) site.tables.options ≡ none
      → req.path ≡ path_of route
      → takes (posts route) req.method ≡ true
      → Spared site.tables (behind s (handler s route) site req chance).1.tables
        ⊎ IsActive s editor site req chance.now
  unfolding posts path_of handler text_discrete
  routed index site req chance keyed new at posted =
      staying (handle_index s) (handle_index-Stays s) site req chance
  routed (ballot id) site req chance keyed new at posted =
      staying (handle_ballot s id) (handle_ballot-Stays s id) site req chance
  routed (results id) site req chance keyed new at posted =
      staying (handle_public_results s id) (handle_public_results-Stays s id) site req chance
  routed (invite_form token) site req chance keyed new at posted =
      staying (handle_invite_form s token) (handle_invite_form-Stays s token) site req chance
  routed (reset_form token) site req chance keyed new at posted =
      staying (handle_reset_form s token) (handle_reset_form-Stays s token) site req chance
  routed login_form site req chance keyed new at posted =
      staying (handle_login_form s) (handle_login_form-Stays s) site req chance
  routed logout site req chance keyed new at posted =
      staying (handle_logout s) (handle_logout-Stays s) site req chance
  routed (vote id) site req chance keyed new at posted =
      inl (handle_vote-Spared s id site req chance)
  routed (write_in id) site req chance keyed new at posted =
      inl (handle_write_in-Spared s id site req chance keyed new)
  routed health site req chance keyed new at posted = inl (Spared-refl site.tables)
  routed (static file) site req chance keyed new at posted = inl (Spared-refl site.tables)
  routed (invite_claim token) site req chance keyed new at posted =
      staying (limit_login s (handle_invite_claim s token))
        (limit_login-Stays (handle_invite_claim s token) (handle_invite_claim-Stays s token)) site
        req chance
  routed (reset_submit token) site req chance keyed new at posted =
      staying (limit_login s (handle_reset s token))
        (limit_login-Stays (handle_reset s token) (handle_reset-Stays s token)) site req chance
  routed login site req chance keyed new at posted =
      staying (limit_login s (handle_login s))
        (limit_login-Stays (handle_login s) (handle_login-Stays s)) site req chance
  routed password_change site req chance keyed new at posted =
      staying (require_role s viewer (handle_password_change s))
        (behind-Stays viewer (handle_password_change s) (handle_password_change-Stays s)) site req
        chance
  routed pending site req chance keyed new at posted =
      staying (require_role s viewer (handle_pending s))
        (behind-Stays viewer (handle_pending s) (handle_pending-Stays s)) site req chance
  routed password_form site req chance keyed new at posted =
      staying (require_role s viewer (handle_password_form s))
        (behind-Stays viewer (handle_password_form s) (handle_password_form-Stays s)) site req
        chance
  routed dashboard site req chance keyed new at posted =
      staying (require_role s viewer (handle_dashboard s))
        (behind-Stays viewer (handle_dashboard s) (handle_dashboard-Stays s)) site req chance
  routed (admin_survey id) site req chance keyed new at posted =
      staying (require_role s viewer (handle_admin_survey s id))
        (behind-Stays viewer (handle_admin_survey s id) (handle_admin_survey-Stays s id)) site req
        chance
  routed (export id kind) site req chance keyed new at posted =
      staying (require_role s viewer (handle_export s id kind))
        (behind-Stays viewer (handle_export s id kind) (handle_export-Stays s id kind)) site req
        chance
  routed (save id kind) site req chance keyed new at posted =
      staying (require_role s editor (handle_save_survey s id kind))
        (behind-Stays editor (handle_save_survey s id kind) (handle_save_survey-Stays s id kind))
        site req chance
  routed (edit_form id) site req chance keyed new at posted =
      staying (require_role s editor (handle_edit_form s id))
        (behind-Stays editor (handle_edit_form s id) (handle_edit_form-Stays s id)) site req chance
  routed users site req chance keyed new at posted =
      staying (require_role s admin (handle_users s))
        (behind-Stays admin (handle_users s) (handle_users-Stays s)) site req chance
  routed users_post site req chance keyed new at posted =
      staying (require_role s admin (handle_users_post s))
        (behind-Stays admin (handle_users_post s) (handle_users_post-Stays s)) site req chance
  routed invites_post site req chance keyed new at posted =
      staying (require_role s admin (handle_invites_post s))
        (behind-Stays admin (handle_invites_post s) (handle_invites_post-Stays s)) site req chance
  routed create site req chance keyed new at posted =
      editing (handle_create_survey s) site req chance posted
        (subst (λ p. same p (codes "/account/pending") ≡ false) (sym at) refl)
        (subst (λ p. has_prefix p (codes "/account/password") ≡ false) (sym at) refl)
  routed restore site req chance keyed new at posted =
      editing (handle_restore_survey s) site req chance posted
        (subst (λ p. same p (codes "/account/pending") ≡ false) (sym at) refl)
        (subst (λ p. has_prefix p (codes "/account/password") ≡ false) (sym at) refl)
  routed (edit_save id) site req chance keyed new at posted =
      editing (handle_edit_save s id) site req chance posted
        (subst (λ p. same p (codes "/account/pending") ≡ false) (sym at) refl)
        (subst (λ p. has_prefix p (codes "/account/password") ≡ false) (sym at) refl)
  routed (set_state id) site req chance keyed new at posted =
      editing (handle_set_state s id) site req chance posted
        (subst (λ p. same p (codes "/account/pending") ≡ false) (sym at) refl)
        (subst (λ p. has_prefix p (codes "/account/password") ≡ false) (sym at) refl)
  routed (moderate id) site req chance keyed new at posted =
      editing (handle_moderate s id) site req chance posted
        (subst (λ p. same p (codes "/account/pending") ≡ false) (sym at) refl)
        (subst (λ p. has_prefix p (codes "/account/password") ≡ false) (sym at) refl)
  routed (delete id) site req chance keyed new at posted =
      editing (handle_delete_survey s id) site req chance posted
        (subst (λ p. same p (codes "/account/pending") ≡ false) (sym at) refl)
        (subst (λ p. has_prefix p (codes "/account/password") ≡ false) (sym at) refl)

-- Over tables in which an option is the only one of its id, a request that comes on its route's path,
-- with a fresh id that no option has, leaves the settings of every survey and the survey, text, status
-- and merge target of every option as they were, creates and deletes no survey, deletes no option, and
-- creates none but pending ones, unless it carries the session of an approved account that is at least
-- an editor, with no password to change, and that session's CSRF token.
pub serve-Spared :
    (s : Server) (site : Site s.rate) (req : Request) (chance : Chance)
    → IsKeyed site.tables.options
    → decided_of (chance.id 0) site.tables.options ≡ none
    → req.path ≡ path_of req.route
    → Spared site.tables (serve s site req chance).1.tables ⊎ IsActive s editor site req chance.now
serve-Spared s site req chance keyed new at =
    let r = serve s site req chance in
    elim (served s site req chance) [
      | inl left ↦ inl (unwritten s site r (ap (λ (x : Site s.rate). x.tables) left))
      | inr (taken, e) ↦ elim (routed s req.route site req chance keyed new at taken) [
        | inr active ↦ inr active
        | inl spared ↦ inl (
            of_tables s site r (behind s (handler s req.route) site req chance).1.tables
              (ap (λ (x : Reply × Site s.rate). x.1.tables) e) spared)
      ]
    ]
