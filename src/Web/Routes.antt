-- ===== src/Web/Routes.antt =====
-- `routes` of internal/web/server.go: which handler answers a request, behind which gate.
--
-- http.ServeMux finds the pattern by the path and the method; a GET pattern takes HEAD too. A request
-- that comes with another method than its pattern's is one that no pattern takes; http.ServeMux answers it,
-- as http.FileServerFS answers for the embedded files, by a parameter of `Server`.
pub mod Served
pub mod Kept
pub mod Tabled
pub mod Authored
pub mod Authoring
pub mod Entered
pub mod Edited
pub mod Standing
use quicksurvey.Base.{
  ℕ, if◌then◌else◌, Bool, true, false, ◌||◌, Option, none, some, ◌++◌, Text, codes,
}
use quicksurvey.Accounts.{User, Role, viewer, editor, admin}
use quicksurvey.Web.{
  Method, get, head, post, Route, index, health, static, ballot, vote, write_in, results,
  invite_form, invite_claim, reset_form, reset_submit, login_form, login, logout, pending,
  password_form, password_change, dashboard, admin_survey, export, save, create, restore, edit_form,
  edit_save, set_state, moderate, delete, users, users_post, invites_post, Request, Reply, Server,
  Site, Chance, Page, reply_with,
}
use quicksurvey.Web.Gates.{
  Handler, UserHandler, require_role, limit_login, serve_http, restore_path,
}
use quicksurvey.Web.Respondents.{handle_ballot, handle_vote, handle_write_in, handle_public_results}
use quicksurvey.Web.Entry.{
  handle_index, handle_login_form, handle_login, handle_logout, handle_pending,
  handle_password_form, handle_password_change, handle_invite_form, handle_invite_claim,
  handle_reset_form, handle_reset,
}
use quicksurvey.Web.Overview.{
  handle_dashboard, handle_admin_survey, handle_edit_form, handle_export, handle_save_survey,
}
use quicksurvey.Web.Editing.{
  handle_create_survey, handle_edit_save, handle_set_state, handle_moderate, handle_delete_survey,
  handle_restore_survey,
}
use quicksurvey.Web.Administration.{handle_users, handle_users_post, handle_invites_post}

-- The routes whose pattern says POST; the others say GET.
unfoldable pub posts : Route → Bool
posts (vote id) = true
posts (write_in id) = true
posts (invite_claim token) = true
posts (reset_submit token) = true
posts login = true
posts logout = true
posts password_change = true
posts create = true
posts restore = true
posts (edit_save id) = true
posts (set_state id) = true
posts (moderate id) = true
posts (delete id) = true
posts users_post = true
posts invites_post = true
posts _ = false

unfoldable pub takes : Bool → Method → Bool
takes true post = true
takes false get = true
takes false head = true
takes _ _ = false

-- The path of a request that the pattern of a route takes.
unfoldable pub path_of : Route → Text
path_of index = codes "/"
path_of health = codes "/healthz"
path_of (static file) = codes "/static/" ++ file
path_of (ballot id) = codes "/s/" ++ id
path_of (vote id) = codes "/s/" ++ id ++ codes "/vote"
path_of (write_in id) = codes "/s/" ++ id ++ codes "/writein"
path_of (results id) = codes "/s/" ++ id ++ codes "/results"
path_of (invite_form token) = codes "/invite/" ++ token
path_of (invite_claim token) = codes "/invite/" ++ token
path_of (reset_form token) = codes "/reset/" ++ token
path_of (reset_submit token) = codes "/reset/" ++ token
path_of login_form = codes "/login"
path_of login = codes "/login"
path_of logout = codes "/logout"
path_of pending = codes "/account/pending"
path_of password_form = codes "/account/password"
path_of password_change = codes "/account/password"
path_of dashboard = codes "/admin/"
path_of (admin_survey id) = codes "/admin/s/" ++ id
path_of (export id kind) = codes "/admin/s/" ++ id ++ codes "/export/" ++ kind
path_of create = codes "/admin/surveys"
path_of restore = restore_path
path_of (save id kind) = codes "/admin/s/" ++ id ++ codes "/save/" ++ kind
path_of (edit_form id) = codes "/admin/s/" ++ id ++ codes "/edit"
path_of (edit_save id) = codes "/admin/s/" ++ id ++ codes "/edit"
path_of (set_state id) = codes "/admin/s/" ++ id ++ codes "/state"
path_of (moderate id) = codes "/admin/s/" ++ id ++ codes "/moderate"
path_of (delete id) = codes "/admin/s/" ++ id ++ codes "/delete"
path_of users = codes "/admin/users"
path_of users_post = codes "/admin/users"
path_of invites_post = codes "/admin/invites"

module _ (s : Server) where
  -- A reply that leaves the site as it is.
  abbrev pub plain : Reply → Handler s
  plain reply site req chance = (reply, site)

  -- A route for accounts of a role, and one for anyone.
  pub data Guarded : Type 0 where
    role : Role → UserHandler s → Guarded
    public : Handler s → Guarded

  unfoldable pub handler : Route → Guarded
  handler index = public (handle_index s)
  handler health = public (plain (reply_with 200 (Page.line (codes "ok"))))
  handler (static file) = public (plain (s.file file))
  handler (ballot id) = public (handle_ballot s id)
  handler (vote id) = public (handle_vote s id)
  handler (write_in id) = public (handle_write_in s id)
  handler (results id) = public (handle_public_results s id)
  handler (invite_form token) = public (handle_invite_form s token)
  handler (invite_claim token) = public (limit_login s (handle_invite_claim s token))
  handler (reset_form token) = public (handle_reset_form s token)
  handler (reset_submit token) = public (limit_login s (handle_reset s token))
  handler login_form = public (handle_login_form s)
  handler login = public (limit_login s (handle_login s))
  handler logout = public (handle_logout s)
  handler pending = role viewer (handle_pending s)
  handler password_form = role viewer (handle_password_form s)
  handler password_change = role viewer (handle_password_change s)
  handler dashboard = role viewer (handle_dashboard s)
  handler (admin_survey id) = role viewer (handle_admin_survey s id)
  handler (export id kind) = role viewer (handle_export s id kind)
  handler create = role editor (handle_create_survey s)
  handler (save id kind) = role editor (handle_save_survey s id kind)
  handler restore = role editor (handle_restore_survey s)
  handler (edit_form id) = role editor (handle_edit_form s id)
  handler (edit_save id) = role editor (handle_edit_save s id)
  handler (set_state id) = role editor (handle_set_state s id)
  handler (moderate id) = role editor (handle_moderate s id)
  handler (delete id) = role editor (handle_delete_survey s id)
  handler users = role admin (handle_users s)
  handler users_post = role admin (handle_users_post s)
  handler invites_post = role admin (handle_invites_post s)

  abbrev pub behind : Guarded → Handler s
  behind (role want h) = require_role s want h
  behind (public h) = h

  unfoldable pub dispatch : Handler s
  unfolding posts takes handler
  dispatch site req chance =
      if takes (posts req.route) req.method
      then behind (handler req.route) site req chance
      else plain (s.no_pattern req) site req chance

  -- A request, from `ServeHTTP` on.
  unfoldable pub serve : Handler s
  unfolding serve_http
  serve = serve_http s dispatch
