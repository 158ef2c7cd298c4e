-- ===== src/Web/Gates.antt =====
-- What stands before the handlers: `requireRole` of internal/web/auth.go, and `limitLogin`, `isHTTPS`
-- and the checks of `ServeHTTP` in internal/web/server.go.
pub mod Passed
use quicksurvey.Base.{
  ℕ, ltb, if◌then◌else◌, Bool, true, false, not, ◌&&◌, ◌||◌, Option, none, some, List, [], ◌∷◌,
  ◌++◌, take, length, Text, codes, same, trim_space,
}
use quicksurvey.Accounts.{User, Role, at_least}
use quicksurvey.Web.{
  Method, get, post, put, Request, Reply, Server, Site, Chance, Route, restore, Message, text, fail,
  see_other, redirect,
}
use quicksurvey.Web.Sessions.{session_user, check_csrf}
use quicksurvey.Web.Clients.{before_comma, client_key, limit_ok}

abbrev pub is_get : Method → Bool
is_get get = true
is_get _ = false

abbrev pub has_body : Method → Bool
has_body post = true
has_body put = true
has_body _ = false

-- strings.HasPrefix
abbrev pub has_prefix : Text → Text → Bool
has_prefix s prefix = same (take (length prefix) s) prefix

abbrev pub max_upload : ℕ
max_upload = 1_048_576

abbrev pub restore_path : Text
restore_path = codes "/admin/surveys/restore"

abbrev pub too_many : Text → Reply
too_many t = fail 429 (text t)

module _ (s : Server) where
  -- A handler for anyone, and one that is given the account it runs for.
  abbrev pub Handler : Type 0
  Handler = Site s.rate → Request → Chance → Reply × Site s.rate

  abbrev pub UserHandler : Type 0
  UserHandler = User → Handler

  -- The gates of `requireRole` for a signed-in account, in order: a refusal, or none.
  unfoldable pub gate : Role → User → Request → Option Reply
  gate want u req =
      if u.pending && not (same req.path (codes "/account/pending"))
      then (if is_get req.method
          then some (see_other (codes "/account/pending"))
          else some (fail 403 (text (codes "your account is still waiting for approval"))))
      else if u.must_change_password && not (has_prefix req.path (codes "/account/password"))
      then some (see_other (codes "/account/password"))
      else if not (at_least u.role want)
      then some (fail 403 (text (codes "your account does not have permission to do that")))
      else if not (is_get req.method) && not (check_csrf s req)
      then some (fail 403 (text (codes "your session expired; please retry")))
      else none

  unfoldable pub require_role : Role → UserHandler → Handler
  unfolding gate
  require_role want h site req chance = elim (session_user s site.accounts chance.now req) [
    | none ↦ (
      if is_get req.method
          then see_other (codes "/login?next=" ++ s.escape req.uri)
          else fail 401 (text (codes "please log in again")),
      site,
    )
    | some u ↦ elim (gate want u req) [
      | some refusal ↦ (refusal, site)
      | none ↦ h u site req chance
    ]
  ]

  unfoldable pub limit_login : Handler → Handler
  unfolding limit_ok
  limit_login h site req chance =
      let (granted, limit) = limit_ok s site.login_limit (client_key s req) chance.now in
      let counted : Site s.rate = record site { login_limit = limit } in
      if granted then h counted req chance else (
        too_many (codes "Too many failed attempts from your address. Wait a minute and try again."),
        counted,
      )

  unfoldable pub is_https : Request → Bool
  is_https req =
      if req.tls || same req.path (codes "/healthz")
      then true
      else s.same_fold (trim_space (before_comma req.forwarded_proto)) (codes "https")

  -- `ServeHTTP`, before the handler that was chosen; the read of the body is cut short elsewhere.
  unfoldable pub serve_http : Handler → Handler
  unfolding is_https
  serve_http h site req chance =
      if has_body req.method && same req.path restore_path && ltb max_upload req.content_length
      then (fail 413 (text (codes "that file is larger than 1 MB")), site)
      else if s.redirect_https && not (is_https req)
      then (redirect 308 (codes "https://" ++ req.host ++ req.uri), site)
      else h site req chance
