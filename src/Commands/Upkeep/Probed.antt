-- ===== src/Commands/Upkeep/Probed.antt =====
-- What the command `healthcheck` of cmd/quicksurvey/main.go finds at a running server of internal/web.
use quicksurvey.Base.{ℕ, ◌≡◌, some, Option, Text, text_discrete, ok, arith}
use quicksurvey.Web.{get, Request, Server, Site, Chance, health}
use quicksurvey.Web.Gates.{serve_http, is_https}
use quicksurvey.Web.Routes.{posts, takes, path_of, handler, dispatch, serve}
use quicksurvey.Commands.Upkeep.{healthcheck_cmd}

-- A health check succeeds at a server of any configuration and any state, also one that redirects plain
-- HTTP to https, and leaves the site as it was, if the client's request comes to the server as a GET of
-- the health check's path.
pub healthcheck_cmd-serve :
    (s : Server) (site : Site s.rate) (chance : Chance) (probe : Text → Request) (target : Text)
    → (probe target).method ≡ get
    → (probe target).route ≡ health
    → (probe target).path ≡ path_of health
    → let client : Text → Option ℕ = λ url. some (serve s site (probe url) chance).0.status in
      (healthcheck_cmd client target ≡ ok tt) × ((serve s site (probe target) chance).1 ≡ site)
unfolding healthcheck_cmd serve serve_http is_https dispatch posts takes path_of handler
    text_discrete
healthcheck_cmd-serve s site chance probe target got at path = (ground arith, ground arith)
