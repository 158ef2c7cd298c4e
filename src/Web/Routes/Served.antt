-- ===== src/Web/Routes/Served.antt =====
-- The way of a request through `ServeHTTP` of internal/web/server.go.
use quicksurvey.Base.{ltb, ◌⊎◌, inl, inr, ◌≡◌, not, ◌&&◌, true, Bool-cases, arith, same}
use quicksurvey.Web.{Request, Server, Site, Chance}
use quicksurvey.Web.Gates.{serve_http, has_body, is_https, max_upload, restore_path}
use quicksurvey.Web.Routes.{posts, takes, handler, behind, dispatch, serve}

module _ (s : Server) where
  -- A request goes to the handler of its route, or leaves the site as it was.
  pub served :
      (site : Site s.rate) (req : Request) (chance : Chance)
      → ((serve s site req chance).1 ≡ site)
        ⊎ ((takes (posts req.route) req.method ≡ true)
            × (serve s site req chance ≡ behind s (handler s req.route) site req chance))
  unfolding serve serve_http dispatch
  served site req chance =
      let large =
        has_body req.method && same req.path restore_path && ltb max_upload req.content_length in
      elim (Bool-cases large) [
        | inl big ↦ inl (ground arith)
        | inr fits ↦ elim (Bool-cases (s.redirect_https && not (is_https s req))) [
          | inl insecure ↦ inl (ground arith)
          | inr secure ↦ elim (Bool-cases (takes (posts req.route) req.method)) [
            | inl taken ↦ inr (taken, ground arith)
            | inr refused ↦ inl (ground arith)
          ]
        ]
      ]
