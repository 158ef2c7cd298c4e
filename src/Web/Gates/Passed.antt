-- ===== src/Web/Gates/Passed.antt =====
-- What `requireRole` of internal/web/auth.go lets through.
use quicksurvey.Base.{
  ℕ, ◌⊎◌, inl, inr, ◌≡◌, true, false, not, ◌&&◌, Option-cases, none, some, arith, same, codes,
}
use quicksurvey.Accounts.{User, Role, at_least}
use quicksurvey.Web.{Request, Server, Site, Chance}
use quicksurvey.Web.Sessions.{session_user, check_csrf}
use quicksurvey.Web.Gates.{UserHandler, gate, require_role, has_prefix, is_get}

module _ (s : Server) where
  -- The account whose session a request carries passes every gate for a role.
  pub record IsPassed (site : Site s.rate) (req : Request) (now : ℕ) (want : Role) (u : User)
      : Type 0 where
    pub signed_in : session_user s site.accounts now req ≡ some u
    pub ranked : at_least u.role want ≡ true
    pub approved : (u.pending && not (same req.path (codes "/account/pending"))) ≡ false
    pub settled :
        (u.must_change_password && not (has_prefix req.path (codes "/account/password"))) ≡ false
    pub genuine : (not (is_get req.method) && not (check_csrf s req)) ≡ false

  passed :
      (want : Role) (u : User) (site : Site s.rate) (req : Request) (now : ℕ)
      → session_user s site.accounts now req ≡ some u
      → gate s want u req ≡ none
      → IsPassed site req now want u
  unfolding gate
  passed want u site req now found e = record {
    signed_in = found;
    ranked = ground arith;
    approved = ground arith;
    settled = ground arith;
    genuine = ground arith;
  }

  -- A request leaves the site as it was, or the handler answers it for an account that passes.
  pub require_role-IsPassed :
      (want : Role) (h : UserHandler s) (site : Site s.rate) (req : Request) (chance : Chance)
      → ((require_role s want h site req chance).1 ≡ site)
        ⊎ ((u : User) × IsPassed site req chance.now want u
            × (require_role s want h site req chance ≡ h u site req chance))
  unfolding require_role
  require_role-IsPassed want h site req chance =
      elim (Option-cases (session_user s site.accounts chance.now req)) [
        | inl absent ↦ inl (ground arith)
        | inr (u, found) ↦ elim (Option-cases (gate s want u req)) [
          | inr (refusal, e) ↦ inl (ground arith)
          | inl e ↦ inr (u, passed want u site req chance.now found e, ground arith)
        ]
      ]

  -- The session of an account of at least the role, approved and with a password of its own, on a
  -- request that carries the session's token.
  pub record IsActive (want : Role) (site : Site s.rate) (req : Request) (now : ℕ) : Type 0 where
    pub user : User
    pub signed_in : session_user s site.accounts now req ≡ some user
    pub ranked : at_least user.role want ≡ true
    pub approved : user.pending ≡ false
    pub settled : user.must_change_password ≡ false
    pub genuine : check_csrf s req ≡ true

  -- A post on a path of no other gate leaves the site as it was, or comes from an active account.
  pub require_role-IsActive :
      (want : Role) (h : UserHandler s) (site : Site s.rate) (req : Request) (chance : Chance)
      → is_get req.method ≡ false
      → same req.path (codes "/account/pending") ≡ false
      → has_prefix req.path (codes "/account/password") ≡ false
      → ((require_role s want h site req chance).1 ≡ site) ⊎ IsActive want site req chance.now
  require_role-IsActive want h site req chance posted waiting changing =
      elim (require_role-IsPassed want h site req chance) [
        | inl left ↦ inl left
        | inr (u, p, e) ↦ inr (record {
          user = u;
          signed_in = p.signed_in;
          ranked = p.ranked;
          approved = ground (arith, p.approved);
          settled = ground (arith, p.settled);
          genuine = ground (arith, p.genuine);
        })
      ]
