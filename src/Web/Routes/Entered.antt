-- ===== src/Web/Routes/Entered.antt =====
-- The handlers of internal/web/auth.go and invite.go, and what they do to the standing of accounts.
use quicksurvey.Base.{
  ℕ, inl, inr, ◌≡◌, sym, subst, Bool-cases, Option-cases, arith, Result-cases, Text, codes, same,
  trim_space,
}
use quicksurvey.Accounts.{User, Accounts, authenticate, set_password, revoke_sessions}
use quicksurvey.Accounts.Invites.{invite_by_token, claim_invite}
use quicksurvey.Accounts.Resets.{reset_by_token, use_reset}
use quicksurvey.Accounts.Standing.{
  Keeps, Keeps-refl, set_password-Keeps, revoke_sessions-Keeps, claim_invite-Keeps, use_reset-Keeps,
}
use quicksurvey.Web.{Request, Reply, Server, Site, Chance, form_value}
use quicksurvey.Web.Sessions.{session_user, check_csrf}
use quicksurvey.Web.Clients.{limit_ok, client_key}
use quicksurvey.Web.Gates.{Handler, limit_login}
use quicksurvey.Web.Entry.{
  handle_index, handle_login_form, handle_login, handle_logout, handle_password_change,
  password_changed, handle_invite_form, handle_invite_claim, handle_reset_form, handle_reset,
}
use quicksurvey.Web.Routes.Kept.{Leaves, voter_token-accounts}

module _ (s : Server) where
  -- A reply leaves everyone's standing, but for new accounts that wait for approval.
  abbrev pub Spares : Site s.rate → Reply × Site s.rate → Type 0
  Spares site r = Keeps site.accounts.users r.1.accounts.users

  pub of_accounts :
      (site : Site s.rate) (r : Reply × Site s.rate) (db : Accounts)
      → r.1.accounts ≡ db
      → Keeps site.accounts.users db.users
      → Spares site r
  of_accounts site r db e k = subst (λ (d : Accounts). Keeps site.accounts.users d.users) (sym e) k

  pub unwritten :
      (site : Site s.rate) (r : Reply × Site s.rate) → r.1.accounts ≡ site.accounts → Spares site r
  unwritten site r e = of_accounts site r site.accounts e (Keeps-refl site.accounts.users)

  pub of_Leaves :
      (h : Handler s)
      → Leaves s h
      → (site : Site s.rate) (req : Request) (chance : Chance) → Spares site (h site req chance)
  of_Leaves h leaves site req chance = unwritten site (h site req chance) (leaves site req chance)

  pub handle_index-Leaves : Leaves s (handle_index s)
  unfolding handle_index
  handle_index-Leaves site req chance = ground arith

  pub handle_login_form-Leaves : Leaves s (handle_login_form s)
  unfolding handle_login_form
  handle_login_form-Leaves site req chance = ground (arith, voter_token-accounts s site req chance)

  pub handle_login-Leaves : Leaves s (handle_login s)
  unfolding handle_login
  handle_login-Leaves site req chance = ground arith

  pub handle_invite_form-Leaves : (token : Text) → Leaves s (handle_invite_form s token)
  unfolding handle_invite_form
  handle_invite_form-Leaves token site req chance =
      ground (arith, voter_token-accounts s site req chance)

  pub handle_reset_form-Leaves : (token : Text) → Leaves s (handle_reset_form s token)
  unfolding handle_reset_form
  handle_reset_form-Leaves token site req chance =
      ground (arith, voter_token-accounts s site req chance)

  pub handle_logout-Spares :
      (site : Site s.rate) (req : Request) (chance : Chance)
      → Spares site (handle_logout s site req chance)
  unfolding handle_logout
  handle_logout-Spares site req chance =
      let r = handle_logout s site req chance in
      elim (Bool-cases (check_csrf s req)) [
        | inr bad ↦ unwritten site r (ground arith)
        | inl good ↦ elim (Option-cases (session_user s site.accounts chance.now req)) [
          | inl absent ↦ unwritten site r (ground arith)
          | inr (u, found) ↦ elim (Result-cases (revoke_sessions site.accounts u.name chance.now)) [
            | inl (db, e) ↦
                of_accounts site r db (ground arith)
                  (revoke_sessions-Keeps site.accounts db u.name chance.now e)
            | inr (x, e) ↦ unwritten site r (ground arith)
          ]
        ]
      ]

  password_changed-accounts :
      (site : Site s.rate) (name : Text) (now : ℕ)
      → (password_changed s site name now).1.accounts ≡ site.accounts
  password_changed-accounts site name now = ground arith

  pub handle_password_change-Spares :
      (u : User) (site : Site s.rate) (req : Request) (chance : Chance)
      → Spares site (handle_password_change s u site req chance)
  unfolding handle_password_change
  handle_password_change-Spares u site req chance =
      let r = handle_password_change s u site req chance in
      let next = form_value req.form (codes "new") in
      let fresh = s.hash chance.salt next in
      elim (Option-cases
        (authenticate s.verify site.accounts u.name (form_value req.form (codes "current")))) [
          | inl wrong ↦ unwritten site r (ground arith)
          | inr (v, right) ↦ elim (Bool-cases (same next (form_value req.form (codes "confirm")))) [
            | inr differ ↦ unwritten site r (ground arith)
            | inl agree ↦
                elim (Result-cases (set_password site.accounts u.name next fresh chance.now)) [
                  | inl (db, e) ↦
                      of_accounts site r db
                        (ground (
                          arith,
                          password_changed-accounts (record site { accounts = db }) u.name
                              chance.now,
                        ))
                        (set_password-Keeps site.accounts db u.name next fresh chance.now e)
                  | inr (x, e) ↦ unwritten site r (ground arith)
                ]
          ]
        ]

  pub handle_invite_claim-Spares :
      (token : Text) (site : Site s.rate) (req : Request) (chance : Chance)
      → Spares site (handle_invite_claim s token site req chance)
  unfolding handle_invite_claim
  handle_invite_claim-Spares token site req chance =
      let r = handle_invite_claim s token site req chance in
      let name = trim_space (form_value req.form (codes "username")) in
      let pw = form_value req.form (codes "password") in
      let fresh = s.hash chance.salt pw in
      elim (Bool-cases (check_csrf s req)) [
        | inr bad ↦ unwritten site r (ground arith)
        | inl good ↦ elim (Option-cases (invite_by_token s.mac site.accounts token chance.now)) [
          | inl absent ↦ unwritten site r (ground arith)
          | inr (iv, found) ↦ elim (Bool-cases (same pw (form_value req.form (codes "confirm")))) [
            | inr differ ↦ unwritten site r (ground arith)
            | inl agree ↦
                elim (Result-cases
                  (claim_invite s.mac site.accounts token name pw fresh chance.now)) [
                    | inl ((u, db), e) ↦ of_accounts site r db (ground arith) (
                        claim_invite-Keeps s.mac site.accounts token name pw fresh chance.now u db
                          e)
                    | inr (x, e) ↦ unwritten site r (ground arith)
                  ]
          ]
        ]
      ]

  pub handle_reset-Spares :
      (token : Text) (site : Site s.rate) (req : Request) (chance : Chance)
      → Spares site (handle_reset s token site req chance)
  unfolding handle_reset
  handle_reset-Spares token site req chance =
      let r = handle_reset s token site req chance in
      let pw = form_value req.form (codes "password") in
      let fresh = s.hash chance.salt pw in
      elim (Bool-cases (check_csrf s req)) [
        | inr bad ↦ unwritten site r (ground arith)
        | inl good ↦ elim (Option-cases (reset_by_token s.mac site.accounts token chance.now)) [
          | inl absent ↦ unwritten site r (ground arith)
          | inr (rp, found) ↦ elim (Bool-cases (same pw (form_value req.form (codes "confirm")))) [
            | inr differ ↦ unwritten site r (ground arith)
            | inl agree ↦
                elim (Result-cases (use_reset s.mac site.accounts token pw fresh chance.now)) [
                  | inl ((name, db), e) ↦
                      of_accounts site r db (ground arith)
                        (use_reset-Keeps s.mac site.accounts token pw fresh chance.now name db e)
                  | inr (x, e) ↦ unwritten site r (ground arith)
                ]
          ]
        ]
      ]

  -- A gate that counts attempts.
  pub limit_login-Spares :
      (h : Handler s)
      → ((site : Site s.rate) (req : Request) (chance : Chance) → Spares site (h site req chance))
      → (site : Site s.rate) (req : Request) (chance : Chance)
      → Spares site (limit_login s h site req chance)
  unfolding limit_login
  limit_login-Spares h spares site req chance =
      let counted : Site s.rate = record site {
        login_limit = (limit_ok s site.login_limit (client_key s req) chance.now).1;
      } in
      let r = limit_login s h site req chance in
      elim (Bool-cases (limit_ok s site.login_limit (client_key s req) chance.now).0) [
        | inr full ↦ unwritten site r (ground arith)
        | inl free ↦
            of_accounts site r (h counted req chance).1.accounts (ground arith)
              (spares counted req chance)
      ]
