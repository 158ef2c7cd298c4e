-- ===== src/Web/Entry.antt =====
-- Getting in: the sign-in, sign-out and password handlers of internal/web/auth.go, the public pages of
-- internal/web/invite.go, and `handleIndex` of internal/web/server.go.
--
-- `hash` and `verify` are the password hash and its check; the salt of a new hash is drawn with the
-- request.
use quicksurvey.Base.{
  ℕ, ◌==◌, if◌then◌else◌, not, ◌||◌, none, some, [], any, Text, codes, same, is_empty, trim_space,
  Result, ok, err,
}
use quicksurvey.Accounts.{User, Accounts, find_user, authenticate, set_password, revoke_sessions}
use quicksurvey.Accounts.Invites.{invite_by_token, claim_invite}
use quicksurvey.Accounts.Resets.{reset_by_token, use_reset}
use quicksurvey.Web.{
  Reply, Server, Site, Page, Message, text, failure, fail, see_other, says, complains, reply_with,
  form_value, set_cookie,
}
use quicksurvey.Web.Sessions.{
  session_user, check_csrf, new_session, cookie, session_cookie, session_ttl,
}
use quicksurvey.Web.Clients.{voter_token, client_key, limit_spend}
use quicksurvey.Web.Gates.{Handler, UserHandler, has_prefix}
use quicksurvey.Web.Respondents.{with_cookies}

abbrev admin_url : Text
admin_url = codes "/admin/"

module _ (s : Server) where
  unfoldable pub safe_next : Text → Text
  safe_next next =
      if is_empty next || not (has_prefix next (codes "/"))
      then []
      else if any (λ c. c == 92) next
      then []
      else elim (s.parse_url next) [
        | none ↦ []
        | some u ↦
            if not (is_empty u.scheme) || not (is_empty u.host) || not (is_empty u.opaque)
            then []
            else if not (has_prefix u.path (codes "/")) || has_prefix u.path (codes "//")
            then []
            else next
      ]

  abbrev pub signed_in : User → (now : ℕ) → Reply → Reply
  signed_in u now r = set_cookie (cookie s session_cookie (new_session s u now) session_ttl) r

  abbrev pub signed_out : Reply → Reply
  signed_out r = set_cookie (cookie s session_cookie [] 0) r

  unfoldable pub handle_index : Handler s
  handle_index site req chance = elim (session_user s site.accounts chance.now req) [
    | none ↦ (reply_with 200 Page.home, site)
    | some u ↦ (see_other admin_url, site)
  ]

  unfoldable pub handle_login_form : Handler s
  unfolding safe_next
  handle_login_form site req chance = elim (session_user s site.accounts chance.now req) [
    | some u ↦ (see_other admin_url, site)
    | none ↦
        let who = voter_token s site req chance in
        let next = safe_next (form_value req.form (codes "next")) in
        (with_cookies s who.cookies (reply_with 200 (Page.login next [])), who.site)
  ]

  -- Where a sign-in leads.
  abbrev pub landing : User → (next : Text) → Text
  landing u next =
      if u.pending
      then codes "/account/pending"
      else if u.must_change_password
      then codes "/account/password"
      else if is_empty next
      then admin_url
      else next

  unfoldable pub handle_login : Handler s
  unfolding safe_next
  handle_login site req chance =
      let name = trim_space (form_value req.form (codes "username")) in
      let next = safe_next (form_value req.form (codes "next")) in
      let failed : Site s.rate = record site {
        login_limit = limit_spend s site.login_limit (client_key s req) chance.now;
      } in
      if not (check_csrf s req)
      then (fail 403 (text (codes "your session expired; please try again")), site)
      else elim (authenticate s.verify site.accounts name
          (form_value req.form (codes "password"))) [
            | none ↦ (
              complains (text (codes "Incorrect username or password."))
                  (reply_with 401 (Page.login next name)),
              failed,
            )
            | some u ↦ (signed_in u chance.now (see_other (landing u next)), site)
          ]

  -- The site after `RevokeSessions`, whose error is only logged.
  abbrev pub after_revoke : Site s.rate → Result Accounts → Site s.rate
  after_revoke site (ok db) = record site { accounts = db }
  after_revoke site (err e) = site

  unfoldable pub handle_logout : Handler s
  handle_logout site req chance =
      let gone =
        says (codes "Signed out on every device.") (signed_out (see_other (codes "/login"))) in
      if not (check_csrf s req)
      then (fail 403 (text (codes "your session expired")), site)
      else elim (session_user s site.accounts chance.now req) [
        | none ↦ (gone, site)
        | some u ↦ (gone, after_revoke site (revoke_sessions site.accounts u.name chance.now))
      ]

  unfoldable pub handle_pending : UserHandler s
  handle_pending u site req chance = (reply_with 200 Page.waiting, site)

  unfoldable pub handle_password_form : UserHandler s
  handle_password_form u site req chance = (reply_with 200 Page.password, site)

  -- With no account of that name left the source would dereference nil.
  abbrev pub password_changed : Site s.rate → (name : Text) → (now : ℕ) → Reply × Site s.rate
  password_changed site name now = elim (find_user name site.accounts.users) [
    | none ↦ (reply_with 500 Page.empty, site)
    | some u ↦ (says (codes "Password changed.") (signed_in u now (see_other admin_url)), site)
  ]

  unfoldable pub handle_password_change : UserHandler s
  handle_password_change u site req chance =
      let current = form_value req.form (codes "current") in
      let next = form_value req.form (codes "new") in
      let bad = λ (m : Message). complains m (reply_with 400 Page.password) in
      elim (authenticate s.verify site.accounts u.name current) [
        | none ↦ (bad (text (codes "Your current password is not correct.")), site)
        | some v ↦
            if not (same next (form_value req.form (codes "confirm")))
            then (bad (text (codes "The two new passwords do not match.")), site)
            else elim (set_password site.accounts u.name next (s.hash chance.salt next)
                chance.now) [
                  | err e ↦ (bad (failure e), site)
                  | ok db ↦ password_changed (record site { accounts = db }) u.name chance.now
                ]
      ]

  unfoldable pub handle_invite_form : (token : Text) → Handler s
  handle_invite_form token site req chance =
      elim (invite_by_token s.mac site.accounts token chance.now) [
        | none ↦ (
          fail 404 (
              text (
                codes
                  "that invitation link is not valid. It may have been used already, revoked, or expired.")),
          site,
        )
        | some iv ↦
            let who = voter_token s site req chance in
            (with_cookies s who.cookies (reply_with 200 (Page.invite token iv [])), who.site)
      ]

  unfoldable pub handle_invite_claim : (token : Text) → Handler s
  handle_invite_claim token site req chance =
      let name = trim_space (form_value req.form (codes "username")) in
      let pw = form_value req.form (codes "password") in
      let failed : Site s.rate = record site {
        login_limit = limit_spend s site.login_limit (client_key s req) chance.now;
      } in
      if not (check_csrf s req)
      then (fail 403 (text (codes "your session expired; please reload and try again")), site)
      else elim (invite_by_token s.mac site.accounts token chance.now) [
        | none ↦ (fail 404 (text (codes "that invitation link is no longer valid")), failed)
        | some iv ↦
            let bad = λ (m : Message). complains m (reply_with 400 (Page.invite token iv name)) in
            if not (same pw (form_value req.form (codes "confirm")))
            then (bad (text (codes "The two passwords do not match.")), site)
            else elim (claim_invite s.mac site.accounts token name pw (s.hash chance.salt pw)
                chance.now) [
                  | err e ↦ (bad (failure e), site)
                  | ok r ↦ (
                    signed_in r.0 chance.now (see_other (codes "/account/pending")),
                    record site { accounts = r.1 },
                  )
                ]
      ]

  unfoldable pub handle_reset_form : (token : Text) → Handler s
  handle_reset_form token site req chance =
      elim (reset_by_token s.mac site.accounts token chance.now) [
        | none ↦ (
          fail 404 (
              text (
                codes
                  "that reset link is not valid. It may have been used already, replaced by a newer one, or expired.")),
          site,
        )
        | some rp ↦
            let who = voter_token s site req chance in
            (with_cookies s who.cookies (reply_with 200 (Page.reset token rp)), who.site)
      ]

  unfoldable pub handle_reset : (token : Text) → Handler s
  handle_reset token site req chance =
      let pw = form_value req.form (codes "password") in
      let failed : Site s.rate = record site {
        login_limit = limit_spend s site.login_limit (client_key s req) chance.now;
      } in
      if not (check_csrf s req)
      then (fail 403 (text (codes "your session expired; please reload and try again")), site)
      else elim (reset_by_token s.mac site.accounts token chance.now) [
        | none ↦ (fail 404 (text (codes "that reset link is no longer valid")), failed)
        | some rp ↦
            let bad = λ (m : Message). complains m (reply_with 400 (Page.reset token rp)) in
            if not (same pw (form_value req.form (codes "confirm")))
            then (bad (text (codes "The two passwords do not match.")), site)
            else elim (use_reset s.mac site.accounts token pw (s.hash chance.salt pw) chance.now) [
              | err e ↦ (bad (failure e), site)
              | ok r ↦ (
                says (codes "Password set. Sign in with it now.")
                    (signed_out (see_other (codes "/login"))),
                record site { accounts = r.1 },
              )
            ]
      ]
