-- ===== src/Web/Administration.antt =====
-- The pages for administrators: the account handlers of internal/web/admin.go and `handleInvitesPost`
-- of internal/web/invite.go, with the lists they show.
--
-- `parse_duration` is time.ParseDuration; a duration that is not positive is 0. A second flash cookie
-- of one reply replaces the first.
use quicksurvey.Base.{
  ℕ, ◌*◌, ◌/◌, ltb, leb, if◌then◌else◌, not, none, some, List, [], ◌∷◌, ◌++◌, filter, sort_by, Text,
  codes, same, is_empty, trim_space, Result, ok, err,
}
use quicksurvey.Accounts.{
  Role, viewer, editor, admin, User, Invite, Reset, Accounts, set_role, delete_user, approve_user,
  pending_users,
}
use quicksurvey.Accounts.Invites.{create_invite, revoke_invite}
use quicksurvey.Accounts.Resets.{outstanding_reset, create_reset}
use quicksurvey.Tally.{text_le}
use quicksurvey.Web.{
  Request, Reply, Server, Site, Page, UsersData, Message, text, failure, see_other, says, complains,
  reply_with, form_value,
}
use quicksurvey.Web.Overview.{origin}
use quicksurvey.Web.Gates.{UserHandler}

abbrev users_url : Text
users_url = codes "/admin/users"

-- store.Role(…) of a form field.
abbrev pub role_named : Text → Role
role_named t =
    if same t (codes "viewer")
    then viewer
    else if same t (codes "editor")
    then editor
    else if same t (codes "admin")
    then admin
    else Role.other t

-- SELECT … FROM users ORDER BY name, and FROM invites ORDER BY created DESC
unfoldable pub users_by_name : Accounts → List User
users_by_name db = sort_by (λ a b. text_le a.name b.name) db.users

unfoldable pub invites_newest : Accounts → List Invite
invites_newest db = sort_by (λ a b. leb b.created a.created) db.invites

-- The loop that fills `Resets`.
unfoldable pub resets_of : Accounts → (now : ℕ) → List User → List (Text × Reset)
resets_of db now [] = []
resets_of db now (u ∷ us) = elim (outstanding_reset db u.name now) [
  | none ↦ resets_of db now us
  | some r ↦ (u.name, r) ∷ resets_of db now us
]

-- How an account change ended: the new accounts with what is said of them, or the refusal.
pub data Change : Type 0 where
  refuses : Message → Change
  makes : Accounts → (done : Text) → Change

abbrev pub change_of : (done : Text) → Result Accounts → Change
change_of done (ok db) = makes db done
change_of done (err e) = refuses (failure e)

abbrev add_refused : Text
add_refused =
    codes "accounts are created by invitation, so that nobody else "
    ++ codes "ever knows the password. Use \"Invite someone by link\" below."

-- The cases of `handleUsersPost` but for `reset-link`.
unfoldable pub change_account : Accounts → User → List (Text × Text) → (action name : Text) → Change
change_account db me form action name =
    let wanted = form_value form (codes "role") in
    if same action (codes "add")
    then refuses (text add_refused)
    else if same action (codes "approve")
    then change_of (name ++ codes " approved as " ++ wanted ++ codes ".")
        (approve_user db name (role_named wanted))
    else if same action (codes "reject")
    then (if same name me.name
        then refuses (text (codes "you cannot reject your own account"))
        else change_of (codes "Request from " ++ name ++ codes " rejected and the account removed.")
            (delete_user db name))
    else if same action (codes "role")
    then (if same name me.name
        then refuses (text (codes "you cannot change your own role"))
        else change_of (codes "Role updated for " ++ name ++ codes ".")
            (set_role db name (role_named wanted)))
    else if same action (codes "delete")
    then (if same name me.name
        then refuses (text (codes "you cannot delete your own account"))
        else if not (same (trim_space (form_value form (codes "confirm"))) name)
        then refuses (text (codes "not deleted: type the username exactly to confirm"))
        else change_of (codes "Account " ++ name ++ codes " deleted.") (delete_user db name))
    else refuses (text (codes "unknown action"))

module _ (s : Server) where
  -- What `handleUsers` and `renderUsersWithReset` have in common.
  unfoldable pub users_data : Accounts → (now : ℕ) → UsersData
  unfolding users_by_name invites_newest resets_of
  users_data db now =
      let approved = filter (λ u. not u.pending) (users_by_name db) in
      record {
        users = approved;
        pending = pending_users db;
        invites = invites_newest db;
        now = now;
        new_invite = [];
        resets = resets_of db now approved;
        new_reset = [];
        new_reset_user = [];
      }

  unfoldable pub handle_users : UserHandler s
  unfolding users_data
  handle_users me site req chance =
      let token = form_value req.form (codes "new_invite") in
      let link =
        (if is_empty token then [] else origin s req ++ codes "/invite/" ++ s.path_escape token) in
      (
        reply_with 200
            (Page.users (record (users_data site.accounts chance.now) { new_invite = link })),
        site,
      )

  -- `renderUsersWithReset`
  abbrev pub with_reset : Accounts → Request → (now : ℕ) → (user token : Text) → Reply
  with_reset db req now user token = reply_with 200 (
      Page.users (record (users_data db now) {
        new_reset = origin s req ++ codes "/reset/" ++ s.path_escape token;
        new_reset_user = user;
      }))

  -- The end of `handleUsersPost`.
  abbrev pub change_reply : Site s.rate → Change → Reply × Site s.rate
  change_reply site (refuses m) = (complains m (see_other users_url), site)
  change_reply site (makes db done) =
      (says done (see_other users_url), record site { accounts = db })

  -- `reset-link` declares an `err` of its own: after its flash the handler goes on as after a success.
  unfoldable pub make_reset_link : (name : Text) → UserHandler s
  make_reset_link name me site req chance =
      elim (create_reset s.mac site.accounts name me.name (chance.id 0) chance.token chance.now) [
        | err e ↦ (says [] (complains (failure e) (see_other users_url)), site)
        | ok r ↦ (with_reset r.1 req chance.now name chance.token, record site { accounts = r.1 })
      ]

  unfoldable pub handle_users_post : UserHandler s
  unfolding make_reset_link change_account
  handle_users_post me site req chance =
      let action = form_value req.form (codes "action") in
      let name = trim_space (form_value req.form (codes "username")) in
      if same action (codes "reset-link")
      then make_reset_link name me site req chance
      else change_reply site (change_account site.accounts me req.form action name)

  abbrev pub hour : ℕ
  hour = 3_600_000_000_000

  -- `days` of the form, which are hours there.
  abbrev pub days : Text → ℕ
  days d = if is_empty d then 7 else elim (s.parse_duration (d ++ codes "h")) [
    | none ↦ 7
    | some n ↦ if ltb 0 n then n / hour / 24 else 7
  ]

  unfoldable pub create_link : UserHandler s
  create_link me site req chance =
      elim (create_invite s.mac site.accounts me.name
        (role_named (form_value req.form (codes "role"))) (form_value req.form (codes "note"))
        (days (form_value req.form (codes "days")) * 24 * hour) (chance.id 0) chance.token
        chance.now) [
          | err e ↦ (complains (failure e) (see_other users_url), site)
          | ok r ↦ (
            see_other (codes "/admin/users?new_invite=" ++ s.escape chance.token),
            record site { accounts = r.1 },
          )
        ]

  unfoldable pub handle_invites_post : UserHandler s
  unfolding create_link
  handle_invites_post me site req chance =
      let action = form_value req.form (codes "action") in
      if same action (codes "create")
      then create_link me site req chance
      else if same action (codes "revoke")
      then change_reply site (
          change_of (codes "Invitation link revoked.")
            (revoke_invite site.accounts (form_value req.form (codes "id"))))
      else change_reply site (refuses (text (codes "Unknown action.")))
