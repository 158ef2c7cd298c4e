-- ===== src/Commands/Serving/Ready.antt =====
-- What a server of cmd/quicksurvey/main.go is on a new deployment.
use quicksurvey.Base.{
  ℕ, ◌≤◌, ◌≡◌, refl, Bool, true, Option, some, [], ◌∷◌, length, All, Text, codes, arith, ok,
}
use quicksurvey.Accounts.{User, Accounts, authenticate}
use quicksurvey.Accounts.Roster.{IsSafe}
use quicksurvey.Limiter.{Rate}
use quicksurvey.Store.Schema.{schema, added_columns}
use quicksurvey.Store.Schema.Migrated.{IsEarly}
use quicksurvey.Store.Opening.{Database, open_store}
use quicksurvey.Store.Opening.Opened.{open_store-again}
use quicksurvey.Web.{Site}
use quicksurvey.Web.Setup.{ℤ, pos, new_site, default_login_rate, default_voter_rate}
use quicksurvey.Commands.Start.{bootstrap_admin_lem}
use quicksurvey.Commands.Upkeep.{env_parsed}
use quicksurvey.Commands.Serving.{Rates, start_server}

-- On a deployment without accounts, over a database whose tables, where they are there, lack no column
-- but such as were added after its first release, the server starts: the database opens again with
-- the same key, the site serves the tables of that database, the password that was drawn, of at least
-- 8 bytes, signs the only account in if its hash verifies, and that account is an approved
-- administrator who has to change it.
pub start_server-ready :
    (rate : Rate) (parse : Text → Option ℤ) (rates : Rates) (verify : Text → Text → Bool)
    (db : Database) (accounts : Accounts) (key password hash : Text) (now : ℕ)
    → All (IsEarly added_columns db.shape) schema
    → length key ≡ 32
    → accounts.users ≡ []
    → 8 ≤ length password
    → verify hash password ≡ true
    → (later : Database) × (held : Text) × (site : Site rate) × (u : User) × (start_server rate
          parse rates db accounts key password hash now
        ≡ ok (later, site))
      × ((again : Text) → open_store later again ≡ some (later, held))
      × (site.accounts.users ≡ u ∷ [])
      × IsSafe site.accounts.users
      × (authenticate verify site.accounts (codes "admin") password ≡ some u)
      × (u.must_change_password ≡ true)
      × (site.tables ≡ later.tables)
unfolding start_server new_site
start_server-ready rate parse rates verify db accounts key password hash now early long new enough
      good =
    let (later, held, opens, current, widens, done, again) = open_store-again db key early long in
    let (started, u, boots, alone, safe, file, signs_in, changes) =
      bootstrap_admin_lem verify accounts password hash now new enough good in
    let login = env_parsed parse rates.login (pos default_login_rate) in
    let voter = env_parsed parse rates.voter (pos default_voter_rate) in
    let site = new_site rate later.tables started login voter now in
    (
      later,
      held,
      site,
      u,
      ground (arith, opens, boots),
      again,
      alone,
      safe,
      signs_in,
      changes,
      refl,
    )
