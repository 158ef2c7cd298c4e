-- ===== src/Commands/Serving.antt =====
-- How `serve` of cmd/quicksurvey/main.go comes up: the database is opened, a first account is made where
-- there is none, and the server is built with the rates of its variables.
--
-- The flags are those that the variables give by default. The listener, the zone, the logger and the
-- orderly stop are left out.
pub mod Ready
use quicksurvey.Base.{ℕ, Option, none, some, Text, Result, ok, err, ◌>>=◌, or_fail, not_opened}
use quicksurvey.Accounts.{Accounts}
use quicksurvey.Limiter.{Rate}
use quicksurvey.Store.Opening.{Database, open_store}
use quicksurvey.Web.{Site}
use quicksurvey.Web.Setup.{ℤ, pos, default_login_rate, default_voter_rate, new_site}
use quicksurvey.Commands.{bootstrap_admin}
use quicksurvey.Commands.Upkeep.{env_parsed}

-- QS_LOGIN_RATE and QS_VOTER_RATE.
pub record Rates : Type 0 where
  pub login : Text
  pub voter : Text

-- strconv.Atoi is `parse`.
unfoldable pub start_server :
    (rate : Rate)
    → (parse : Text → Option ℤ) → Rates
    → Database
    → Accounts
    → (key password hash : Text) → (now : ℕ) → Result (Database × Site rate)
unfolding open_store bootstrap_admin new_site env_parsed
start_server rate parse rates db accounts key password hash now = do
  opened ← or_fail (open_store db key) not_opened
  started ← bootstrap_admin accounts password hash now
  ok (
    opened.0,
    new_site rate opened.0.tables started (env_parsed parse rates.login (pos default_login_rate))
        (env_parsed parse rates.voter (pos default_voter_rate)) now,
  )
