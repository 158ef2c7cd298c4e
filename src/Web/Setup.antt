-- ===== src/Web/Setup.antt =====
-- `New` of internal/web/server.go: the limiters that a configuration gives. Templates are left out.
--
-- A rate is a Go int; the library's integers stand on another ℕ.
pub mod Limiting
use quicksurvey.Base.{ℕ, zero, suc, Option, none, some, List}
use quicksurvey.Tables.{Tables}
use quicksurvey.Accounts.{Accounts}
use quicksurvey.Limiter.{Limiter, Rate, new_limiter}
use quicksurvey.Web.{Site}

pub data ℤ : Type 0 where
  pos : ℕ → ℤ
  negsuc : ℕ → ℤ

abbrev pub default_login_rate : ℕ
default_login_rate = 10

abbrev pub default_voter_rate : ℕ
default_voter_rate = 300

-- A rate that is 0 is one that was not set.
unfoldable pub rate_or : ℤ → (default : ℕ) → ℤ
rate_or (pos zero) default = pos default
rate_or n default = n

module _ (rate : Rate) where
  -- `newLimiter`, of an int.
  unfoldable pub limiter_of : ℤ → (now : ℕ) → Option (Limiter rate)
  unfolding new_limiter
  limiter_of (pos n) now = new_limiter rate n now
  limiter_of (negsuc n) now = none

  unfoldable pub new_site : Tables → Accounts → (login voter : ℤ) → (now : ℕ) → Site rate
  unfolding rate_or limiter_of
  new_site tables accounts login voter now = record {
    tables = tables;
    accounts = accounts;
    login_limit = limiter_of (rate_or login default_login_rate) now;
    voter_limit = limiter_of (rate_or voter default_voter_rate) now;
  }
