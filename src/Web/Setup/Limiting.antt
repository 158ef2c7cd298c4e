-- ===== src/Web/Setup/Limiting.antt =====
-- Which settings of cmd/quicksurvey/main.go turn the limiters of internal/web off.
use quicksurvey.Base.{ℕ, zero, suc, ◌≡◌, refl, Bool, true, false, not, Option, none, some, arith}
use quicksurvey.Tables.{Tables}
use quicksurvey.Accounts.{Accounts}
use quicksurvey.Limiter.{Rate, new_limiter}
use quicksurvey.Web.Setup.{ℤ, pos, negsuc, rate_or, limiter_of, new_site}

abbrev pub is_negative : ℤ → Bool
is_negative (pos n) = false
is_negative (negsuc n) = true

abbrev pub is_limited {ℓ} : {A : Type ℓ} → Option A → Bool
is_limited none = false
is_limited (some l) = true

limiter_of-rate_or :
    (rate : Rate) (n : ℤ) (default now : ℕ)
    → is_limited (limiter_of rate (rate_or n (suc default)) now) ≡ not (is_negative n)
unfolding rate_or limiter_of new_limiter
limiter_of-rate_or rate (pos zero) default now = ground arith
limiter_of-rate_or rate (pos (suc n)) default now = ground arith
limiter_of-rate_or rate (negsuc n) default now = refl

-- A server that has just started limits sign-ins exactly if its login rate is not negative, and new
-- identities exactly if its voter rate is not: a rate that is 0 or was not set is limited too.
pub new_site-limited :
    (rate : Rate) (tables : Tables) (accounts : Accounts) (login voter : ℤ) (now : ℕ)
    → let site = new_site rate tables accounts login voter now in
      (is_limited site.login_limit ≡ not (is_negative login))
      × (is_limited site.voter_limit ≡ not (is_negative voter))
unfolding new_site
new_site-limited rate tables accounts login voter now =
    (limiter_of-rate_or rate login 9 now, limiter_of-rate_or rate voter 299 now)
