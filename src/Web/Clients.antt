-- ===== src/Web/Clients.antt =====
-- Who a request comes from: `clientKey` of internal/web/ratelimit.go, the nil-safe methods of the
-- limiter, and `voterToken` of internal/web/auth.go.
--
-- `canonical_address` and `split_host_port` are net/netip's and net's; the 16 random bytes of a new
-- token come encoded, as `token`.
pub mod Lasting
use quicksurvey.Base.{
  ℕ, ◌==◌, if◌then◌else◌, Bool, true, false, not, ◌&&◌, Option, none, some, List, [], ◌∷◌, ◌++◌,
  Text, codes, is_empty, trim_space,
}
use quicksurvey.Limiter.{Limiter, has_budget, allow, spend}
use quicksurvey.Web.{Request, Cookie, Reply, Server, Site, Chance, find_cookie}
use quicksurvey.Web.Sessions.{
  split_at, cookie_name, cookie, voter_cookie, voter_ttl, verify_voter_token, signed_token,
}

-- strings.Split(v, ",")[0]
abbrev pub before_comma : Text → Text
before_comma v = elim (split_at b',' v) [ [] ↦ [] | first ∷ rest ↦ first ]

module _ (s : Server) where
  unfoldable pub client_key : Request → Text
  unfolding split_at
  client_key req =
      if s.trust_proxy && not (is_empty req.real_ip)
      then s.canonical_address (trim_space req.real_ip)
      else if s.trust_proxy && not (is_empty req.forwarded_for)
      then s.canonical_address (trim_space (before_comma req.forwarded_for))
      else elim (s.split_host_port req.remote_addr) [
        | none ↦ s.canonical_address (trim_space req.remote_addr)
        | some host ↦ s.canonical_address (trim_space host)
      ]

  -- The methods of a limiter that may be nil.
  unfoldable pub limit_ok : Option (Limiter s.rate) → Text → ℕ → Bool × Option (Limiter s.rate)
  limit_ok none key now = (true, none)
  limit_ok (some l) key now = let (granted, l') = has_budget s.rate l key now in (granted, some l')

  unfoldable pub limit_allow : Option (Limiter s.rate) → Text → ℕ → Bool × Option (Limiter s.rate)
  limit_allow none key now = (true, none)
  limit_allow (some l) key now = let (granted, l') = allow s.rate l key now in (granted, some l')

  abbrev pub limit_spend : Option (Limiter s.rate) → Text → ℕ → Option (Limiter s.rate)
  limit_spend none key now = none
  limit_spend (some l) key now = some (spend s.rate l key now)

  -- The token, empty where none is issued, with the cookies that are set.
  pub record Identity : Type 0 where
    pub token : Text
    pub cookies : List Cookie
    pub site : Site s.rate

  unfoldable pub issue_token : Site s.rate → Request → Chance → Identity
  unfolding limit_allow
  issue_token site req chance =
      let (granted, limit) = limit_allow site.voter_limit (client_key req) chance.now in
      let counted : Site s.rate = record site { voter_limit = limit } in
      if granted
      then record {
        token = chance.token;
        cookies = cookie s voter_cookie (signed_token s chance.token) voter_ttl ∷ [];
        site = counted;
      }
      else record { token = []; cookies = []; site = counted }

  unfoldable pub voter_token : Site s.rate → Request → Chance → Identity
  unfolding issue_token
  voter_token site req chance = elim (find_cookie (cookie_name s voter_cookie) req.cookies) [
    | none ↦ issue_token site req chance
    | some value ↦ elim (verify_voter_token s value) [
      | none ↦ issue_token site req chance
      | some token ↦ record { token = token; cookies = []; site = site }
    ]
  ]
