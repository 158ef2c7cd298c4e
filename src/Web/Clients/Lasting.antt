-- ===== src/Web/Clients/Lasting.antt =====
-- The voter cookie of internal/web/auth.go, over the requests of one browser.
use quicksurvey.Base.{
  ℕ, ◌≤◌, inl, inr, ◌≡◌, ◌≢◌, subst, Bool-cases, Option-cases, Option, some, [], ◌∷◌, ◌++◌, any,
  length, Text, codes, arith,
}
use quicksurvey.Web.{Request, Server, Site, Chance, find_cookie}
use quicksurvey.Web.Sessions.{cut_at, cookie_name, voter_cookie, verify_voter_token, signed_token}
use quicksurvey.Web.Sessions.Tokens.{IsFree}
use quicksurvey.Web.Clients.{Identity, client_key, limit_allow, issue_token, voter_token}

cut_at-append :
    (sep : ℕ) (t rest : Text) → IsFree sep t → cut_at sep (t ++ (sep ∷ rest)) ≡ some (t, rest)
unfolding cut_at any
cut_at-append sep [] rest h = ground arith
cut_at-append sep (c ∷ cs) rest h = ground (arith, cut_at-append sep cs rest)

module _ (s : Server) where
  verify-signed_token :
      (t : Text) → IsFree b'.' t → 16 ≤ length t → verify_voter_token s (signed_token s t) ≡ some t
  unfolding verify_voter_token
  verify-signed_token t free long =
      ground (arith, cut_at-append b'.' t (s.mac (codes "voter-cookie" ∷ t ∷ [])) free)

  -- The voter cookie that the browser has after the reply: the one set, or the one it had.
  abbrev pub carried : Request → Identity s → Option Text
  carried req who = elim who.cookies [
    | [] ↦ find_cookie (cookie_name s voter_cookie) req.cookies
    | c ∷ cs ↦ some c.value
  ]

  recognised :
      (site : Site s.rate) (req : Request) (chance : Chance) (value token : Text)
      → find_cookie (cookie_name s voter_cookie) req.cookies ≡ some value
      → verify_voter_token s value ≡ some token
      → voter_token s site req chance ≡ record { token = token; cookies = []; site = site }
  unfolding voter_token
  recognised site req chance value token sent good = ground (arith, sent, good)

  -- The conclusion for an identity that was given.
  abbrev Lasts : Site s.rate → Request → Chance → Request → Identity s → Type 0
  Lasts later again next req who =
      who.token ≢ []
      → find_cookie (cookie_name s voter_cookie) again.cookies ≡ carried req who
      → voter_token s later again next ≡ record { token = who.token; cookies = []; site = later }

  issue_token-Lasts :
      (site later : Site s.rate) (req again : Request) (chance next : Chance)
      → IsFree b'.' chance.token
      → 16 ≤ length chance.token
      → Lasts later again next req (issue_token s site req chance)
  unfolding issue_token
  issue_token-Lasts site later req again chance next free long =
      elim (Bool-cases (limit_allow s site.voter_limit (client_key s req) chance.now).0) [
        | inr refused ↦ λ given sent. absurd (given (ground arith))
        | inl granted ↦ λ given sent. ground (
          arith,
          recognised later again next (signed_token s chance.token) chance.token
              (ground (arith, sent)) (verify-signed_token chance.token free long),
        )
      ]

  -- A browser that was given an identity and sends its voter cookie again is recognised by the same
  -- token from then on, on any site and whatever the limiter has left, and the limiter is not charged.
  pub voter_token-lasts :
      (site later : Site s.rate) (req again : Request) (chance next : Chance)
      → IsFree b'.' chance.token
      → 16 ≤ length chance.token
      → (voter_token s site req chance).token ≢ []
      → find_cookie (cookie_name s voter_cookie) again.cookies
        ≡ carried req (voter_token s site req chance)
      → voter_token s later again next
        ≡ record { token = (voter_token s site req chance).token; cookies = []; site = later }
  unfolding voter_token
  voter_token-lasts site later req again chance next free long =
      elim (Option-cases (find_cookie (cookie_name s voter_cookie) req.cookies)) [
        | inl none_sent ↦
            let e : issue_token s site req chance ≡ voter_token s site req chance = ground arith in
            subst (Lasts later again next req) e
              (issue_token-Lasts site later req again chance next free long)
        | inr (value, had) ↦ elim (Option-cases (verify_voter_token s value)) [
          | inl forged ↦
              let e : issue_token s site req chance ≡ voter_token s site req chance =
                ground arith in
              subst (Lasts later again next req) e
                (issue_token-Lasts site later req again chance next free long)
          | inr (token, good) ↦ λ given sent.
              ground (arith, recognised later again next value token (ground (arith, sent)) good)
        ]
      ]
