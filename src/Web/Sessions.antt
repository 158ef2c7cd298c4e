-- ===== src/Web/Sessions.antt =====
-- internal/web/auth.go: sessions, CSRF tokens and the identity of a respondent's browser.
--
-- A value that `ParseInt` refuses and a negative one are both `none`: an expiry in the past.
pub mod Tokens
use quicksurvey.Base.{
  ℕ, ◌+◌, ◌/◌, ltb, leb, if◌then◌else◌, Bool, true, false, not, ◌&&◌, ◌||◌, Option, none, some,
  List, [], ◌∷◌, ◌++◌, length, take, Text, codes, same, is_empty, ◌==◌,
}
use quicksurvey.Accounts.{User, Accounts, Role, find_user, at_least}
use quicksurvey.Web.{Request, Cookie, Server, Site, find_cookie, form_value, unix}

abbrev pub session_cookie : Text
session_cookie = codes "qs_session"

abbrev pub voter_cookie : Text
voter_cookie = codes "qs_voter"

abbrev pub session_ttl : ℕ
session_ttl = 43_200_000_000_000

abbrev pub voter_ttl : ℕ
voter_ttl = 31_536_000_000_000_000

-- strings.Split at one byte.
unfoldable pub split_at : ℕ → Text → List Text
split_at sep [] = [] ∷ []
split_at sep (c ∷ cs) = elim (split_at sep cs) [
  | [] ↦ []
  | first ∷ rest ↦ if c == sep then [] ∷ first ∷ rest else (c ∷ first) ∷ rest
]

-- strings.Cut at one byte.
unfoldable pub cut_at : ℕ → Text → Option (Text × Text)
cut_at sep [] = none
cut_at sep (c ∷ cs) = elim (cut_at sep cs) [
  | none ↦ if c == sep then some ([], cs) else none
  | some (a, b) ↦ if c == sep then some ([], cs) else some (c ∷ a, b)
]

module _ (s : Server) where
  abbrev pub cookie_name : Text → Text
  cookie_name base = if s.secure_cookies then codes "__Host-" ++ base else base

  abbrev pub cookie : (name value : Text) (ttl : ℕ) → Cookie
  cookie name value ttl = record {
    name = cookie_name name;
    value = value;
    secure = s.secure_cookies;
    ttl = ttl;
  }

  unfoldable pub session_key : User → Text
  session_key u = u.name ++ (0 ∷ (u.hash ++ (0 ∷ s.print_time u.sessions_from)))

  abbrev pub session_body : (name exp : Text) → Text
  session_body name exp = name ++ (b'|' ∷ exp)

  abbrev pub session_mac : (name exp : Text) → User → Text
  session_mac name exp u = s.mac (codes "session" ∷ session_body name exp ∷ session_key u ∷ [])

  unfoldable pub new_session : User → (now : ℕ) → Text
  unfolding session_key
  new_session u now =
      let exp = s.print_nat (unix (now + session_ttl)) in
      session_body u.name exp ++ (b'|' ∷ session_mac u.name exp u)

  -- The part of `sessionUser` after the cookie was split.
  unfoldable pub session_of : Accounts → (now : ℕ) → (name exp mac : Text) → Option User
  unfolding session_key
  session_of db now name exp mac = elim (s.parse_int exp) [
    | none ↦ none
    | some ts ↦ if ltb ts (unix now) then none else elim (find_user name db.users) [
      | none ↦ none
      | some u ↦ if same mac (session_mac name exp u) then some u else none
    ]
  ]

  unfoldable pub session_parts : Accounts → (now : ℕ) → List Text → Option User
  unfolding session_of
  session_parts db now (name ∷ exp ∷ mac ∷ []) = session_of db now name exp mac
  session_parts db now _ = none

  unfoldable pub session_user : Accounts → (now : ℕ) → Request → Option User
  unfolding session_parts split_at
  session_user db now req = elim (find_cookie (cookie_name session_cookie) req.cookies) [
    | none ↦ none
    | some value ↦ session_parts db now (split_at b'|' value)
  ]

  unfoldable pub active_user : Accounts → (now : ℕ) → Request → Option User
  active_user db now req = elim (session_user db now req) [
    | none ↦ none
    | some u ↦ if u.pending || u.must_change_password then none else some u
  ]

  abbrev pub nonempty_cookie : Text → Request → Text
  nonempty_cookie base req = elim (find_cookie (cookie_name base) req.cookies) [
    | none ↦ []
    | some v ↦ v
  ]

  unfoldable pub csrf_token : Request → Text
  csrf_token req =
      if not (is_empty (nonempty_cookie session_cookie req))
      then s.mac (codes "csrf" ∷ nonempty_cookie session_cookie req ∷ [])
      else if not (is_empty (nonempty_cookie voter_cookie req))
      then s.mac (codes "csrf" ∷ nonempty_cookie voter_cookie req ∷ [])
      else []

  unfoldable pub check_csrf : Request → Bool
  unfolding csrf_token
  check_csrf req =
      not (is_empty (csrf_token req)) && same (form_value req.form (codes "csrf")) (csrf_token req)

  unfoldable pub verify_voter_token : Text → Option Text
  unfolding cut_at
  verify_voter_token v = elim (cut_at b'.' v) [
    | none ↦ none
    | some (tok, mac) ↦
        if ltb (length tok) 16
        then none
        else if same mac (s.mac (codes "voter-cookie" ∷ tok ∷ []))
        then some tok
        else none
  ]

  abbrev pub signed_token : Text → Text
  signed_token tok = tok ++ (b'.' ∷ s.mac (codes "voter-cookie" ∷ tok ∷ []))

  -- `VoterID`: a prefix of the digest.
  abbrev pub voter_id : (sid token : Text) → Text
  voter_id sid token = take 22 (s.mac (codes "voter" ∷ sid ∷ token ∷ []))
