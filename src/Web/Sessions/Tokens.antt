-- ===== src/Web/Sessions/Tokens.antt =====
-- The session cookie of internal/web/auth.go: which of those that `newSession` makes `sessionUser` takes.
use mathlib.Core.List.{append_assoc}
use quicksurvey.Base.{
  ℕ, ◌+◌, ◌==◌, ltb, if◌then◌else◌, inl, inr, ◌≡◌, refl, ap, ◌∙◌, Bool, false, not, ◌&&◌,
  Bool-cases, none, some, List, [], ◌∷◌, ◌++◌, any, Text, codes, same, arith,
}
use quicksurvey.Accounts.{User, Accounts, find_user}
use quicksurvey.Web.{Request, Server, find_cookie, unix}
use quicksurvey.Web.Sessions.{
  split_at, session_cookie, session_ttl, cookie_name, session_key, session_body, session_mac,
  new_session, session_of, session_parts, session_user,
}

-- A text without a byte.
abbrev pub IsFree : ℕ → Text → Type 0
IsFree sep t = any (λ c. c == sep) t ≡ false

pub split_at-free : (sep : ℕ) (t : Text) → IsFree sep t → split_at sep t ≡ t ∷ []
unfolding split_at any
split_at-free sep [] h = refl
split_at-free sep (c ∷ cs) h = ground (arith, split_at-free sep cs)

split_at-some : (sep : ℕ) (t : Text) → (p : Text) × (ps : List Text) × (split_at sep t ≡ p ∷ ps)
unfolding split_at
split_at-some sep [] = ([], [], refl)
split_at-some sep (c ∷ cs) =
    let (p, ps, e) = split_at-some sep cs in
    elim (Bool-cases (c == sep)) [
      | inl cut ↦ ([], p ∷ ps, ground (arith, e))
      | inr kept ↦ (c ∷ p, ps, ground (arith, e))
    ]

pub split_at-append :
    (sep : ℕ) (t rest : Text)
    → IsFree sep t
    → split_at sep (t ++ (sep ∷ rest)) ≡ t ∷ split_at sep rest
unfolding split_at any
split_at-append sep [] rest h = let (p, ps, e) = split_at-some sep rest in ground (arith, e)
split_at-append sep (c ∷ cs) rest h = ground (arith, split_at-append sep cs rest)

-- Two texts cut at their first NUL.
cut_unique :
    (a b t t' : Text) → IsFree 0 a → IsFree 0 b → a ++ (0 ∷ t) ≡ b ++ (0 ∷ t') → (a ≡ b) × (t ≡ t')
unfolding any
cut_unique [] [] t t' ha hb e = (refl, ground arith)
cut_unique [] (x ∷ b) t t' ha hb e = absurd (ground arith)
cut_unique (x ∷ a) [] t t' ha hb e = absurd (ground arith)
cut_unique (x ∷ a) (y ∷ b) t t' ha hb e =
    let rest = cut_unique a b t t' (ground arith) (ground arith) (ground arith) in
    (ground (arith, rest), rest.1)

find_user-name :
    (name : Text) (us : List User) (v : User) → find_user name us ≡ some v → v.name ≡ name
unfolding find_user
find_user-name name [] v e = absurd (ground arith)
find_user-name name (u ∷ us) v e = elim (Bool-cases (same u.name name)) [
  | inl hit ↦ ground arith
  | inr miss ↦ find_user-name name us v (ground arith)
]

-- What a session is bound to has not changed.
abbrev pub is_bound : User → User → Bool
is_bound u v = same v.hash u.hash && v.sessions_from == u.sessions_from

module _ (s : Server) (named : (m n : ℕ) → s.print_time m ≡ s.print_time n → m ≡ n)
    (parsed : (n : ℕ) → s.parse_int (s.print_nat n) ≡ some n)
    (numeric : (n : ℕ) → IsFree b'|' (s.print_nat n))
    (encoded : (ts : List Text) → IsFree b'|' (s.mac ts))
    (binding : (body k l : Text)
      → s.mac (codes "session" ∷ body ∷ k ∷ []) ≡ s.mac (codes "session" ∷ body ∷ l ∷ [])
      → k ≡ l) where
  session_mac-bound :
      (exp : Text) (u v : User)
      → v.name ≡ u.name
      → IsFree 0 u.name
      → IsFree 0 u.hash
      → IsFree 0 v.hash
      → same (session_mac s u.name exp u) (session_mac s u.name exp v) ≡ is_bound u v
  unfolding session_key
  session_mac-bound exp u v e fn fu fv = elim (Bool-cases (is_bound u v)) [
    | inl bound ↦ ground arith
    | inr apart ↦
        elim (Bool-cases (same (session_mac s u.name exp u) (session_mac s u.name exp v))) [
          | inr differ ↦ ground arith
          | inl agree ↦
              let k =
                binding (session_body s u.name exp) (session_key s u) (session_key s v)
                  (ground arith) in
              let rest =
                (cut_unique u.name v.name (u.hash ++ (0 ∷ s.print_time u.sessions_from))
                  (v.hash ++ (0 ∷ s.print_time v.sessions_from)) fn (ground (arith, e))
                  (unfold session_key in k)).1 in
              let (hashes, times) =
                cut_unique u.hash v.hash (s.print_time u.sessions_from)
                  (s.print_time v.sessions_from) fu fv rest in
              absurd (ground (arith, hashes, named u.sessions_from v.sessions_from times))
        ]
  ]

  split-new_session :
      (u : User) (now : ℕ)
      → IsFree b'|' u.name
      → split_at b'|' (new_session s u now)
        ≡ u.name
          ∷ s.print_nat (unix (now + session_ttl))
          ∷ session_mac s u.name (s.print_nat (unix (now + session_ttl))) u
          ∷ []
  unfolding new_session
  split-new_session u now free =
      let exp = s.print_nat (unix (now + session_ttl)) in
      let mac = session_mac s u.name exp u in
      ap (split_at b'|') (append_assoc u.name (b'|' ∷ exp) (b'|' ∷ mac))
      ∙ split_at-append b'|' u.name (exp ++ (b'|' ∷ mac)) free
      ∙ ap (λ ps. u.name ∷ ps)
          (split_at-append b'|' exp mac (numeric (unix (now + session_ttl)))
            ∙ ap (λ ps. exp ∷ ps)
                (split_at-free b'|' mac
                  (encoded (codes "session" ∷ session_body s u.name exp ∷ session_key s u ∷ []))))

  -- A cookie that `newSession` made for an account, whose name has no separator in it, is taken for
  -- the account that has the name now, as long as it has not expired and that account has the
  -- password hash and the time of the last sign-out that the session was made with, and for nobody
  -- otherwise: where digests and printed numbers have no `|`, numbers are parsed as printed, times
  -- are told apart as printed, the digest tells keys apart, and names and hashes have no NUL.
  pub session_user_lem :
      (db : Accounts) (u v : User) (now later : ℕ) (req : Request)
      → IsFree b'|' u.name
      → IsFree 0 u.name
      → IsFree 0 u.hash
      → IsFree 0 v.hash
      → find_cookie (cookie_name s session_cookie) req.cookies ≡ some (new_session s u now)
      → find_user u.name db.users ≡ some v
      → session_user s db later req ≡ (
          if not (ltb (unix (now + session_ttl)) (unix later)) && is_bound u v
          then some v
          else none)
  unfolding session_user session_parts session_of
  session_user_lem db u v now later req free fn fu fv sent found =
      let exp = s.print_nat (unix (now + session_ttl)) in
      ground (
        arith,
        split-new_session u now free,
        parsed (unix (now + session_ttl)),
        session_mac-bound exp u v (find_user-name u.name db.users v found) fn fu fv,
      )
