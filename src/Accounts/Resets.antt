-- ===== src/Accounts/Resets.antt =====
-- internal/store/reset.go: single-use links that set a new password.
pub mod Uses
use quicksurvey.Base.{
  ℕ, ◌+◌, ltb, leb, ◌==◌, if◌then◌else◌, Bool, true, false, not, ◌&&◌, ◌||◌, Option, none, some,
  List, [], ◌∷◌, ◌++◌, any, length, Text, codes, same, is_empty, Result, ok, err, ◌>>=◌, ◌>>◌,
  require, or_fail, not_found, constraint_failed, short_password, link_not_valid,
}
use quicksurvey.Accounts.{User, Reset, Accounts, name_taken_by, update_user, retire_resets}

unfoldable pub is_open : Reset → ℕ → Bool
is_open rp now = rp.used == 0 && ltb now rp.expires

-- Two hours, in nanoseconds.
abbrev pub reset_ttl : ℕ
reset_ttl = 7_200_000_000_000

-- The last unused link with the digest.
unfoldable pub find_reset : Text → List Reset → Option Reset
find_reset want [] = none
find_reset want (r ∷ rs) = elim (find_reset want rs) [
  | some found ↦ some found
  | none ↦ if r.used == 0 && same r.digest want then some r else none
]

-- UPDATE resets SET used = ? WHERE id = ?
unfoldable pub spend_reset : Text → ℕ → List Reset → List Reset
spend_reset id now [] = []
spend_reset id now (r ∷ rs) =
    (if same r.id id then record r { used = now } else r) ∷ spend_reset id now rs

-- SELECT … FROM resets WHERE user_name = ? AND used IS NULL: the first such row.
unfoldable pub find_unused : Text → List Reset → Option Reset
find_unused user [] = none
find_unused user (r ∷ rs) = if same r.user user && r.used == 0 then some r else find_unused user rs

unfoldable pub outstanding_reset : Accounts → (user : Text) (now : ℕ) → Option Reset
outstanding_reset db user now = elim (find_unused user db.resets) [
  | none ↦ none
  | some r ↦ if is_open r now then some r else none
]

module _ (mac : List Text → Text) where
  abbrev pub reset_digest : Text → Text
  reset_digest token = mac (codes "reset" ∷ token ∷ [])

  unfoldable pub create_reset :
      Accounts → (user created_by fresh token : Text) (now : ℕ) → Result (Reset × Accounts)
  create_reset db user created_by fresh token now = do
    require (any (name_taken_by user) db.users) not_found
    let rp : Reset = record {
      id = fresh;
      digest = reset_digest token;
      user = user;
      created_by = created_by;
      created = now;
      expires = now + reset_ttl;
      used = 0;
    }
    require (not (any (λ r. same r.id rp.id || same r.digest rp.digest) db.resets))
        constraint_failed
    ok (rp, record db { resets = retire_resets user now db.resets ++ (rp ∷ []) })

  unfoldable pub reset_by_token : Accounts → (token : Text) (now : ℕ) → Option Reset
  reset_by_token db token now =
      if is_empty token then none else elim (find_reset (reset_digest token) db.resets) [
        | none ↦ none
        | some r ↦ if is_open r now then some r else none
      ]

  unfoldable pub use_reset :
      Accounts → (token password hash : Text) (now : ℕ) → Result (Text × Accounts)
  use_reset db token password hash now = do
    require (leb 8 (length password)) short_password
    rp ← or_fail (find_reset (reset_digest token) db.resets) link_not_valid
    require (is_open rp now) link_not_valid
    require (any (name_taken_by rp.user) db.users) not_found
    ok (
      rp.user,
      record db {
        users =
            update_user rp.user
              (λ u. record u { hash = hash; must_change_password = false; sessions_from = now })
              db.users;
        resets = spend_reset rp.id now db.resets;
        initial_password = none;
      },
    )
