-- ===== src/Accounts/Invites.antt =====
-- internal/store/invite.go: single-use links that create a pending account.
--
-- `mac` is `Store.MAC`, whose digest of a link's secret is all that is stored; the secret, the id
-- and the password hash are drawn outside and are arguments.
pub mod Claims
use quicksurvey.Base.{
  ℕ, ◌+◌, ◌*◌, ltb, leb, ◌==◌, if◌then◌else◌, Bool, true, false, not, ◌&&◌, ◌||◌, Option, none,
  some, List, [], ◌∷◌, ◌++◌, any, length, Text, codes, same, is_empty, trim_space, Result, ok, err,
  ◌>>=◌, ◌>>◌, require, or_fail, not_found, constraint_failed, unknown_role, bad_username,
  short_password, link_not_valid, name_taken, already_claimed,
}
use quicksurvey.Accounts.{Role, User, Invite, Accounts, valid_role, valid_username, name_taken_by}

unfoldable pub is_open : Invite → ℕ → Bool
is_open iv now = not iv.revoked && is_empty iv.claimed_by && ltb now iv.expires

pub data InviteStatus : Type 0 where
  revoked expired opened : InviteStatus
  claimed_by : Text → InviteStatus

unfoldable pub status : Invite → ℕ → InviteStatus
status iv now =
    if iv.revoked
    then InviteStatus.revoked
    else if not (is_empty iv.claimed_by)
    then InviteStatus.claimed_by iv.claimed_by
    else if not (ltb now iv.expires)
    then InviteStatus.expired
    else InviteStatus.opened

-- Seven days, in nanoseconds.
abbrev pub invite_ttl : ℕ
invite_ttl = 604_800_000_000_000

-- The last invite with the digest: the scan does not stop early.
unfoldable pub find_invite : Text → List Invite → Option Invite
find_invite want [] = none
find_invite want (iv ∷ ivs) = elim (find_invite want ivs) [
  | some found ↦ some found
  | none ↦ if same iv.digest want then some iv else none
]

-- UPDATE invites SET … WHERE id = ?
unfoldable pub update_invite : Text → (Invite → Invite) → List Invite → List Invite
update_invite id f [] = []
update_invite id f (iv ∷ ivs) = (if same iv.id id then f iv else iv) ∷ update_invite id f ivs

unfoldable pub find_invite_id : Text → List Invite → Option Invite
find_invite_id id [] = none
find_invite_id id (iv ∷ ivs) = if same iv.id id then some iv else find_invite_id id ivs

unfoldable pub revoke_invite : Accounts → (id : Text) → Result Accounts
revoke_invite db id = do
  iv ← or_fail (find_invite_id id db.invites) not_found
  require (is_empty iv.claimed_by) already_claimed
  ok (record db { invites = update_invite id (λ v. record v { revoked = true }) db.invites })

module _ (mac : List Text → Text) where
  abbrev pub invite_digest : Text → Text
  invite_digest token = mac (codes "invite" ∷ token ∷ [])

  -- `ttl` is 0 where the source has a duration that is not positive.
  unfoldable pub create_invite :
      Accounts
      → (created_by : Text) → Role
      → (note : Text) → (ttl : ℕ) → (fresh token : Text) (now : ℕ) → Result (Invite × Accounts)
  create_invite db created_by role note ttl fresh token now = do
    require (valid_role role) unknown_role
    let iv : Invite = record {
      id = fresh;
      digest = invite_digest token;
      role = role;
      note = trim_space note;
      created_by = created_by;
      created = now;
      expires = now + (if ttl == 0 then invite_ttl else ttl);
      claimed_by = [];
      claimed = 0;
      revoked = false;
    }
    require (not (any (λ v. same v.id iv.id || same v.digest iv.digest) db.invites))
        constraint_failed
    ok (iv, record db { invites = db.invites ++ (iv ∷ []) })

  unfoldable pub invite_by_token : Accounts → (token : Text) (now : ℕ) → Option Invite
  invite_by_token db token now =
      if is_empty token then none else elim (find_invite (invite_digest token) db.invites) [
        | none ↦ none
        | some iv ↦ if is_open iv now then some iv else none
      ]

  unfoldable pub claim_invite :
      Accounts → (token name password hash : Text) (now : ℕ) → Result (User × Accounts)
  claim_invite db token raw password hash now = do
    let name = trim_space raw
    require (valid_username name) bad_username
    require (leb 8 (length password)) short_password
    iv ← or_fail (find_invite (invite_digest token) db.invites) link_not_valid
    require (is_open iv now) link_not_valid
    require (not (any (name_taken_by name) db.users)) name_taken
    let u : User = record {
      name = name;
      role = iv.role;
      hash = hash;
      created = now;
      must_change_password = false;
      pending = true;
      invited_by = iv.created_by;
      sessions_from = 0;
    }
    ok (
      u,
      record db {
        users = db.users ++ (u ∷ []);
        invites =
            update_invite iv.id (λ v. record v { claimed_by = name; claimed = now }) db.invites;
      },
    )
