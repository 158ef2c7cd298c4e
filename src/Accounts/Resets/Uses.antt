-- ===== src/Accounts/Resets/Uses.antt =====
-- Which reset links of internal/store/reset.go still work after the operations on them.
use quicksurvey.Base.{
  ℕ, ◌≡◌, ◌≢◌, refl, ◌∙◌, subst, inl, inr, false, Option-cases, none, some, List, [], ◌∷◌, ◌++◌,
  All, any, Text, same, text_discrete, arith, ok,
}
use quicksurvey.Accounts.{Reset, Accounts, retire_resets, set_password}
use quicksurvey.Accounts.Resets.{find_reset, spend_reset, reset_digest, create_reset, use_reset}

-- The link is spent, or for another account.
abbrev pub IsSpentFor : Text → Reset → Type 0
IsSpentFor user r = r.user ≡ user → r.used ≢ 0

retire_resets-spent :
    (user : Text) (now : ℕ) (rs : List Reset)
    → now ≢ 0
    → All (IsSpentFor user) (retire_resets user now rs)
unfolding retire_resets
retire_resets-spent user now [] h = tt
retire_resets-spent user now (r ∷ rs) h = ((λ e z. ground arith), retire_resets-spent user now rs h)

-- Where the clock is past the zero time, after an account's password was set every reset link
-- for that account is spent.
pub set_password-spent :
    (db db' : Accounts) (name password hash : Text) (now : ℕ)
    → now ≢ 0
    → set_password db name password hash now ≡ ok db'
    → All (IsSpentFor name) db'.resets
unfolding set_password
set_password-spent db db' name password hash now h e =
    subst (All (IsSpentFor name)) (ground arith) (retire_resets-spent name now db.resets h)

-- Where the clock is past the zero time, after a reset link was made for an account it is unused
-- and every other link for that account is spent.
pub create_reset-only :
    (mac : List Text → Text) (db db' : Accounts) (user created_by fresh token : Text) (now : ℕ)
    (rp : Reset)
    → now ≢ 0
    → create_reset mac db user created_by fresh token now ≡ ok (rp, db')
    → (rs : List Reset) × (db'.resets ≡ rs ++ (rp ∷ []))
      × All (IsSpentFor user) rs
      × (rp.user ≡ user)
      × (rp.used ≡ 0)
unfolding create_reset
create_reset-only mac db db' user created_by fresh token now rp h e = (
  retire_resets user now db.resets,
  ground arith,
  retire_resets-spent user now db.resets h,
  ground arith,
  ground arith,
)

-- No two links have the same digest: the UNIQUE constraint on the column.
abbrev pub DistinctDigests : List Reset → Type 0
DistinctDigests [] = Unit {0}
DistinctDigests (r ∷ rs) = (any (λ v. same v.digest r.digest) rs ≡ false) × DistinctDigests rs

find_reset_absent :
    (want : Text) (rs : List Reset)
    → any (λ (v : Reset). same v.digest want) rs ≡ false
    → find_reset want rs ≡ none
unfolding find_reset any
find_reset_absent want [] h = refl
find_reset_absent want (r ∷ rs) h = ground (arith, find_reset_absent want rs)

digests-spend_reset :
    (want id : Text) (now : ℕ) (rs : List Reset)
    → any (λ (v : Reset). same v.digest want) (spend_reset id now rs)
      ≡ any (λ (v : Reset). same v.digest want) rs
unfolding spend_reset any
digests-spend_reset want id now [] = refl
digests-spend_reset want id now (r ∷ rs) = ground (arith, digests-spend_reset want id now rs)

find-spend_reset :
    (want : Text) (now : ℕ) (rs : List Reset) (rp : Reset)
    → now ≢ 0
    → DistinctDigests rs
    → find_reset want rs ≡ some rp
    → find_reset want (spend_reset rp.id now rs) ≡ none
unfolding find_reset spend_reset
find-spend_reset want now [] rp h d e = refl
find-spend_reset want now (r ∷ rs) rp h d e = elim (Option-cases (find_reset want rs)) [
  | inr (v, found) ↦ elim (text_discrete r.digest want) [
    | yes q ↦ absurd (
        ground (
          arith,
          find_reset_absent want rs
              (subst (λ w. any (λ (x : Reset). same x.digest w) rs ≡ false) q d.0),
        ))
    | no n ↦ ground (arith, find-spend_reset want now rs rp h d.1)
  ]
  | inl absent ↦ elim (text_discrete r.digest want) [
    | yes q ↦ ground (
      arith,
      find_reset_absent want (spend_reset rp.id now rs) (
          digests-spend_reset want rp.id now rs
          ∙ subst (λ w. any (λ (x : Reset). same x.digest w) rs ≡ false) q d.0),
    )
    | no n ↦ absurd (ground arith)
  ]
]

-- Where no two reset links have the same digest and the clock is past the zero time, a link sets
-- one password: after it was used, no use of it succeeds, whatever the password and whenever.
pub use_reset_once :
    (mac : List Text → Text) (db db' : Accounts) (token password hash user : Text) (now : ℕ)
    → now ≢ 0
    → DistinctDigests db.resets
    → use_reset mac db token password hash now ≡ ok (user, db')
    → (password' hash' : Text) (later : ℕ) (r : Text × Accounts)
    → use_reset mac db' token password' hash' later ≢ ok r
unfolding use_reset
use_reset_once mac db db' token password hash user now h d used password' hash' later r again =
    elim (Option-cases (find_reset (reset_digest mac token) db.resets)) [
      | inl absent ↦ ground arith
      | inr (rp, found) ↦
          let marked : db'.resets ≡ spend_reset rp.id now db.resets = ground arith in
          let gone : find_reset (reset_digest mac token) db'.resets ≡ none =
            rw marked (find-spend_reset (reset_digest mac token) now db.resets rp h d found) in
          ground arith
    ]
