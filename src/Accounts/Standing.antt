-- ===== src/Accounts/Standing.antt =====
-- What an account may do, by its row of `users` in internal/store/users.go, and the calls that leave
-- that alone.
use quicksurvey.Base.{
  ℕ, ◌⊎◌, inl, inr, ◌≡◌, refl, sym, if◌then◌else◌, subst, Bool, true, false, Bool-cases,
  Option-cases, Option, none, some, List, [], ◌∷◌, ◌++◌, any, Text, same, arith, ok,
}
use quicksurvey.Accounts.{
  Role, User, Accounts, update_user, name_taken_by, set_password, revoke_sessions,
}
use quicksurvey.Accounts.Invites.{claim_invite}
use quicksurvey.Accounts.Invites.Claims.{claim_invite-eq-ok}
use quicksurvey.Accounts.Resets.{use_reset, find_reset, reset_digest}

-- The role of an account, and whether it waits for approval.
unfoldable pub standing : Text → List User → Option (Role × Bool)
standing name [] = none
standing name (u ∷ us) = if same u.name name then some (u.role, u.pending) else standing name us

-- Nobody's standing is another, and whoever is new waits for approval.
abbrev pub Keeps : (before later : List User) → Type 0
Keeps before later =
    (name : Text)
    → (standing name later ≡ standing name before)
      ⊎ ((standing name before ≡ none) × (r : Role) × (standing name later ≡ some (r, true)))

pub Keeps-refl : (us : List User) → Keeps us us
Keeps-refl us name = inl refl

pub standing-update_user :
    (name : Text) (f : User → User)
    → ((u : User) → ((f u).name ≡ u.name) × ((f u).role ≡ u.role) × ((f u).pending ≡ u.pending))
    → (n : Text) (us : List User) → standing n (update_user name f us) ≡ standing n us
unfolding standing update_user
standing-update_user name f keeps n [] = refl
standing-update_user name f keeps n (u ∷ us) =
    ground (arith, (keeps u).0, (keeps u).1, (keeps u).2, standing-update_user name f keeps n us)

standing-snoc :
    (n : Text) (us : List User) (u : User)
    → any (name_taken_by u.name) us ≡ false
    → u.pending ≡ true
    → (standing n (us ++ (u ∷ [])) ≡ standing n us)
      ⊎ ((standing n us ≡ none) × (r : Role) × (standing n (us ++ (u ∷ [])) ≡ some (r, true)))
unfolding standing any
standing-snoc n [] u fresh waits = elim (Bool-cases (same u.name n)) [
  | inl hit ↦ inr (refl, u.role, ground arith)
  | inr miss ↦ inl (ground arith)
]
standing-snoc n (v ∷ us) u fresh waits = elim (Bool-cases (same v.name n)) [
  | inl hit ↦ inl (ground arith)
  | inr miss ↦ elim (standing-snoc n us u (ground arith) waits) [
    | inl e ↦ inl (ground (arith, e))
    | inr (a, r, e) ↦ inr (ground (arith, a), r, ground (arith, e))
  ]
]

pub set_password-Keeps :
    (db db' : Accounts) (name password hash : Text) (now : ℕ)
    → set_password db name password hash now ≡ ok db'
    → Keeps db.users db'.users
unfolding set_password
set_password-Keeps db db' name password hash now e n =
    let kept =
      standing-update_user name (λ u. record u { hash = hash; must_change_password = false })
        (λ u. (refl, refl, refl)) n db.users in
    inl (ground (arith, kept))

pub revoke_sessions-Keeps :
    (db db' : Accounts) (name : Text) (now : ℕ)
    → revoke_sessions db name now ≡ ok db'
    → Keeps db.users db'.users
unfolding revoke_sessions
revoke_sessions-Keeps db db' name now e n =
    let kept =
      standing-update_user name (λ u. record u { sessions_from = now }) (λ u. (refl, refl, refl)) n
        db.users in
    inl (ground (arith, kept))

pub claim_invite-Keeps :
    (mac : List Text → Text) (db : Accounts) (token name password hash : Text) (now : ℕ) (u : User)
    (db' : Accounts)
    → claim_invite mac db token name password hash now ≡ ok (u, db')
    → Keeps db.users db'.users
claim_invite-Keeps mac db token name password hash now u db' e n =
    let (iv, found, live, valid, fresh, waits, role, h, users, marked) =
      claim_invite-eq-ok mac db token name password hash now u db' e in
    subst
      (λ us.
        (standing n us ≡ standing n db.users)
        ⊎ ((standing n db.users ≡ none) × (r : Role) × (standing n us ≡ some (r, true))))
      (sym users) (standing-snoc n db.users u fresh waits)

pub use_reset-Keeps :
    (mac : List Text → Text) (db : Accounts) (token password hash : Text) (now : ℕ) (name : Text)
    (db' : Accounts)
    → use_reset mac db token password hash now ≡ ok (name, db')
    → Keeps db.users db'.users
unfolding use_reset
use_reset-Keeps mac db token password hash now name db' e n =
    elim (Option-cases (find_reset (reset_digest mac token) db.resets)) [
      | inl absent ↦ absurd (ground arith)
      | inr (rp, found) ↦
          let kept =
            standing-update_user rp.user
              (λ u. record u { hash = hash; must_change_password = false; sessions_from = now })
              (λ u. (refl, refl, refl)) n db.users in
          inl (ground (arith, kept))
    ]
