-- ===== src/Accounts/Invites/Claims.antt =====
-- What a link of internal/store/invite.go can be claimed for.
use quicksurvey.Base.{
  ℕ, ◌≡◌, ◌≢◌, refl, subst, ◌⊎◌, inl, inr, if◌then◌else◌, true, false, Option-cases, Bool-cases,
  none, some, List, [], ◌∷◌, ◌++◌, any, Text, same, is_empty, arith, ok,
}
use quicksurvey.Accounts.{User, Invite, Accounts, valid_username, name_taken_by}
use quicksurvey.Accounts.Invites.{
  is_open, find_invite, find_invite_id, update_invite, invite_digest, revoke_invite, claim_invite,
}

-- An update that keeps digests changes what a lookup finds, and not which row it finds.
find-update_invite :
    (want id : Text) (f : Invite → Invite) (ivs : List Invite)
    → ((iv : Invite) → (f iv).digest ≡ iv.digest)
    → ((find_invite want ivs ≡ none) × (find_invite want (update_invite id f ivs) ≡ none))
      ⊎ ((iv : Invite) × (find_invite want ivs ≡ some iv)
          × (find_invite want (update_invite id f ivs) ≡ some (if same iv.id id then f iv else iv)))
unfolding find_invite update_invite
find-update_invite want id f [] keeps = inl (refl, refl)
find-update_invite want id f (iv ∷ ivs) keeps = elim (find-update_invite want id f ivs keeps) [
  | inr (found, before, after) ↦ inr (found, rw before, rw after)
  | inl (before, after) ↦ elim (Bool-cases (same iv.digest want)) [
    | inl hit ↦ inr (iv, rw (before, hit), ground (arith, keeps iv))
    | inr miss ↦ inl (rw (before, miss), ground (arith, keeps iv))
  ]
]

-- A claim that succeeds was made with a link that is found by its digest and open, and with a
-- valid name that nobody has; it adds one account, which is pending, has the link's role and the
-- hash given, and marks the link's row as claimed by that name at that time.
pub claim_invite-eq-ok :
    (mac : List Text → Text) (db : Accounts) (token raw password hash : Text) (now : ℕ) (u : User)
    (db' : Accounts)
    → claim_invite mac db token raw password hash now ≡ ok (u, db')
    → (iv : Invite) × (find_invite (invite_digest mac token) db.invites ≡ some iv)
      × (is_open iv now ≡ true)
      × (valid_username u.name ≡ true)
      × (any (name_taken_by u.name) db.users ≡ false)
      × (u.pending ≡ true)
      × (u.role ≡ iv.role)
      × (u.hash ≡ hash)
      × (db'.users ≡ db.users ++ (u ∷ []))
      × (db'.invites
          ≡ update_invite iv.id (λ v. record v { claimed_by = u.name; claimed = now }) db.invites)
unfolding claim_invite
claim_invite-eq-ok mac db token raw password hash now u db' h =
    elim (Option-cases (find_invite (invite_digest mac token) db.invites)) [
      | inl absent ↦ absurd (ground arith)
      | inr (iv, found) ↦ (
        iv,
        found,
        ground arith,
        ground arith,
        ground arith,
        ground arith,
        ground arith,
        ground arith,
        ground arith,
        ground arith,
      )
    ]

-- Where the link found is not open, or there is none, nothing is claimed.
claim_refused :
    (mac : List Text → Text) (db : Accounts) (token raw password hash : Text) (now : ℕ)
    → ((iv : Invite)
        → find_invite (invite_digest mac token) db.invites ≡ some iv
        → is_open iv now ≡ false)
    → (r : User × Accounts) → claim_invite mac db token raw password hash now ≢ ok r
unfolding claim_invite
claim_refused mac db token raw password hash now shut r h =
    elim (Option-cases (find_invite (invite_digest mac token) db.invites)) [
      | inl absent ↦ ground arith
      | inr (iv, found) ↦ ground (arith, shut iv found)
    ]

-- The link that a lookup finds after an update of the row that it found before.
find_after :
    (want : Text) (f : Invite → Invite) (ivs : List Invite) (iv jv : Invite)
    → ((v : Invite) → (f v).digest ≡ v.digest)
    → find_invite want ivs ≡ some iv
    → find_invite want (update_invite iv.id f ivs) ≡ some jv
    → jv ≡ f iv
find_after want f ivs iv jv keeps before after = elim (find-update_invite want iv.id f ivs keeps) [
  | inl (absent, _) ↦ absurd (ground arith)
  | inr (v, found, changed) ↦
      let e : v ≡ iv = ground arith in
      let c : find_invite want (update_invite iv.id f ivs)
          ≡ some (if same iv.id iv.id then f iv else iv) =
        subst
          (λ (x : Invite).
            find_invite want (update_invite iv.id f ivs)
            ≡ some (if same x.id iv.id then f x else x))
          e changed in
      ground arith
]

valid_username-nonempty : (name : Text) → valid_username name ≡ true → is_empty name ≡ false
unfolding valid_username
valid_username-nonempty [] h = absurd (ground arith)
valid_username-nonempty (c ∷ cs) h = refl

-- A link is good for one account: after it was claimed, no claim of it succeeds, whatever name and
-- password it is made with and whenever.
pub claim_invite_once :
    (mac : List Text → Text) (db db' : Accounts) (token raw password hash : Text) (now : ℕ)
    (u : User)
    → claim_invite mac db token raw password hash now ≡ ok (u, db')
    → (raw' password' hash' : Text) (later : ℕ) (r : User × Accounts)
    → claim_invite mac db' token raw' password' hash' later ≢ ok r
claim_invite_once mac db db' token raw password hash now u h raw' password' hash' later =
    let (iv, found, _, valid, _, _, _, _, _, marked) =
      claim_invite-eq-ok mac db token raw password hash now u db' h in
    claim_refused mac db' token raw' password' hash' later (λ jv e.
      let q : jv ≡ record iv { claimed_by = u.name; claimed = now } =
        find_after (invite_digest mac token) (λ v. record v { claimed_by = u.name; claimed = now })
          db.invites iv jv (λ _. refl) found
          (subst (λ l. find_invite (invite_digest mac token) l ≡ some jv) marked e) in
      rw q (unfold is_open in ground (arith, valid_username-nonempty u.name valid)))

-- After the row that a link is found at was revoked, no claim with that link succeeds.
pub claim_revoked :
    (mac : List Text → Text) (db db' : Accounts) (token : Text) (iv : Invite)
    → find_invite (invite_digest mac token) db.invites ≡ some iv
    → revoke_invite db iv.id ≡ ok db'
    → (raw password hash : Text) (now : ℕ) (r : User × Accounts)
    → claim_invite mac db' token raw password hash now ≢ ok r
unfolding revoke_invite
claim_revoked mac db db' token iv found h raw password hash now =
    claim_refused mac db' token raw password hash now (λ jv e.
      let marked : db'.invites ≡ update_invite iv.id (λ v. record v { revoked = true }) db.invites =
        elim (Option-cases (find_invite_id iv.id db.invites)) [
          | inl absent ↦ absurd (ground arith)
          | inr (v, there) ↦ ground arith
        ] in
      let q : jv ≡ record iv { revoked = true } =
        find_after (invite_digest mac token) (λ v. record v { revoked = true }) db.invites iv jv
          (λ _. refl) found
          (subst (λ l. find_invite (invite_digest mac token) l ≡ some jv) marked e) in
      rw q (unfold is_open in refl))
