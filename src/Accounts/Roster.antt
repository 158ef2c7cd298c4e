-- ===== src/Accounts/Roster.antt =====
-- The rows of `users` in internal/store/users.go under updates, deletions and insertions: names and
-- administrators.
use quicksurvey.Base.{
  inl, inr, ◌==◌, ◌≡◌, refl, ◌∙◌, subst, true, false, not, ◌||◌, Bool-cases, some, List, [], ◌∷◌,
  ◌++◌, filter, any, Text, same, text_discrete, arith,
}
use quicksurvey.Accounts.{
  User, find_user, update_user, name_taken_by, approved_admin, other_admin, count_other_admins,
}

abbrev pub DistinctNames : List User → Type 0
DistinctNames [] = Unit {0}
DistinctNames (u ∷ us) = (any (name_taken_by u.name) us ≡ false) × DistinctNames us

-- Someone can administer the instance, and no two accounts share a name.
pub record IsSafe (us : List User) : Type 0 where
  pub distinct : DistinctNames us
  pub administered : any approved_admin us ≡ true

module _ (name : Text) (f : User → User) (keeps : (u : User) → (f u).name ≡ u.name) where
  names-update_user :
      (n : Text) (us : List User)
      → any (name_taken_by n) (update_user name f us) ≡ any (name_taken_by n) us
  unfolding any update_user
  names-update_user n [] = refl
  names-update_user n (u ∷ us) = ground (arith, keeps u, names-update_user n us)

  DistinctNames-update_user :
      (us : List User) → DistinctNames us → DistinctNames (update_user name f us)
  unfolding update_user
  DistinctNames-update_user [] d = tt
  DistinctNames-update_user (u ∷ us) d = elim (Bool-cases (same u.name name)) [
    | inl hit ↦
        rw (hit, keeps u) (names-update_user u.name us ∙ d.0, DistinctNames-update_user us d.1)
    | inr miss ↦ rw miss (names-update_user u.name us ∙ d.0, DistinctNames-update_user us d.1)
  ]

  -- An administrator of another name is untouched.
  admin-update_user :
      (us : List User)
      → any (other_admin name) us ≡ true
      → any approved_admin (update_user name f us) ≡ true
  unfolding any update_user
  admin-update_user [] h = h
  admin-update_user (u ∷ us) h = elim (Bool-cases (same u.name name)) [
    | inl hit ↦ ground (arith, admin-update_user us)
    | inr miss ↦ ground (arith, admin-update_user us)
  ]

-- An update that takes no administrator's role or approval away.
pub admin-update_user_mono :
    (name : Text) (f : User → User)
    → ((u : User) → approved_admin u ≡ true → approved_admin (f u) ≡ true)
    → (us : List User) → any approved_admin us ≡ true
    → any approved_admin (update_user name f us) ≡ true
unfolding any update_user
admin-update_user_mono name f keeps [] h = h
admin-update_user_mono name f keeps (u ∷ us) h = elim (Bool-cases (same u.name name)) [
  | inl hit ↦ ground (arith, keeps u, admin-update_user_mono name f keeps us)
  | inr miss ↦ ground (arith, admin-update_user_mono name f keeps us)
]

other_admin_absent :
    (name : Text) (us : List User)
    → any (name_taken_by name) us ≡ false
    → any (other_admin name) us ≡ any approved_admin us
unfolding any
other_admin_absent name [] h = refl
other_admin_absent name (u ∷ us) h = ground (arith, other_admin_absent name us)

-- If the account of a name is no approved administrator, one of another name is.
pub other_admin_there :
    (name : Text) (us : List User) (u : User)
    → DistinctNames us
    → any approved_admin us ≡ true
    → find_user name us ≡ some u
    → approved_admin u ≡ false
    → any (other_admin name) us ≡ true
unfolding any find_user
other_admin_there name [] u d s e h = absurd (ground arith)
other_admin_there name (v ∷ us) u d s e h = elim (text_discrete v.name name) [
  | yes q ↦
      let apart : any (name_taken_by name) us ≡ false =
        subst (λ n. any (name_taken_by n) us ≡ false) q d.0 in
      ground (arith, other_admin_absent name us apart)
  | no n ↦ ground (arith, other_admin_there name us u d.1)
]

pub count_other_admins_lem :
    (name : Text) (us : List User)
    → (count_other_admins name us == 0) ≡ not (any (other_admin name) us)
unfolding count_other_admins any filter
count_other_admins_lem name [] = refl
count_other_admins_lem name (u ∷ us) = ground (arith, count_other_admins_lem name us)

pub admin-filter :
    (name : Text) (us : List User)
    → any approved_admin (filter (λ v. not (same v.name name)) us) ≡ any (other_admin name) us
unfolding any filter
admin-filter name [] = refl
admin-filter name (u ∷ us) = ground (arith, admin-filter name us)

names-filter :
    (name n : Text) (us : List User)
    → any (name_taken_by n) us ≡ false
    → any (name_taken_by n) (filter (λ v. not (same v.name name)) us) ≡ false
unfolding any filter
names-filter name n [] h = refl
names-filter name n (u ∷ us) h = ground (arith, names-filter name n us)

pub DistinctNames-filter :
    (name : Text) (us : List User)
    → DistinctNames us
    → DistinctNames (filter (λ v. not (same v.name name)) us)
unfolding filter
DistinctNames-filter name [] d = tt
DistinctNames-filter name (u ∷ us) d = elim (Bool-cases (not (same u.name name))) [
  | inl kept ↦ rw kept (names-filter name u.name us d.0, DistinctNames-filter name us d.1)
  | inr dropped ↦ rw dropped (DistinctNames-filter name us d.1)
]

names-snoc :
    (n : Text) (us : List User) (u : User)
    → any (name_taken_by n) (us ++ (u ∷ [])) ≡ (any (name_taken_by n) us || same u.name n)
unfolding any
names-snoc n [] u = ground arith
names-snoc n (v ∷ us) u = ground (arith, names-snoc n us u)

DistinctNames-snoc :
    (us : List User) (u : User)
    → any (name_taken_by u.name) us ≡ false
    → DistinctNames us
    → DistinctNames (us ++ (u ∷ []))
unfolding any
DistinctNames-snoc [] u new d = (refl, tt)
DistinctNames-snoc (v ∷ us) u new d =
    (ground (arith, names-snoc v.name us u, d.0), DistinctNames-snoc us u (ground arith) d.1)

admin-snoc :
    (us : List User) (u : User)
    → any approved_admin us ≡ true
    → any approved_admin (us ++ (u ∷ [])) ≡ true
unfolding any
admin-snoc [] u h = absurd (ground arith)
admin-snoc (v ∷ us) u h = ground (arith, admin-snoc us u)

pub IsSafe-snoc :
    (us : List User) (u : User)
    → any (name_taken_by u.name) us ≡ false
    → IsSafe us
    → IsSafe (us ++ (u ∷ []))
IsSafe-snoc us u new s = record {
  distinct = DistinctNames-snoc us u new s.distinct;
  administered = admin-snoc us u s.administered;
}

pub IsSafe-update_user_mono :
    (name : Text) (f : User → User) (us : List User)
    → ((u : User) → (f u).name ≡ u.name)
    → ((u : User) → approved_admin u ≡ true → approved_admin (f u) ≡ true)
    → IsSafe us
    → IsSafe (update_user name f us)
IsSafe-update_user_mono name f us keeps role_kept s = record {
  distinct = DistinctNames-update_user name f keeps us s.distinct;
  administered = admin-update_user_mono name f role_kept us s.administered;
}

-- Any update, where someone else is an administrator.
pub IsSafe-update_user :
    (name : Text) (f : User → User) (us : List User)
    → ((u : User) → (f u).name ≡ u.name)
    → any (other_admin name) us ≡ true
    → IsSafe us
    → IsSafe (update_user name f us)
IsSafe-update_user name f us keeps other s = record {
  distinct = DistinctNames-update_user name f keeps us s.distinct;
  administered = admin-update_user name f keeps us other;
}
