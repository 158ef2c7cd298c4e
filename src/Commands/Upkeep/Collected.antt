-- ===== src/Commands/Upkeep/Collected.antt =====
-- The first password, from the start of the server to its collection.
use quicksurvey.Base.{
  ℕ, ◌≡◌, if◌then◌else◌, Bool, true, false, ◌&&◌, ◌||◌, List, [], ◌∷◌, Text, none, Result, ok, err,
}
use quicksurvey.Accounts.{Accounts}
use quicksurvey.Accounts.Actions.{Action, adds_must_change, sets_password, uses_reset, call, after}

-- The call would leave another password in the file; only `bootstrapAdmin` makes such a call.
abbrev pub bootstraps : Action → Bool
bootstraps (adds_must_change name role password hash) = true
bootstraps _ = false

-- The call sets a password of an account that is there.
abbrev pub gives_password : Action → Bool
gives_password (sets_password name password hash) = true
gives_password (uses_reset token password hash) = true
gives_password _ = false

abbrev pub succeeds {ℓ} : {A : Type ℓ} → Result A → Bool
succeeds (ok a) = true
succeeds (err e) = false

-- Some call of the sequence has set a password.
unfoldable pub password_set : (mac : List Text → Text) → Accounts → List (ℕ × Action) → Bool
password_set mac db [] = false
password_set mac db ((now, a) ∷ as') =
    let rest = password_set mac (after db (call mac db now a)) as' in
    (gives_password a && succeeds (call mac db now a)) || rest

abbrev FileAfter : (mac : List Text → Text) → Accounts → ℕ → Action → Type 0
FileAfter mac db now a =
    (after db (call mac db now a)).initial_password
    ≡ (if gives_password a && succeeds (call mac db now a) then none else db.initial_password)
