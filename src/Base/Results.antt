-- ===== src/Base/Results.antt =====
-- Errors as values. Each constructor is one of the errors that the store returns.
use mathlib.Core.Path.{◌≡◌, refl}
use mathlib.Core.Logic.{◌⊎◌, inl, inr}
use mathlib.Core.Bool.{Bool, true, false}
use mathlib.Core.Option.{Option, none, some}

pub data Error : Type 0 where
  not_found already_exists constraint_failed : Error
  needs_title empty_text text_too_long too_many_options : Error
  bad_merge_target merge_into_merged unknown_status : Error
  not_accepting no_write_ins too_many_own_suggestions too_many_suggestions : Error
  unknown_role bad_username short_password last_admin already_approved : Error
  link_not_valid name_taken already_claimed : Error
  bad_format no_version newer_version unknown_kind unknown_state empty_option : Error
  responses_need_id no_source_id dangling_reference no_voter not_json unknown_action : Error
  name_required survey_required unknown_command no_survey unknown_kind_of_export no_password : Error
  bad_path file_exists snapshot_failed no_initial_password target_required usage unhealthy
        not_opened :
      Error

pub data Result {ℓ} (A : Type ℓ) : Type ℓ where
  ok : A → Result A
  err : Error → Result A

-- An early return with an error, unless the test passes.
abbrev pub require : Bool → Error → Result (Unit {0})
require false why = err why
require true why = ok tt

-- The next call, where the first one has a value.
infixl 5 ◌>>=◌ ◌>>◌
abbrev pub ◌>>=◌ {ℓ κ} : {S : Type ℓ} {T : Type κ} → Result S → (S → Result T) → Result T
err why >>= next = err why
ok s >>= next = next s

abbrev pub ◌>>◌ {κ} : {T : Type κ} → (checked : Result (Unit {0})) (next : Result T) → Result T
err why >> next = err why
ok _ >> next = next

abbrev pub or_fail {ℓ} : {A : Type ℓ} → Option A → Error → Result A
or_fail none e = err e
or_fail (some a) e = ok a

pub Result-cases {ℓ} :
    {A : Type ℓ} (r : Result A) → ((a : A) × (r ≡ ok a)) ⊎ ((e : Error) × (r ≡ err e))
Result-cases (ok a) = inl (a, refl)
Result-cases (err e) = inr (e, refl)

pub Sum-cases {ℓ κ} :
    {A : Type ℓ} {B : Type κ} (x : A ⊎ B) → ((a : A) × (x ≡ inl a)) ⊎ ((b : B) × (x ≡ inr b))
Sum-cases (inl a) = inl (a, refl)
Sum-cases (inr b) = inr (b, refl)
