-- ===== src/Tables/Authored.antt =====
-- What editors decide in the tables of internal/store/survey.go: the settings of surveys, and the texts
-- and statuses of options, by their ids.
use quicksurvey.Base.{
  All-mono, All-filter, All-map, sort_by, leb, ℕ, suc, ◌≡◌, refl, ◌∙◌, sym, ap, inl, inr,
  if◌then◌else◌, Bool-cases, Option, none, some, List, [], ◌∷◌, ◌++◌, All, All-sort_by, filter,
  Text, same, arith,
}
use quicksurvey.Survey.{SurveyOption, Survey, OptionStatus}
use quicksurvey.Tables.{
  OptionRow, find_survey, load_options, stamp, upsert_survey, upsert_option, upsert_options,
}

-- A row of `surveys` without its two time stamps.
abbrev pub face : Survey → Survey
face sv = record sv { options = []; first_opened_at = 0; updated = 0 }

unfoldable pub face_of : Text → List Survey → Option Survey
face_of id [] = none
face_of id (sv ∷ svs) = if same sv.id id then some (face sv) else face_of id svs

-- What is decided of an option: its survey, text, status and merge target.
pub record Decided : Type 0 where
  pub survey_id : Text
  pub text : Text
  pub status : OptionStatus
  pub merged_into : Text

abbrev pub decided : Text → SurveyOption → Decided
decided sid o = record {
  survey_id = sid;
  text = o.text;
  status = o.status;
  merged_into = o.merged_into;
}

unfoldable pub decided_of : Text → List OptionRow → Option Decided
decided_of id [] = none
decided_of id (r ∷ rs) =
    if same r.option.id id then some (decided r.survey_id r.option) else decided_of id rs

-- Every row is the one that its id finds: the primary key.
abbrev pub IsKeyed : List OptionRow → Type 0
IsKeyed rows = All (λ r. decided_of r.option.id rows ≡ some (decided r.survey_id r.option)) rows

pub face-stamp : (sv : Survey) (now : ℕ) → face (stamp sv now) ≡ face sv
unfolding stamp
face-stamp sv now = ground arith

pub face-upsert_survey :
    (sv r : Survey) (svs : List Survey)
    → find_survey sv.id svs ≡ some r
    → face sv ≡ face r
    → (id : Text) → face_of id (upsert_survey sv svs) ≡ face_of id svs
unfolding face_of upsert_survey find_survey
face-upsert_survey sv r [] found e id = absurd (ground arith)
face-upsert_survey sv r (x ∷ svs) found e id = elim (Bool-cases (same x.id sv.id)) [
  | inl hit ↦
      let here : x ≡ r = ground arith in
      let faces : face sv ≡ face x = e ∙ ap face (sym here) in
      let kept : face (record sv { options = []; created = x.created }) ≡ face x =
        ap (λ (f : Survey). record f { created = x.created }) faces in
      ground (arith, kept, ap (λ (f : Survey). f.id) faces)
  | inr miss ↦ ground (arith, face-upsert_survey sv r svs (ground arith) e id)
]

decided-upsert_option :
    (sid : Text) (i : ℕ) (o : SurveyOption) (rows : List OptionRow)
    → decided_of o.id rows ≡ some (decided sid o)
    → (id : Text) → decided_of id (upsert_option sid i o rows) ≡ decided_of id rows
unfolding decided_of upsert_option
decided-upsert_option sid i o [] found id = absurd (ground arith)
decided-upsert_option sid i o (r ∷ rows) found id = elim (Bool-cases (same r.option.id o.id)) [
  | inl hit ↦ ground arith
  | inr miss ↦ ground (arith, decided-upsert_option sid i o rows (ground arith) id)
]

decided-upsert_options :
    (sid : Text) (i : ℕ) (os : List SurveyOption) (rows : List OptionRow)
    → All (λ o. decided_of o.id rows ≡ some (decided sid o)) os
    → (id : Text) → decided_of id (upsert_options sid i os rows) ≡ decided_of id rows
unfolding upsert_options
decided-upsert_options sid i [] rows found id = refl
decided-upsert_options sid i (o ∷ os) rows found id =
    let kept = decided-upsert_option sid i o rows found.0 in
    decided-upsert_options sid (suc i) os (upsert_option sid i o rows)
      (All-mono (λ x. decided_of x.id rows ≡ some (decided sid x))
        (λ x. decided_of x.id (upsert_option sid i o rows) ≡ some (decided sid x)) os
        (λ x e. kept x.id ∙ e) found.1)
      id
    ∙ kept id

upsert_options-append :
    (sid : Text) (i : ℕ) (os : List SurveyOption) (o : SurveyOption) (rows : List OptionRow)
    → (j : ℕ) × (upsert_options sid i (os ++ (o ∷ [])) rows
        ≡ upsert_option sid j o (upsert_options sid i os rows))
unfolding upsert_options
upsert_options-append sid i [] o rows = (i, refl)
upsert_options-append sid i (x ∷ os) o rows =
    upsert_options-append sid (suc i) os o (upsert_option sid i x rows)

decided-upsert_option_new :
    (sid : Text) (i : ℕ) (o : SurveyOption) (rows : List OptionRow)
    → decided_of o.id rows ≡ none
    → (id : Text)
    → decided_of id (upsert_option sid i o rows)
      ≡ (if same o.id id then some (decided sid o) else decided_of id rows)
unfolding decided_of upsert_option
decided-upsert_option_new sid i o [] new id = ground arith
decided-upsert_option_new sid i o (r ∷ rows) new id =
    ground (arith, decided-upsert_option_new sid i o rows (ground arith) id)

-- Every option that is loaded is found by its id.
loaded-decided :
    (sid : Text) (rows : List OptionRow)
    → IsKeyed rows
    → All (λ o. decided_of o.id rows ≡ some (decided sid o)) (load_options rows sid)
unfolding load_options
loaded-decided sid rows keyed =
    All-map (λ o. decided_of o.id rows ≡ some (decided sid o)) (λ (r : OptionRow). r.option)
      (sort_by (λ a b. leb a.position b.position) (filter (λ r. same r.survey_id sid) rows))
      (All-sort_by _ (λ a b. leb a.position b.position) (filter (λ r. same r.survey_id sid) rows)
        (All-mono _ _ (filter (λ r. same r.survey_id sid) rows) (λ r p. ground (arith, p.0, p.1))
          (All-filter _ (λ r. same r.survey_id sid) rows keyed)))

-- A survey's options are written back with a new one after them.
pub decided-upsert_options_new :
    (sid : Text) (o : SurveyOption) (rows : List OptionRow)
    → IsKeyed rows
    → decided_of o.id rows ≡ none
    → (id : Text)
    → decided_of id (upsert_options sid 0 (load_options rows sid ++ (o ∷ [])) rows)
      ≡ (if same o.id id then some (decided sid o) else decided_of id rows)
decided-upsert_options_new sid o rows keyed new id =
    let os = load_options rows sid in
    let kept = decided-upsert_options sid 0 os rows (loaded-decided sid rows keyed) in
    let (j, e) = upsert_options-append sid 0 os o rows in
    ap (decided_of id) e
    ∙ decided-upsert_option_new sid j o (upsert_options sid 0 os rows) (kept o.id ∙ new) id
    ∙ ap (λ (d : Option Decided). if same o.id id then some (decided sid o) else d) (kept id)
