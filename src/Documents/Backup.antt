-- ===== src/Documents/Backup.antt =====
-- A full backup of internal/store/portable.go and what is restored from it under the original id.
pub mod Restored
use quicksurvey.Base.{
  ℕ, suc, ◌≡◌, ◌≢◌, refl, ◌≤◌, ◌∙◌, ap, subst, inl, inr, if◌then◌else◌, true, false, ◌||◌, none,
  some, List, [], ◌∷◌, ◌++◌, map, All, Text, codes, same, text_discrete, is_empty, trim_space,
  arith, ok, Bool-cases, length,
}
use quicksurvey.Survey.{SurveyOption, Survey, find_option, is_opened}
use quicksurvey.Survey.Edit.{is_some, max_options}
use quicksurvey.Tables.Fresh.{OptionsApart}
use quicksurvey.Tables.{Tables, load_survey}
use quicksurvey.Response.{Response, has}
use quicksurvey.Response.Sets.{Within, Distinct, has-snoc}
use mathlib.Core.List.{append-nil, append_assoc}
use quicksurvey.Tally.{responses}
use quicksurvey.Documents.{Document, survey_document, full_option, document_response}
use quicksurvey.Documents.Restore.{
  Draws, valid_state, valid_option_status, renamed, restore_options, restore_merges,
  restore_choices, restore_seen, hold_all, restore_response, restorable_responses, restorable,
}

-- An option as the program stores them: a clean text, a known status, an id, and a merge target that
-- the survey has.
pub record IsStored (os : List SurveyOption) (o : SurveyOption) : Type 0 where
  pub text : trim_space o.text ≡ o.text
  pub nonempty : is_empty o.text ≡ false
  pub source : (same o.source (codes "writein") || same o.source (codes "editor")) ≡ true
  pub status : valid_option_status o.status ≡ true
  pub created : o.created ≢ 0
  pub id : is_empty o.id ≡ false
  pub target : is_empty o.merged_into ≡ false → is_some (find_option o.merged_into os) ≡ true

-- An answer as the program stores them: its ids are the survey's, each once, and its choices were seen.
pub record IsAnswer (os : List SurveyOption) (r : Response) : Type 0 where
  pub voter : is_empty r.voter ≡ false
  pub chosen : All (λ id. is_some (find_option id os) ≡ true) r.choices
  pub shown : All (λ id. is_some (find_option id os) ≡ true) r.seen
  pub distinct : Distinct r.seen
  pub once : Distinct r.choices
  pub covered : Within r.choices r.seen

-- No two answers are one respondent's.
abbrev pub VotersApart : List Response → Type 0
VotersApart [] = Unit {0}
VotersApart (r ∷ rs) = All (λ (q : Response). same r.voter q.voter ≡ false) rs × VotersApart rs

-- A survey and its answers as the program stores them, with no more options than it takes now: ids are
-- primary keys, and an open survey has the time at which it was first open.
pub record IsSavable (sv : Survey) (rs : List Response) : Type 0 where
  pub id : is_empty sv.id ≡ false
  pub kind : sv.kind ≡ codes "thumbsup"
  pub title : trim_space sv.title ≡ sv.title
  pub titled : is_empty sv.title ≡ false
  pub description : trim_space sv.description ≡ sv.description
  pub state : valid_state sv.state ≡ true
  pub created : sv.created ≢ 0
  pub updated : sv.updated ≢ 0
  pub options : All (IsStored sv.options) sv.options
  pub answers : All (IsAnswer sv.options) rs
  pub few : length sv.options ≤ max_options
  pub first : is_opened sv.state ≡ true → sv.first_opened_at ≢ 0
  pub apart : OptionsApart sv.options
  pub voters : VotersApart rs

-- The map of ids under which everything keeps its id.
abbrev identity : List (Text × Text) → List SurveyOption → List (Text × Text)
identity m [] = m
identity m (o ∷ os) = identity ((o.id, o.id) ∷ m) os

renamed-identity :
    (m : List (Text × Text)) (os : List SurveyOption) (id : Text)
    → renamed (identity m os) id ≡ (if is_some (find_option id os) then some id else renamed m id)
unfolding find_option
renamed-identity m [] id = refl
renamed-identity m (o ∷ os) id =
    renamed-identity ((o.id, o.id) ∷ m) os id ∙ unfold renamed in ground arith

renamed_known :
    (os : List SurveyOption) (id : Text)
    → is_some (find_option id os) ≡ true
    → renamed (identity [] os) id ≡ some id
renamed_known os id h = renamed-identity [] os id ∙ rw h

restore_full_options :
    (all os : List SurveyOption) (draw : ℕ → Text) (now i : ℕ) (m : List (Text × Text))
    → All (IsStored all) os
    → restore_options true draw now i m (map full_option os) ≡ ok (os, identity m os)
unfolding restore_options
restore_full_options all [] draw now i m h = refl
restore_full_options all (o ∷ os) draw now i m (s, h) =
    let rest = restore_full_options all os draw now (suc i) ((o.id, o.id) ∷ m) h in
    ground (arith, s.text, s.nonempty, s.source, s.status, s.created, s.id, rest)

restore_merges-identity :
    (all os : List SurveyOption)
    → All (IsStored all) os
    → restore_merges (identity [] all) os ≡ ok os
unfolding restore_merges
restore_merges-identity all [] h = refl
restore_merges-identity all (o ∷ os) (s, h) = elim (Bool-cases (is_empty o.merged_into)) [
  | inl nowhere ↦ ground (arith, restore_merges-identity all os h)
  | inr somewhere ↦ ground (
    arith,
    renamed_known all o.merged_into (s.target somewhere),
    restore_merges-identity all os h,
  )
]

module _ (os : List SurveyOption) where
  restore_known_choices :
      (ids : List Text)
      → All (λ id. is_some (find_option id os) ≡ true) ids
      → restore_choices (identity [] os) ids ≡ ok ids
  unfolding restore_choices
  restore_known_choices [] h = refl
  restore_known_choices (id ∷ ids) h = rw (renamed_known os id h.0, restore_known_choices ids h.1)

  -- Distinct ids that are not held yet are appended.
  restore_known_seen :
      (held ids : List Text)
      → All (λ id. is_some (find_option id os) ≡ true) ids
      → Distinct ids
      → ((id : Text) → has id ids ≡ true → has id held ≡ false)
      → restore_seen (identity [] os) held ids ≡ ok (held ++ ids)
  unfolding restore_seen
  restore_known_seen held [] h d new = ground (arith, append-nil held)
  restore_known_seen held (id ∷ ids) h d new =
      let first : has id held ≡ false = new id (unfold has in ground arith) in
      let rest = restore_known_seen (held ++ (id ∷ [])) ids h.1 d.1 (λ j k.
        has-snoc j held id ∙ elim (text_discrete id j) [
          | yes e ↦
              absurd
                (let q : has j ids ≡ false = subst (λ x. has x ids ≡ false) e d.0 in ground arith)
          | no n ↦ (let q : has j held ≡ false = new j (unfold has in ground arith) in ground arith)
        ]) in
      rw (renamed_known os id h.0, first) (rest ∙ ap ok (append_assoc held (id ∷ []) ids))

hold_all_present : (held cs : List Text) → Within cs held → hold_all held cs ≡ held
unfolding hold_all has
hold_all_present held [] w = refl
hold_all_present held (c ∷ cs) w =
    rw (w c (ground arith)) (hold_all_present held cs (λ id h. w id (ground arith)))

-- The same answers under the ids that are drawn for them.
abbrev pub renumbered : (ℕ → Text) → ℕ → List Response → List Response
renumbered draw i [] = []
renumbered draw i (r ∷ rs) = record r { id = draw i } ∷ renumbered draw (suc i) rs

restore_answers :
    (os : List SurveyOption) (draw : ℕ → Text) (i : ℕ) (rs : List Response)
    → All (IsAnswer os) rs
    → restorable_responses (identity [] os) draw i (map document_response rs)
      ≡ ok (renumbered draw i rs)
unfolding restorable_responses restore_response
restore_answers os draw i [] h = refl
restore_answers os draw i (r ∷ rs) (a, h) =
    let cs = restore_known_choices os r.choices a.chosen in
    let ss = restore_known_seen os [] r.seen a.shown a.distinct (λ id k. unfold has in refl) in
    ground (
      arith,
      a.voter,
      cs,
      ss,
      hold_all_present r.seen r.choices a.covered,
      restore_answers os draw (suc i) rs h,
    )

-- What is read from a full backup before the transaction: the survey, and the answers under new ids.
pub restorable-survey_document-true :
    (db db' : Tables) (id : Text) (sv : Survey) (saved : ℕ) (doc : Document) (draws : Draws)
    (now : ℕ)
    → load_survey db id ≡ some sv
    → survey_document db id true saved ≡ ok doc
    → IsSavable sv (responses db sv.id)
    → load_survey db' sv.id ≡ none
    → restorable db' doc true draws now ≡ ok (sv, renumbered draws.response 0 (responses db sv.id))
unfolding survey_document restorable
restorable-survey_document-true db db' id sv saved doc draws now found wrote s gone =
    let rs = responses db sv.id in
    let opts = restore_full_options sv.options sv.options draws.option now 0 [] s.options in
    let merges = restore_merges-identity sv.options sv.options s.options in
    let answers = restore_answers sv.options draws.response 0 rs s.answers in
    ground (
      arith, opts, merges, answers, s.id, s.kind, s.title, s.titled, s.description, s.state,
      s.created, s.updated,
    )
