-- ===== src/Response/Authored.antt =====
-- What an answer and a suggestion of internal/store/response.go leave of what editors decided.
use quicksurvey.Base.{
  ℕ, ◌≡◌, refl, ◌∙◌, sym, ap, subst, ◌⊎◌, inl, inr, Bool, false, Bool-cases, Option-cases,
  Result-cases, none, some, List, [], ◌∷◌, ◌++◌, Text, same→eq, same, codes, same, trim_space,
  arith, ok,
}
use quicksurvey.Survey.{SurveyOption, Survey, pending}
use quicksurvey.Survey.Edit.{add_option}
use quicksurvey.Tables.{Tables, find_survey, load_options, load_survey, save_survey, stamp}
use quicksurvey.Tables.Scope.{tables-save_survey, id-find_survey, id-stamp}
use quicksurvey.Tables.Authored.{
  face_of, Decided, decided, decided_of, IsKeyed, face-stamp, face-upsert_survey,
  decided-upsert_options_new,
}
use quicksurvey.Response.{Response, prev_choices}
use quicksurvey.Response.Save.{
  save_response_tx, write_response, add_write_in, load_response, prev_comment,
}

-- Every survey's settings and every option's text, status and merge target are as they were; an
-- option that is new is pending.
abbrev pub Spared : (before later : Tables) → Type 0
Spared before later =
    (id : Text)
    → (face_of id later.surveys ≡ face_of id before.surveys)
      × ((decided_of id later.options ≡ decided_of id before.options)
          ⊎ ((decided_of id before.options ≡ none)
              × (d : Decided) × (decided_of id later.options ≡ some d)
              × (d.status ≡ pending)
              × (d.merged_into ≡ [])))

pub Spared-refl : (db : Tables) → Spared db db
Spared-refl db id = (refl, inl refl)

save_response_tx-rows :
    (db : Tables) (sid voter : Text) (choices : List Text) (comment allow : Text) (preview : Bool)
    (fresh : Text) (now : ℕ) (r : Response × Tables)
    → save_response_tx db sid voter choices comment allow preview fresh now ≡ ok r
    → (r.1.surveys ≡ db.surveys) × (r.1.options ≡ db.options)
unfolding save_response_tx write_response
save_response_tx-rows db sid voter choices comment allow preview fresh now r e = ground arith

pub save_response_tx-Spared :
    (db : Tables) (sid voter : Text) (choices : List Text) (comment allow : Text) (preview : Bool)
    (fresh : Text) (now : ℕ) (r : Response × Tables)
    → save_response_tx db sid voter choices comment allow preview fresh now ≡ ok r
    → Spared db r.1
save_response_tx-Spared db sid voter choices comment allow preview fresh now r e id =
    let (surveys, options) =
      save_response_tx-rows db sid voter choices comment allow preview fresh now r e in
    (ap (face_of id) surveys, inl (ap (decided_of id) options))

-- The option that is suggested, and the survey that is saved with it.
abbrev suggested : (fresh text : Text) (now : ℕ) → SurveyOption
suggested fresh text now = record {
  id = fresh;
  text = trim_space text;
  status = pending;
  source = codes "writein";
  merged_into = [];
  created = now;
}

abbrev with_suggestion : Survey → SurveyOption → ℕ → Survey
with_suggestion sv o now = record sv { options = sv.options ++ (o ∷ []); updated = now }

row-Spared :
    (db db' : Tables) (sid : Text) (r : Survey) (o : SurveyOption) (now : ℕ)
    → IsKeyed db.options
    → decided_of o.id db.options ≡ none
    → o.status ≡ pending
    → o.merged_into ≡ []
    → find_survey sid db.surveys ≡ some r
    → save_survey db
        (with_suggestion (record r { options = load_options db.options r.id }) o now)
        now
      ≡ ok db'
    → Spared db db'
row-Spared db db' sid r o now keyed new status into row saved id =
    let x = with_suggestion (record r { options = load_options db.options r.id }) o now in
    let t = tables-save_survey db db' x now saved in
    let row' : find_survey (stamp x now).id db.surveys ≡ some r =
      subst (λ i. find_survey i db.surveys ≡ some r)
        (sym (id-find_survey sid db.surveys r row) ∙ sym (id-stamp x now)) row in
    let look =
      ap (λ (d : Tables). decided_of id d.options) t
      ∙ decided-upsert_options_new r.id o db.options keyed new id in
    (
      ap (λ (d : Tables). face_of id d.surveys) t
          ∙ face-upsert_survey (stamp x now) r db.surveys row' (face-stamp x now) id,
      elim (Bool-cases (same o.id id)) [
        | inr other ↦ inl (look ∙ rw other refl)
        | inl hit ↦ inr (
          subst (λ i. decided_of i db.options ≡ none) (same→eq o.id id hit) new,
          decided r.id o,
          look ∙ rw hit refl,
          status,
          into,
        )
      ],
    )

saved-Spared :
    (db db' : Tables) (sid : Text) (sv : Survey) (o : SurveyOption) (now : ℕ)
    → IsKeyed db.options
    → decided_of o.id db.options ≡ none
    → o.status ≡ pending
    → o.merged_into ≡ []
    → load_survey db sid ≡ some sv
    → save_survey db (with_suggestion sv o now) now ≡ ok db'
    → Spared db db'
unfolding load_survey
saved-Spared db db' sid sv o now keyed new status into found e =
    elim (Option-cases (find_survey sid db.surveys)) [
      | inl absent ↦ absurd (ground arith)
      | inr (r, row) ↦
          let read : sv ≡ record r { options = load_options db.options r.id } = ground arith in
          row-Spared db db' sid r o now keyed new status into row
            (subst (λ (x : Survey). save_survey db (with_suggestion x o now) now ≡ ok db') read e)
    ]

then-Spared :
    (db saved later : Tables)
    → Spared db saved
    → later.surveys ≡ saved.surveys
    → later.options ≡ saved.options
    → Spared db later
then-Spared db saved later s e f =
    subst (λ svs. Spared db (record saved { surveys = svs; options = later.options })) (sym e)
      (subst (λ os. Spared db (record saved { options = os })) (sym f) s)

added_lem :
    (sv : Survey) (text fresh : Text) (now : ℕ) (a : Survey × Text)
    → add_option sv text pending (codes "writein") fresh now ≡ ok a
    → a ≡ (record sv { options = sv.options ++ (suggested fresh text now ∷ []) }, fresh)
unfolding add_option
added_lem sv text fresh now a e = ground arith

-- A suggestion, under an id that no option has.
pub add_write_in-Spared :
    (db : Tables) (sid voter text : Text) (preview : Bool) (fresh_option fresh : Text) (now : ℕ)
    (r : Text × Tables)
    → IsKeyed db.options
    → decided_of fresh_option db.options ≡ none
    → add_write_in db sid voter text preview fresh_option fresh now ≡ ok r
    → Spared db r.1
unfolding add_write_in
add_write_in-Spared db sid voter text preview fresh_option fresh now r keyed new e =
    elim (Option-cases (load_survey db sid)) [
      | inl absent ↦ absurd (ground arith)
      | inr (sv, found) ↦
          elim (Result-cases (add_option sv text pending (codes "writein") fresh_option now)) [
            | inr (x, q) ↦ absurd (ground arith)
            | inl (a, q) ↦
                elim (Result-cases (save_survey db (record (a.0) { updated = now }) now)) [
                  | inr (x, p) ↦ absurd (ground arith)
                  | inl (saved, p) ↦
                      let prev = load_response db sid voter false in
                      elim (Result-cases (
                        save_response_tx saved sid voter (prev_choices prev ++ (a.1 ∷ []))
                          (prev_comment prev) (a.1) preview fresh now)) [
                            | inr (x, h) ↦ absurd (ground arith)
                            | inl (v, h) ↦
                                let (surveys, options) =
                                  save_response_tx-rows saved sid voter
                                    (prev_choices prev ++ (a.1 ∷ [])) (prev_comment prev) (a.1)
                                    preview fresh now v h in
                                let there = added_lem sv text fresh_option now a q in
                                let left : r.1 ≡ v.1 = ground arith in
                                subst (Spared db) (sym left) (
                                  then-Spared db saved v.1
                                    (saved-Spared db saved sid sv (suggested fresh_option text now)
                                      now keyed new refl refl found
                                      (subst
                                        (λ (x : Survey × Text).
                                          save_survey db (record (x.0) { updated = now }) now
                                          ≡ ok saved)
                                        there p))
                                    surveys options)
                          ]
                ]
          ]
    ]
