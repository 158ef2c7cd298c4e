-- ===== src/Response/Publication.antt =====
-- Which responses `Publish` of internal/store/response.go discards.
use quicksurvey.Base.{
  ℕ, ◌≡◌, ◌≢◌, refl, ◌∙◌, ap, subst, inl, inr, true, not, Result-cases, some, List, [], ◌∷◌, filter,
  length, Text, same, arith, ok,
}
use quicksurvey.Survey.{Survey, is_opened}
use quicksurvey.Tables.{Tables, ResponseRow, load_options, load_survey, save_survey, stamp}
use quicksurvey.Tables.Scope.{tables-save_survey, find-save_survey}
use quicksurvey.Response.Save.{publish, opened_at, clear_responses_tx}

-- Publishing a survey that has been open before discards nothing.
pub publish-reopened :
    (db db' : Tables) (sid : Text) (now n : ℕ) (sv : Survey)
    → load_survey db sid ≡ some sv
    → sv.first_opened_at ≢ 0
    → publish db sid now ≡ ok (n, db')
    → (n ≡ 0) × (db'.responses ≡ db.responses) × (db'.choices ≡ db.choices) × (db'.seen ≡ db.seen)
unfolding publish
publish-reopened db db' sid now n sv found opened h =
    elim (Result-cases (save_survey db (opened_at sv now) now)) [
      | inl (saved, e) ↦
          let t = tables-save_survey db saved (opened_at sv now) now e in
          ground (
            arith,
            ap (λ (d : Tables). d.responses) t,
            ap (λ (d : Tables). d.choices) t,
            ap (λ (d : Tables). d.seen) t,
          )
      | inr (x, e) ↦ absurd (ground arith)
    ]

load-save_survey :
    (db db' : Tables) (sv : Survey) (now : ℕ)
    → save_survey db sv now ≡ ok db'
    → (r : Survey) × (load_survey db' sv.id ≡ some r)
      × (r.first_opened_at ≡ (stamp sv now).first_opened_at)
unfolding load_survey
load-save_survey db db' sv now e =
    let (c, found) = find-save_survey db db' sv now e in
    (
      record (stamp sv now) { created = c; options = load_options db'.options (stamp sv now).id },
      rw (found, load_survey),
      refl,
    )

-- After an open survey was saved, at a time past the zero time, publishing it discards no
-- responses: the count is 0 and the rows of `responses` are those from before the save.
pub publish_after_save :
    (db saved db' : Tables) (sv : Survey) (opened_when now n : ℕ)
    → opened_when ≢ 0
    → is_opened sv.state ≡ true
    → save_survey db sv opened_when ≡ ok saved
    → publish saved sv.id now ≡ ok (n, db')
    → (n ≡ 0) × (db'.responses ≡ db.responses)
publish_after_save db saved db' sv opened_when now n h live e p =
    let (r, found, first) = load-save_survey db saved sv opened_when e in
    let k =
      publish-reopened saved db' sv.id now n r found (λ z. unfold stamp in ground (arith, first))
        p in
    (k.0, k.1 ∙ ap (λ (d : Tables). d.responses) (tables-save_survey db saved sv opened_when e))

of_other :
    (sid other : Text) (rs : List ResponseRow)
    → other ≢ sid
    → filter (λ r. same r.survey_id other) (filter (λ r. not (same r.survey_id sid)) rs)
      ≡ filter (λ r. same r.survey_id other) rs
unfolding filter
of_other sid other [] h = refl
of_other sid other (r ∷ rs) h = ground (arith, of_other sid other rs h)

of_same :
    (sid : Text) (rs : List ResponseRow)
    → filter (λ r. same r.survey_id sid) (filter (λ r. not (same r.survey_id sid)) rs) ≡ []
unfolding filter
of_same sid [] = refl
of_same sid (r ∷ rs) = ground (arith, of_same sid rs)

-- Publishing a survey that was never open deletes the rows of its responses, all of them, and
-- returns their number; the rows of the responses to every other survey stay.
pub publish-first :
    (db db' : Tables) (sid : Text) (now n : ℕ) (sv : Survey)
    → load_survey db sid ≡ some sv
    → sv.first_opened_at ≡ 0
    → publish db sid now ≡ ok (n, db')
    → (n ≡ length (filter (λ r. same r.survey_id sid) db.responses))
      × (filter (λ r. same r.survey_id sid) db'.responses ≡ [])
      × ((other : Text)
          → other ≢ sid
          → filter (λ r. same r.survey_id other) db'.responses
            ≡ filter (λ r. same r.survey_id other) db.responses)
unfolding publish clear_responses_tx
publish-first db db' sid now n sv found fresh h =
    elim (Result-cases (save_survey db (opened_at sv now) now)) [
      | inl (saved, e) ↦
          let rows : saved.responses ≡ db.responses =
            ap (λ (d : Tables). d.responses)
              (tables-save_survey db saved (opened_at sv now) now e) in
          let left : db'.responses ≡ filter (λ r. not (same r.survey_id sid)) db.responses =
            subst (λ l. db'.responses ≡ filter (λ r. not (same r.survey_id sid)) l) rows
              (ground arith) in
          (
            subst (λ l. n ≡ length (filter (λ r. same r.survey_id sid) l)) rows (ground arith),
            rw left (of_same sid db.responses),
            λ other apart. rw left (of_other sid other db.responses apart),
          )
      | inr (x, e) ↦ absurd (ground arith)
    ]
