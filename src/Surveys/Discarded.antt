-- ===== src/Surveys/Discarded.antt =====
-- The answers that `Publish` of internal/store/response.go and `DeleteSurvey` of
-- internal/store/survey.go discard, and those that they leave.
use quicksurvey.Base.{
  ℕ, ◌≡◌, refl, ◌∙◌, sym, ap, ◌≢◌, inl, inr, if◌then◌else◌, Bool, Bool-cases, true, false, not,
  ◌&&◌, List, [], ◌∷◌, map, filter, any, All, All-mono, All-filter, All-sort_by, length, length-map,
  length-sort_by, sort_by, Text, same, text_discrete, some, none, arith, ok, Result-cases,
}
use quicksurvey.Survey.{Survey, is_zero}
use quicksurvey.Tables.{Tables, ResponseRow, Mark, load_survey, save_survey}
use quicksurvey.Tables.Scope.{tables-save_survey}
use quicksurvey.Response.Save.{load_ids, cascade, clear_responses_tx, publish, opened_at}
use quicksurvey.Tally.{older, attached, responses}
use quicksurvey.Surveys.{delete_survey}
use quicksurvey.Surveys.Deletion.{delete_survey-gone}

-- No two rows have one id.
abbrev pub RowsApart : List ResponseRow → Type 0
RowsApart [] = Unit {0}
RowsApart (r ∷ rs) = All (λ q. same r.id q.id ≡ false) rs × RowsApart rs

abbrev of_survey : Text → ResponseRow → Bool
of_survey sid r = same r.survey_id sid

-- A response of the survey has the id.
abbrev goes : List ResponseRow → Text → Text → Bool
goes rows sid rid = any (λ r. same r.survey_id sid && same r.id rid) rows

load_ids-cascade :
    (rows : List ResponseRow) (sid : Text) (ms : List Mark) (rid : Text)
    → goes rows sid rid ≡ false
    → load_ids (cascade rows sid ms) rid ≡ load_ids ms rid
unfolding load_ids cascade filter
load_ids-cascade rows sid [] rid h = refl
load_ids-cascade rows sid (m ∷ ms) rid h = elim (text_discrete m.response_id rid) [
  | yes e ↦
      let q : goes rows sid m.response_id ≡ false = ap (goes rows sid) e ∙ h in
      ground (arith, load_ids-cascade rows sid ms rid h)
  | no n ↦ ground (arith, load_ids-cascade rows sid ms rid h)
]

apart_stays :
    (sid : Text) (r : ResponseRow) (rows : List ResponseRow)
    → All (λ q. same r.id q.id ≡ false) rows
    → goes rows sid r.id ≡ false
unfolding any
apart_stays sid r [] h = refl
apart_stays sid r (q ∷ rows) h = ground (arith, h.0, apart_stays sid r rows h.1)

-- The rows of another survey have ids of their own.
others_stay :
    (rows : List ResponseRow) (sid other : Text)
    → other ≢ sid
    → RowsApart rows
    → All (λ r. same r.survey_id other ≡ true → goes rows sid r.id ≡ false) rows
others_stay [] sid other n d = tt
others_stay (r ∷ rows) sid other n d = (head, tail rows d.0 (others_stay rows sid other n d.1))
  where
    head : same r.survey_id other ≡ true → goes (r ∷ rows) sid r.id ≡ false
    head e = unfold any in ground (arith, apart_stays sid r rows d.0)

    tail :
        (qs : List ResponseRow)
        → All (λ q. same r.id q.id ≡ false) qs
        → All (λ q. same q.survey_id other ≡ true → goes rows sid q.id ≡ false) qs
        → All (λ q. same q.survey_id other ≡ true → goes (r ∷ rows) sid q.id ≡ false) qs
    tail [] k h = tt
    tail (q ∷ qs) k h = (λ e. unfold any in ground (arith, h.0 e, k.0), tail qs k.1 h.1)

filter-filter_ne :
    (sid other : Text) (rows : List ResponseRow)
    → other ≢ sid
    → filter (of_survey other) (filter (λ r. not (same r.survey_id sid)) rows)
      ≡ filter (of_survey other) rows
unfolding filter
filter-filter_ne sid other [] n = refl
filter-filter_ne sid other (r ∷ rows) n = ground (arith, filter-filter_ne sid other rows n)

filter-filter_self :
    (sid : Text) (rows : List ResponseRow)
    → filter (of_survey sid) (filter (λ r. not (same r.survey_id sid)) rows) ≡ []
unfolding filter
filter-filter_self sid [] = refl
filter-filter_self sid (r ∷ rows) = ground (arith, filter-filter_self sid rows)

map-attached :
    (db db' : Tables) (rows : List ResponseRow)
    → All (λ r. attached db' r ≡ attached db r) rows
    → map (attached db') rows ≡ map (attached db) rows
map-attached db db' [] h = refl
map-attached db db' (r ∷ rows) h = rw (h.0, map-attached db db' rows h.1)

-- The rows of the survey are deleted, and with them their choices and what they have seen.
record Cleared (db db' : Tables) (sid : Text) : Type 0 where
  rows : db'.responses ≡ filter (λ r. not (same r.survey_id sid)) db.responses
  choices : db'.choices ≡ cascade db.responses sid db.choices
  seen : db'.seen ≡ cascade db.responses sid db.seen

module _ (db db' : Tables) (sid : Text) (c : Cleared db db' sid) where
  own_responses : responses db' sid ≡ []
  unfolding responses sort_by
  own_responses =
      ap (λ l. map (attached db') (sort_by older l))
        (ap (filter (of_survey sid)) c.rows ∙ filter-filter_self sid db.responses)

  attached_other :
      (r : ResponseRow) → goes db.responses sid r.id ≡ false → attached db' r ≡ attached db r
  unfolding attached
  attached_other r h =
      let chosen : load_ids db'.choices r.id ≡ load_ids db.choices r.id =
        ap (λ l. load_ids l r.id) c.choices ∙ load_ids-cascade db.responses sid db.choices r.id h in
      let shown : load_ids db'.seen r.id ≡ load_ids db.seen r.id =
        ap (λ l. load_ids l r.id) c.seen ∙ load_ids-cascade db.responses sid db.seen r.id h in
      rw (chosen, shown) refl

  other_responses :
      (other : Text)
      → other ≢ sid
      → RowsApart db.responses
      → responses db' other ≡ responses db other
  unfolding responses
  other_responses other n d =
      let kept = filter (of_survey other) db.responses in
      let stay =
        All-mono _ (λ r. attached db' r ≡ attached db r) kept (λ r h. attached_other r (h.0 h.1))
          (All-filter (λ r. same r.survey_id other ≡ true → goes db.responses sid r.id ≡ false)
            (of_survey other) db.responses (others_stay db.responses sid other n d)) in
      ap (λ l. map (attached db') (sort_by older l))
        (ap (filter (of_survey other)) c.rows ∙ filter-filter_ne sid other db.responses n)
      ∙ map-attached db db' (sort_by older kept)
          (All-sort_by (λ r. attached db' r ≡ attached db r) older kept stay)

length-responses :
    (db : Tables) (sid : Text)
    → length (filter (of_survey sid) db.responses) ≡ length (responses db sid)
unfolding responses
length-responses db sid = sym (
    length-map (attached db) (sort_by older (filter (of_survey sid) db.responses))
    ∙ length-sort_by older (filter (of_survey sid) db.responses))

responses-same :
    (db db' : Tables) (sid : Text)
    → db'.responses ≡ db.responses
    → db'.choices ≡ db.choices
    → db'.seen ≡ db.seen
    → responses db' sid ≡ responses db sid
unfolding responses attached
responses-same db db' sid r c s = rw (r, c, s) refl

cleared :
    (db db' : Tables) (sid : Text) (n : ℕ)
    → clear_responses_tx db sid ≡ ok (n, db')
    → Cleared db db' sid × (n ≡ length (responses db sid))
unfolding clear_responses_tx
cleared db db' sid n h = (
  record { rows = ground arith; choices = ground arith; seen = ground arith },
  (let e : n ≡ length (filter (of_survey sid) db.responses) = ground arith in e)
      ∙ length-responses db sid,
)

-- Publishing a survey that was never open discards all its answers and reports how many there were;
-- publishing one that was open before discards none and reports 0; either way the answers to every
-- other survey are as they were, where no two rows of `responses` have one id.
pub publish-responses :
    (db db' : Tables) (sid other : Text) (sv : Survey) (now n : ℕ)
    → RowsApart db.responses
    → other ≢ sid
    → load_survey db sid ≡ some sv
    → publish db sid now ≡ ok (n, db')
    → (responses db' sid ≡ (if is_zero sv.first_opened_at then [] else responses db sid))
      × (n ≡ (if is_zero sv.first_opened_at then length (responses db sid) else 0))
      × (responses db' other ≡ responses db other)
unfolding publish
publish-responses db db' sid other sv now n d apart found h =
    elim (Result-cases (save_survey db (opened_at sv now) now)) [
      | inr (x, e) ↦ absurd (ground arith)
      | inl (saved, e) ↦
          let t = tables-save_survey db saved (opened_at sv now) now e in
          let er = ap (λ (x : Tables). x.responses) t in
          let kept = λ (id : Text).
            responses-same db saved id er (ap (λ (x : Tables). x.choices) t)
              (ap (λ (x : Tables). x.seen) t) in
          elim (Bool-cases (is_zero sv.first_opened_at)) [
            | inl first ↦
                let (c, counted) = cleared saved db' sid n (ground arith) in
                rw first (
                  own_responses saved db' sid c,
                  counted ∙ ap length (kept sid),
                  other_responses saved db' sid c other apart (rw er d) ∙ kept other,
                )
            | inr again ↦
                let same_tables : db' ≡ saved = ground arith in
                rw again (
                  ap (λ x. responses x sid) same_tables ∙ kept sid,
                  ground arith,
                  ap (λ x. responses x other) same_tables ∙ kept other,
                )
          ]
    ]

-- Deleting a survey leaves neither it nor an answer to it, and every other survey and the answers to it
-- as they were, where no two rows of `responses` have one id.
pub delete_survey-responses :
    (db db' : Tables) (id other : Text)
    → RowsApart db.responses
    → other ≢ id
    → delete_survey db id ≡ ok db'
    → (load_survey db' id ≡ none)
      × (responses db' id ≡ [])
      × (load_survey db' other ≡ load_survey db other)
      × (responses db' other ≡ responses db other)
unfolding delete_survey
delete_survey-responses db db' id other d apart h =
    let gone = delete_survey-gone db db' id h in
    let c : Cleared db db' id = record {
      rows = ground arith;
      choices = ground arith;
      seen = ground arith;
    } in
    (
      gone.0,
      own_responses db db' id c,
      gone.2 other apart,
      other_responses db db' id c other apart d,
    )
