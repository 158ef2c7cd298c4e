-- ===== src/Documents/Restore/Covered.antt =====
-- The choices and the seen sets that `RestoreSurvey` of internal/store/portable.go stores.
use quicksurvey.Base.{
  ℕ, suc, ◌≡◌, ◌∙◌, sym, ap, subst, inl, inr, Bool, true, false, ◌&&◌, ◌||◌, List, [], ◌∷◌, ◌++◌,
  any, All, Text, same, text_discrete, arith, ok, Bool-cases, Result-cases,
}
use quicksurvey.Survey.{Survey}
use quicksurvey.Tables.{Tables, Mark, save_survey}
use quicksurvey.Tables.Scope.{tables-save_survey}
use quicksurvey.Response.{Response, has}
use quicksurvey.Response.Sets.{Within, has-snoc}
use quicksurvey.Response.Save.{
  load_ids, is_mark, mark, insert_choices, insert_seen, insert_or_ignore,
}
use quicksurvey.Response.Stored.{has-insert_or_ignore, insert_seen_lem, load_ids-snoc}
use quicksurvey.Response.Covered.{IsCovered}
use quicksurvey.Documents.{Document, DocumentResponse, document_responses}
use quicksurvey.Documents.Restore.{
  Draws, restore_options, restore_merges, hold, hold_all, restore_choices, restore_seen,
  restore_response, restorable_responses, insert_response, insert_responses, restorable,
  restore_survey,
}

has-hold :
    (id : Text) (held : List Text) (c : Text) → has id (hold held c) ≡ (has id held || same c id)
has-hold id held c = elim (Bool-cases (has c held)) [
  | inl there ↦ rw there (there_already there)
  | inr new ↦ rw new (has-snoc id held c)
]
  where
    there_already : has c held ≡ true → has id held ≡ (has id held || same c id)
    there_already there = elim (text_discrete c id) [
      | yes e ↦ let k : has id held ≡ true = subst (λ i. has i held ≡ true) e there in ground arith
      | no n ↦ ground arith
    ]

pub has-hold_all :
    (id : Text) (held cs : List Text) → has id (hold_all held cs) ≡ (has id held || has id cs)
unfolding hold_all has
has-hold_all id held [] = ground arith
has-hold_all id held (c ∷ cs) = ground (arith, has-hold_all id (hold held c) cs, has-hold id held c)

-- Every choice is among what is stored as seen.
abbrev AllWithin : List Response → Type 0
AllWithin rs = All (λ (r : Response). Within r.choices r.seen) rs

restore_response-Within :
    (m : List (Text × Text)) (fresh : Text) (dr : DocumentResponse) (r : Response)
    → restore_response m fresh dr ≡ ok r
    → Within r.choices r.seen
unfolding restore_response
restore_response-Within m fresh dr r h id k = elim (Result-cases (restore_choices m dr.choices)) [
  | inr (x, e) ↦ absurd (ground arith)
  | inl (cs, e) ↦ elim (Result-cases (restore_seen m [] dr.seen)) [
    | inr (x, q) ↦ absurd (ground arith)
    | inl (ss, q) ↦
        let chosen : r.choices ≡ cs = ground arith in
        let shown : r.seen ≡ hold_all ss cs = ground arith in
        let there : has id cs ≡ true = subst (λ l. has id l ≡ true) chosen k in
        subst (λ l. has id l ≡ true) (sym shown) (ground (arith, has-hold_all id ss cs))
  ]
]

restorable_responses-Within :
    (m : List (Text × Text)) (draw : ℕ → Text) (i : ℕ) (drs : List DocumentResponse)
    (rs : List Response)
    → restorable_responses m draw i drs ≡ ok rs
    → AllWithin rs
unfolding restorable_responses
restorable_responses-Within m draw i [] rs h =
    let e : [] ≡ rs = ground arith in subst AllWithin e tt
restorable_responses-Within m draw i (dr ∷ drs) rs h =
    elim (Result-cases (restore_response m (draw i) dr)) [
      | inr (x, e) ↦ absurd (ground arith)
      | inl (r, e) ↦ elim (Result-cases (restorable_responses m draw (suc i) drs)) [
        | inr (x, q) ↦ absurd (ground arith)
        | inl (rest, q) ↦
            let all : rs ≡ r ∷ rest = ground arith in
            subst AllWithin (sym all) (
              restore_response-Within m (draw i) dr r e,
              restorable_responses-Within m draw (suc i) drs rest q,
            )
      ]
    ]

-- What an insertion without violations adds.
has-insert_choices :
    (rid : Text) (ids : List Text) (ms ms' : List Mark) (other id : Text)
    → insert_choices rid ids ms ≡ ok ms'
    → has id (load_ids ms' other) ≡ (has id (load_ids ms other) || (same rid other && has id ids))
unfolding insert_choices has
has-insert_choices rid [] ms ms' other id h =
    subst
      (λ l. has id (load_ids l other) ≡ (has id (load_ids ms other) || (same rid other && false)))
      (let e : ms ≡ ms' = ground arith in e) (ground arith)
has-insert_choices rid (x ∷ ids) ms ms' other id h = elim (Bool-cases (any (is_mark rid x) ms)) [
  | inl there ↦ absurd (ground arith)
  | inr new ↦
      has-insert_choices rid ids (ms ++ (mark rid x ∷ [])) ms' other id (ground arith)
      ∙ rw (load_ids-snoc ms rid x other) (ground (arith, has-snoc id (load_ids ms other) x))
]

insert_response-IsCovered :
    (db db' : Tables) (sid : Text) (r : Response)
    → Within r.choices r.seen
    → IsCovered db
    → insert_response db sid r ≡ ok db'
    → IsCovered db'
unfolding insert_response
insert_response-IsCovered db db' sid r w c h rid id k =
    elim (Result-cases (insert_choices r.id r.choices db.choices)) [
      | inr (x, e) ↦ absurd (ground arith)
      | inl (chosen, e) ↦
          let choices_now : db'.choices ≡ chosen = ground arith in
          let seen_now : db'.seen ≡ insert_or_ignore r.id r.seen db.seen =
            (let q : db'.seen ≡ insert_seen r.id r.seen db.seen = ground arith in q)
            ∙ insert_seen_lem r.id r.seen db.seen in
          let there : has id (load_ids chosen rid) ≡ true =
            subst (λ l. has id (load_ids l rid) ≡ true) choices_now k in
          subst (λ l. has id (load_ids l rid) ≡ true) (sym seen_now)
            (ground (
              arith,
              has-insert_choices r.id r.choices db.choices chosen rid id e,
              has-insert_or_ignore r.id r.seen db.seen rid id,
              w id,
              c rid id,
            ))
    ]

insert_responses-IsCovered :
    (db db' : Tables) (sid : Text) (rs : List Response)
    → AllWithin rs
    → IsCovered db
    → insert_responses db sid rs ≡ ok db'
    → IsCovered db'
unfolding insert_responses
insert_responses-IsCovered db db' sid [] w c h =
    subst IsCovered (let e : db ≡ db' = ground arith in e) c
insert_responses-IsCovered db db' sid (r ∷ rs) w c h =
    elim (Result-cases (insert_response db sid r)) [
      | inr (x, e) ↦ absurd (ground arith)
      | inl (next, e) ↦
          insert_responses-IsCovered next db' sid rs w.1
            (insert_response-IsCovered db next sid r w.0 c e) (ground arith)
    ]

restorable-Within :
    (db : Tables) (doc : Document) (keep_id : Bool) (draws : Draws) (now : ℕ)
    (r : Survey × List Response)
    → restorable db doc keep_id draws now ≡ ok r
    → AllWithin r.1
unfolding restorable
restorable-Within db doc keep_id draws now r h =
    elim (Result-cases (restore_options keep_id draws.option now 0 [] doc.survey.options)) [
      | inr (x, e) ↦ absurd (ground arith)
      | inl (opts, e) ↦ elim (Result-cases (restore_merges opts.1 opts.0)) [
        | inr (x, q) ↦ absurd (ground arith)
        | inl (os, q) ↦
            elim (Result-cases
              (restorable_responses opts.1 draws.response 0 (document_responses doc))) [
                | inr (x, p) ↦ absurd (ground arith)
                | inl (rs, p) ↦
                    let last : rs ≡ r.1 = ground arith in
                    subst AllWithin last (
                      restorable_responses-Within opts.1 draws.response 0 (document_responses doc)
                        rs p)
              ]
      ]
    ]

-- Restoring a document, whatever it holds, keeps every stored choice of every response covered by
-- what is stored as seen, if it was before: no restored option can show more votes than exposures.
pub restore_survey-IsCovered :
    (db db' : Tables) (doc : Document) (keep_id : Bool) (draws : Draws) (now : ℕ) (sv : Survey)
    → IsCovered db
    → restore_survey db doc keep_id draws now ≡ ok (sv, db')
    → IsCovered db'
unfolding restore_survey
restore_survey-IsCovered db db' doc keep_id draws now sv c h =
    elim (Result-cases (restorable db doc keep_id draws now)) [
      | inr (x, e) ↦ absurd (ground arith)
      | inl (r, e) ↦ elim (Result-cases (save_survey db r.0 now)) [
        | inr (x, q) ↦ absurd (ground arith)
        | inl (saved, q) ↦
            let t = tables-save_survey db saved r.0 now q in
            let k : IsCovered saved =
              λ rid. rw (ap (λ (d : Tables). d.choices) t, ap (λ (d : Tables). d.seen) t) (c rid) in
            elim (Result-cases (insert_responses saved r.0.id r.1)) [
              | inr (x, p) ↦ absurd (ground arith)
              | inl (done, p) ↦
                  let last : done ≡ db' = ground arith in
                  subst IsCovered last (
                    insert_responses-IsCovered saved done r.0.id r.1
                      (restorable-Within db doc keep_id draws now r e) k p)
            ]
      ]
    ]
