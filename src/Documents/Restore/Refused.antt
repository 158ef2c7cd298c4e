-- ===== src/Documents/Restore/Refused.antt =====
-- The references within a document that `RestoreSurvey` of internal/store/portable.go does not resolve.
use quicksurvey.Base.{
  ℕ, suc, ◌≡◌, refl, inl, inr, if◌then◌else◌, Bool, true, false, ◌||◌, none, some, List, [], ◌∷◌,
  any, Text, same, is_empty, arith, ok, err, Error, Option-cases, Result-cases,
}
use quicksurvey.Survey.{SurveyOption}
use quicksurvey.Tables.{Tables}
use quicksurvey.Response.{Response, has}
use quicksurvey.Documents.{Document, DocumentOption, DocumentResponse, document_responses}
use quicksurvey.Documents.Restore.{
  Draws, renamed, restored_id, restore_options, restore_merges, restore_choices, restore_seen, hold,
  restore_response, restorable_responses, restorable, restore_survey,
}

-- An option of a document has the id, and something in the document refers to it.
abbrev pub listed : Text → List DocumentOption → Bool
listed id os = any (λ o. same o.id id) os

abbrev pub merges_into : Text → DocumentOption → Bool
merges_into id o = same o.merged_into id

abbrev pub marks : Text → DocumentResponse → Bool
marks id r = has id r.choices || has id r.seen

abbrev pub refers : Text → Document → Bool
refers id doc = any (merges_into id) doc.survey.options || any (marks id) (document_responses doc)

module _ (id : Text) (m : List (Text × Text)) (unknown : renamed m id ≡ none) where
  restore_choices-known : (cs out : List Text) → restore_choices m cs ≡ ok out → has id cs ≡ false
  unfolding restore_choices has
  restore_choices-known [] out e = refl
  restore_choices-known (c ∷ cs) out e = elim (Option-cases (renamed m c)) [
    | inl missing ↦ absurd (ground arith)
    | inr (to, found) ↦ elim (Result-cases (restore_choices m cs)) [
      | inr (x, q) ↦ absurd (ground arith)
      | inl (rest, q) ↦ ground (arith, unknown, restore_choices-known cs rest q)
    ]
  ]

  restore_seen-known :
      (held ss out : List Text) → restore_seen m held ss ≡ ok out → has id ss ≡ false
  unfolding restore_seen has
  restore_seen-known held [] out e = refl
  restore_seen-known held (c ∷ ss) out e = elim (Option-cases (renamed m c)) [
    | inl missing ↦ absurd (ground arith)
    | inr (to, found) ↦
        ground (arith, unknown, restore_seen-known (hold held to) ss out (ground arith))
  ]

  restore_response-known :
      (fresh : Text) (dr : DocumentResponse) (r : Response)
      → restore_response m fresh dr ≡ ok r
      → marks id dr ≡ false
  unfolding restore_response
  restore_response-known fresh dr r e = elim (Result-cases (restore_choices m dr.choices)) [
    | inr (x, q) ↦ absurd (ground arith)
    | inl (cs, q) ↦ elim (Result-cases (restore_seen m [] dr.seen)) [
      | inr (x, p) ↦ absurd (ground arith)
      | inl (ss, p) ↦
          ground (arith, restore_choices-known dr.choices cs q, restore_seen-known [] dr.seen ss p)
    ]
  ]

  restorable_responses-known :
      (draw : ℕ → Text) (i : ℕ) (drs : List DocumentResponse) (rs : List Response)
      → restorable_responses m draw i drs ≡ ok rs
      → any (marks id) drs ≡ false
  unfolding restorable_responses any
  restorable_responses-known draw i [] rs e = refl
  restorable_responses-known draw i (dr ∷ drs) rs e =
      elim (Result-cases (restore_response m (draw i) dr)) [
        | inr (x, q) ↦ absurd (ground arith)
        | inl (r, q) ↦ elim (Result-cases (restorable_responses m draw (suc i) drs)) [
          | inr (x, p) ↦ absurd (ground arith)
          | inl (rest, p) ↦ ground (
            arith,
            restore_response-known (draw i) dr r q,
            restorable_responses-known draw (suc i) drs rest p,
          )
        ]
      ]

  restore_merges-known :
      (os out : List SurveyOption)
      → is_empty id ≡ false
      → restore_merges m os ≡ ok out
      → any (λ o. same o.merged_into id) os ≡ false
  unfolding restore_merges any
  restore_merges-known [] out filled e = refl
  restore_merges-known (o ∷ os) out filled e =
      let target = if is_empty o.merged_into then some [] else renamed m o.merged_into in
      elim (Option-cases target) [
        | inl missing ↦ absurd (ground arith)
        | inr (to, found) ↦ elim (Result-cases (restore_merges m os)) [
          | inr (x, q) ↦ absurd (ground arith)
          | inl (rest, q) ↦ ground (arith, unknown, restore_merges-known os rest filled q)
        ]
      ]

module _ (id : Text) (keep_id : Bool) (draw : ℕ → Text) (now : ℕ) where
  restore_options-known :
      (i : ℕ) (m : List (Text × Text)) (os : List DocumentOption) (out : List SurveyOption)
      (m' : List (Text × Text))
      → renamed m id ≡ none
      → listed id os ≡ false
      → restore_options keep_id draw now i m os ≡ ok (out, m')
      → (renamed m' id ≡ none) × (any (λ o. same o.merged_into id) out ≡ any (merges_into id) os)
  unfolding restore_options renamed any
  restore_options-known i m [] out m' unknown absent e = ground arith
  restore_options-known i m (o ∷ os) out m' unknown absent e =
      let to = restored_id keep_id o (draw i) in
      let next = if is_empty o.id then m else (o.id, to) ∷ m in
      elim (Result-cases (restore_options keep_id draw now (suc i) next os)) [
        | inr (x, q) ↦ absurd (ground arith)
        | inl ((rest, known), q) ↦
            let (a, b) =
              restore_options-known (suc i) next os rest known (ground (arith, unknown))
                (ground arith) q in
            (ground (arith, a), ground (arith, b))
      ]

-- A document that refers to an option that it does not contain, as what another was merged into or
-- in a response as chosen or seen, is refused: restoring it is an error, whatever else it holds.
pub restore_survey-dangling :
    (db : Tables) (doc : Document) (keep_id : Bool) (draws : Draws) (now : ℕ) (id : Text)
    → is_empty id ≡ false
    → listed id doc.survey.options ≡ false
    → refers id doc ≡ true
    → (why : Error) × (restore_survey db doc keep_id draws now ≡ err why)
unfolding restore_survey restorable renamed
restore_survey-dangling db doc keep_id draws now id filled absent dangling =
    elim (Result-cases (restore_survey db doc keep_id draws now)) [
      | inr refused ↦ refused
      | inl (r, e) ↦
          elim (Result-cases (restore_options keep_id draws.option now 0 [] doc.survey.options)) [
            | inr (x, q) ↦ absurd (ground arith)
            | inl ((os, m), q) ↦ elim (Result-cases (restore_merges m os)) [
              | inr (x, p) ↦ absurd (ground arith)
              | inl (merged, p) ↦
                  elim (Result-cases
                    (restorable_responses m draws.response 0 (document_responses doc))) [
                      | inr (x, h) ↦ absurd (ground arith)
                      | inl (rs, h) ↦
                          let (unknown, same_merges) =
                            restore_options-known id keep_id draws.option now 0 []
                              doc.survey.options os m refl absent q in
                          absurd (
                            ground (
                              arith,
                              same_merges,
                              restore_merges-known id m unknown os merged filled p,
                              restorable_responses-known id m unknown draws.response 0
                                  (document_responses doc) rs h,
                            ))
                    ]
            ]
          ]
    ]
