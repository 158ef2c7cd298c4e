-- ===== src/Documents/Definition.antt =====
-- What a definition document of internal/store/portable.go carries, seen from what is restored from it.
use quicksurvey.Base.{
  ℕ, suc, ◌≡◌, refl, ap, inl, inr, false, none, some, List, [], ◌∷◌, map, filter, All, Text,
  trim_space, arith, ok, Result-cases,
}
use quicksurvey.Survey.{SurveyOption, Survey, approved, draft, is_approved}
use quicksurvey.Tables.{Tables, load_survey}
use quicksurvey.Response.{Response}
use quicksurvey.Documents.{Document, survey_document, bare_option, definition_body}
use quicksurvey.Documents.Restore.{
  Draws, restored_option, restore_options, restore_merges, restorable_responses, restorable,
}

-- An option of a new draft: on the ballot, and of no other option's past.
abbrev pub IsPlain : SurveyOption → Type 0
IsPlain o = (o.status ≡ approved) × (o.merged_into ≡ [])

module _ (draw : ℕ → Text) (now : ℕ) where
  restore_bare_options :
      (i : ℕ) (m : List (Text × Text)) (os : List SurveyOption)
      (r : List SurveyOption × List (Text × Text))
      → restore_options false draw now i m (map bare_option os) ≡ ok r
      → All IsPlain r.0 × (map (λ o. o.text) r.0 ≡ map (λ o. trim_space o.text) os)
  unfolding restore_options
  restore_bare_options i m [] r h = let e : r.0 ≡ [] = ground arith in rw e (tt, refl)
  restore_bare_options i m (o ∷ os) r h =
      elim (Result-cases (restore_options false draw now (suc i) m (map bare_option os))) [
        | inr (x, e) ↦ absurd (ground arith)
        | inl (rest, e) ↦
            let (plain, texts) = restore_bare_options (suc i) m os rest e in
            let q : r.0 ≡ restored_option (bare_option o) (draw i) now ∷ rest.0 = ground arith in
            rw q (((refl, refl), plain), ap (λ ts. trim_space o.text ∷ ts) texts)
      ]

restore_merges-plain :
    (m : List (Text × Text)) (os os' : List SurveyOption)
    → All IsPlain os
    → restore_merges m os ≡ ok os'
    → os' ≡ os
unfolding restore_merges
restore_merges-plain m [] os' p h = ground arith
restore_merges-plain m (o ∷ os) os' p h = elim (Result-cases (restore_merges m os)) [
  | inr (x, e) ↦ absurd (ground arith)
  | inl (rest, e) ↦ let q : rest ≡ os = restore_merges-plain m os rest p.1 e in ground arith
]

-- Whatever survey was saved as a definition and wherever it is restored from that, under a new id: the
-- result is a draft that was never open, with no responses, with the new id, and with the texts of
-- the approved options, trimmed, as its options, all of them approved.
pub restorable-survey_document-false :
    (db db' : Tables) (id : Text) (sv : Survey) (saved : ℕ) (doc : Document) (draws : Draws)
    (now : ℕ) (r : Survey × List Response)
    → load_survey db id ≡ some sv
    → survey_document db id false saved ≡ ok doc
    → restorable db' doc false draws now ≡ ok r
    → (r.1 ≡ [])
      × (r.0.id ≡ draws.survey)
      × (r.0.state ≡ draft)
      × (r.0.first_opened_at ≡ 0)
      × All IsPlain r.0.options
      × (map (λ o. o.text) r.0.options
          ≡ map (λ o. trim_space o.text) (filter (λ o. is_approved o.status) sv.options))
unfolding survey_document restorable
restorable-survey_document-false db db' id sv saved doc draws now r found wrote h =
    let approved_options = filter (λ (o : SurveyOption). is_approved o.status) sv.options in
    let nothing : doc.responses ≡ none = ground arith in
    let body : doc.survey ≡ definition_body sv = ground arith in
    elim (Result-cases
      (restore_options false draws.option now 0 [] (map bare_option approved_options))) [
        | inr (x, e) ↦ absurd (ground arith)
        | inl (opts, e) ↦
            let (plain, texts) =
              restore_bare_options draws.option now 0 [] approved_options opts e in
            elim (Result-cases (restore_merges opts.1 opts.0)) [
              | inr (x, q) ↦ absurd (ground arith)
              | inl (os, q) ↦
                  let kept : os ≡ opts.0 = restore_merges-plain opts.1 opts.0 os plain q in
                  let options : r.0.options ≡ opts.0 = ground arith in
                  (
                    unfold restorable_responses in ground arith,
                    unfold restorable_responses in ground arith,
                    unfold restorable_responses in ground arith,
                    unfold restorable_responses in ground arith,
                    rw options plain,
                    rw options texts,
                  )
            ]
      ]
