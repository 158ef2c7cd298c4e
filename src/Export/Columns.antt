-- ===== src/Export/Columns.antt =====
-- The resolve map of `Responses` in internal/export/tsv.go, against `Resolve`.
use quicksurvey.Base.{
  ◌≡◌, refl, ◌∙◌, sym, subst, inl, inr, if◌then◌else◌, Bool, false, ◌&&◌, List, [], ◌∷◌, any, Text,
  same, text_discrete, arith, Bool-cases, Option-cases, some,
}
use quicksurvey.Survey.{SurveyOption, Survey, is_merged, find_option, resolve, resolve_rounds}
use quicksurvey.Export.{resolve_map, resolve_via}

abbrev merged_as : Text → SurveyOption → Bool
merged_as id o = is_merged o.status && same o.id id

via_lem :
    (sv : Survey) (os : List SurveyOption) (id : Text)
    → resolve_via (resolve_map sv os) id ≡ (if any (merged_as id) os then (resolve sv id).0 else id)
unfolding resolve_via resolve_map any
via_lem sv [] id = refl
via_lem sv (o ∷ os) id = elim (text_discrete o.id id) [
  | yes e ↦ elim (Bool-cases (is_merged o.status)) [
    | inl m ↦
        subst
          (λ i.
            resolve_via (resolve_map sv (o ∷ os)) i
            ≡ (if any (merged_as i) (o ∷ os) then (resolve sv i).0 else i))
          e (ground arith)
    | inr m ↦ ground (arith, via_lem sv os id)
  ]
  | no n ↦ ground (arith, via_lem sv os id)
]

found_merged :
    (id : Text) (os : List SurveyOption) (o : SurveyOption)
    → find_option id os ≡ some o
    → (o.id ≡ id) × (any (merged_as id) os ≡ false → is_merged o.status ≡ false)
unfolding find_option any
found_merged id [] o h = absurd (ground arith)
found_merged id (x ∷ os) o h = elim (text_discrete x.id id) [
  | yes e ↦ (ground arith, λ k. ground arith)
  | no n ↦ let (q, f) = found_merged id os o (ground arith) in (q, λ k. f (ground arith))
]

-- The map that the export builds once gives for every id what `Resolve` gives, ids that the survey
-- does not have and options merged into nothing included.
pub resolve_via-resolve :
    (sv : Survey) (id : Text) → resolve_via (resolve_map sv sv.options) id ≡ (resolve sv id).0
resolve_via-resolve sv id =
    via_lem sv sv.options id ∙ elim (Bool-cases (any (merged_as id) sv.options)) [
      | inl yes_merged ↦ rw yes_merged
      | inr plain ↦ rw plain (sym (stays plain))
    ]
  where
    stays : any (merged_as id) sv.options ≡ false → (resolve sv id).0 ≡ id
    stays plain = elim (Option-cases (find_option id sv.options)) [
      | inl absent ↦ unfold resolve resolve_rounds in ground arith
      | inr (o, found) ↦
          let (q, f) = found_merged id sv.options o found in
          let m : is_merged o.status ≡ false = f plain in
          unfold resolve resolve_rounds in ground arith
    ]
