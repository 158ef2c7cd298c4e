-- ===== src/Response/Shown.antt =====
-- What a response of internal/store/response.go says was chosen and was shown, as sets.
use quicksurvey.Base.{
  ◌≡◌, refl, inl, inr, true, not, ◌&&◌, ◌||◌, List, [], ◌∷◌, arith, Text, text_discrete, Bool-cases,
  Option,
}
use quicksurvey.Survey.{SurveyOption, Survey, find_option}
use quicksurvey.Survey.Edit.{is_some}
use quicksurvey.Response.{
  Response, has, prev_choices, prev_seen, on_ballot, off_ballot, pick_step, pick, carry_step,
  carry_forward, choices_of, visible_ids, in_order, seen_of,
}
use quicksurvey.Response.Sets.{Within, Distinct, has-append, has-snoc, Distinct-snoc}

-- A property of the list that one step of a loop keeps, the whole loop keeps.
module _ {κ} (P : List Text → Type κ) (os : List SurveyOption) (prev : Option Response)
    (allow : Text) where
  pick_keeps :
      ((picked : List Text) (id : Text) → P picked → P (pick_step os prev allow picked id))
      → (picked ids : List Text) → P picked
      → P (pick os prev allow picked ids)
  unfolding pick
  pick_keeps step picked [] h = h
  pick_keeps step picked (id ∷ ids) h =
      pick_keeps step (pick_step os prev allow picked id) ids (step picked id h)

  carry_keeps :
      (prior : List Text)
      → ((picked : List Text) (id : Text)
          → has id prior ≡ true
          → P picked
          → P (carry_step os prev allow picked id))
      → (picked ids : List Text) → ((id : Text) → has id ids ≡ true → has id prior ≡ true)
      → P picked
      → P (carry_forward os prev allow picked ids)
  unfolding carry_forward has
  carry_keeps prior step picked [] from h = h
  carry_keeps prior step picked (id ∷ ids) from h =
      carry_keeps prior step (carry_step os prev allow picked id) ids (λ j m. from j (ground arith))
        (step picked id (from id (ground arith)) h)

module _ (os : List SurveyOption) (prev : Option Response) (allow : Text) where
  pick_step-Within :
      (target : List Text)
      → ((id : Text) → on_ballot os prev allow id ≡ true → has id target ≡ true)
      → (picked : List Text) (id : Text) → Within picked target
      → Within (pick_step os prev allow picked id) target
  unfolding pick_step
  pick_step-Within target allowed picked id w j h =
      ground (arith, w j, allowed id, has-snoc j picked id)

  pick_step-Distinct :
      (picked : List Text) (id : Text)
      → Distinct picked
      → Distinct (pick_step os prev allow picked id)
  unfolding pick_step
  pick_step-Distinct picked id d =
      elim (Bool-cases (not (on_ballot os prev allow id) || has id picked)) [
        | inl skip ↦ rw skip d
        | inr take_it ↦ rw take_it (Distinct-snoc picked id d (ground arith))
      ]

  carry_step-Within :
      (target : List Text) (picked : List Text) (id : Text)
      → (off_ballot os prev allow id ≡ true → has id target ≡ true)
      → Within picked target
      → Within (carry_step os prev allow picked id) target
  unfolding carry_step
  carry_step-Within target picked id allowed w j h =
      ground (arith, w j, allowed, has-snoc j picked id)

  carry_step-Distinct :
      (picked : List Text) (id : Text)
      → Distinct picked
      → Distinct (carry_step os prev allow picked id)
  unfolding carry_step
  carry_step-Distinct picked id d =
      elim (Bool-cases (not (has id picked) && off_ballot os prev allow id)) [
        | inl keep ↦ rw keep (Distinct-snoc picked id d (ground arith))
        | inr skip ↦ rw skip d
      ]

has-in_order :
    (os : List SurveyOption) (shown : List Text) (id : Text)
    → has id (in_order os shown) ≡ (is_some (find_option id os) && has id shown)
unfolding has in_order find_option
has-in_order [] shown id = refl
has-in_order (o ∷ os) shown id = elim (text_discrete o.id id) [
  | yes e ↦ ground (arith, has-in_order os shown id)
  | no n ↦ ground (arith, has-in_order os shown id)
]

has-visible_ids :
    (os : List SurveyOption) (prev : Option Response) (allow id : Text)
    → on_ballot os prev allow id ≡ true
    → (has id (visible_ids os prev allow) ≡ true) × (is_some (find_option id os) ≡ true)
unfolding has visible_ids find_option on_ballot
has-visible_ids [] prev allow id h = absurd (ground arith)
has-visible_ids (o ∷ os) prev allow id h = elim (text_discrete o.id id) [
  | yes e ↦ (ground arith, ground arith)
  | no n ↦
      let (shown, there) = has-visible_ids os prev allow id (ground arith) in
      (ground arith, ground arith)
]

off_ballot-is_some :
    (os : List SurveyOption) (prev : Option Response) (allow id : Text)
    → off_ballot os prev allow id ≡ true
    → is_some (find_option id os) ≡ true
unfolding off_ballot
off_ballot-is_some os prev allow id h = ground arith

-- The seen set holds the ids of the survey's options that are visible now or were seen before.
pub has-seen_of :
    (sv : Survey) (prev : Option Response) (allow id : Text)
    → has id (seen_of sv prev allow) ≡ (
        is_some (find_option id sv.options)
        && (has id (visible_ids sv.options prev allow) || has id (prev_seen prev)))
unfolding seen_of
has-seen_of sv prev allow id = rw (has-in_order, has-append)

-- If a respondent's choices were all among the options they were shown, they still are after they
-- answer again, whatever they submit: no choice is recorded that was not on a ballot of theirs.
pub choices-Within-seen :
    (sv : Survey) (prev : Option Response) (allow : Text) (choices : List Text)
    → Within (prev_choices prev) (prev_seen prev)
    → Within (choices_of sv prev allow choices) (seen_of sv prev allow)
unfolding choices_of
choices-Within-seen sv prev allow choices before =
    carry_keeps (λ l. Within l shown) sv.options prev allow (prev_choices prev)
      (λ picked id had. carry_step-Within sv.options prev allow shown picked id (λ off. ground (
        arith,
        has-seen_of sv prev allow id,
        off_ballot-is_some sv.options prev allow id,
        before id,
      )))
      (pick sv.options prev allow [] choices) (prev_choices prev) (λ id h. h)
      (pick_keeps (λ l. Within l shown) sv.options prev allow
        (pick_step-Within sv.options prev allow shown (λ id on.
          ground (arith, has-seen_of sv prev allow id, has-visible_ids sv.options prev allow id)))
        [] choices (λ id h. absurd (nothing id h)))
  where
    shown : List Text
    shown = seen_of sv prev allow

    nothing : (id : Text) → ¬ (has id [] ≡ true)
    nothing id h = unfold has in ground arith

-- No id is recorded twice, so the primary key of `choices` is never violated.
pub choices-Distinct :
    (sv : Survey) (prev : Option Response) (allow : Text) (choices : List Text)
    → Distinct (choices_of sv prev allow choices)
unfolding choices_of
choices-Distinct sv prev allow choices =
    carry_keeps Distinct sv.options prev allow (prev_choices prev)
      (λ picked id _. carry_step-Distinct sv.options prev allow picked id)
      (pick sv.options prev allow [] choices) (prev_choices prev) (λ id h. h)
      (pick_keeps Distinct sv.options prev allow (pick_step-Distinct sv.options prev allow) []
        choices tt)

-- Once shown, always shown: where the previous seen set names options of the survey only, the
-- seen set of the next submission holds all of it.
pub prev_seen-Within :
    (sv : Survey) (prev : Option Response) (allow : Text)
    → ((id : Text) → has id (prev_seen prev) ≡ true → is_some (find_option id sv.options) ≡ true)
    → Within (prev_seen prev) (seen_of sv prev allow)
prev_seen-Within sv prev allow known id h = ground (arith, has-seen_of sv prev allow id, known id)

module _ (os : List SurveyOption) (prev : Option Response) (allow : Text) where
  has-pick :
      (picked ids : List Text) (id : Text)
      → has id (pick os prev allow picked ids)
        ≡ (has id picked || (has id ids && on_ballot os prev allow id))
  unfolding pick has
  has-pick picked [] id = ground arith
  has-pick picked (x ∷ ids) id = elim (text_discrete x id) [
    | yes e ↦
        rw (has-pick (pick_step os prev allow picked x) ids id, e)
          (unfold pick_step in ground (arith, has-snoc id picked id))
    | no n ↦
        rw (has-pick (pick_step os prev allow picked x) ids id)
          (unfold pick_step in ground (arith, has-snoc id picked x))
  ]

  has-carry_forward :
      (picked ids : List Text) (id : Text)
      → has id (carry_forward os prev allow picked ids)
        ≡ (has id picked || (has id ids && off_ballot os prev allow id))
  unfolding carry_forward has
  has-carry_forward picked [] id = ground arith
  has-carry_forward picked (x ∷ ids) id = elim (text_discrete x id) [
    | yes e ↦
        rw (has-carry_forward (carry_step os prev allow picked x) ids id, e)
          (unfold carry_step in ground (arith, has-snoc id picked id))
    | no n ↦
        rw (has-carry_forward (carry_step os prev allow picked x) ids id)
          (unfold carry_step in ground (arith, has-snoc id picked x))
  ]

-- Exactly which choices are recorded: those submitted that are on the respondent's ballot, and those
-- of the previous answer that are options of the survey but were not on it.
pub has-choices_of :
    (sv : Survey) (prev : Option Response) (allow : Text) (choices : List Text) (id : Text)
    → has id (choices_of sv prev allow choices) ≡ (
        (has id choices && on_ballot sv.options prev allow id)
        || (has id (prev_choices prev) && off_ballot sv.options prev allow id))
unfolding choices_of
has-choices_of sv prev allow choices id = rw (has-carry_forward, has-pick) (unfold has in refl)
