-- ===== src/Web/Respondents.antt =====
-- The handlers of internal/web/public.go: the ballot, a vote, a suggestion and the public results.
--
-- `ParseForm` has been done and did not fail. `Tally` is `compute_tally`, which its cache stands for.
use quicksurvey.Base.{
  ℕ, ◌⊎◌, inl, inr, if◌then◌else◌, Bool, true, false, not, none, some, List, [], ◌∷◌, ◌++◌, Text,
  codes, is_empty, ok, err,
}
use quicksurvey.Survey.{Survey, is_draft, accepting_from, ballot_for}
use quicksurvey.Tables.{Tables, load_survey}
use quicksurvey.Response.Save.{save_response, preview_response, add_write_in}
use quicksurvey.Response.Reads.{prior_answer}
use quicksurvey.Tally.{compute_tally}
use quicksurvey.Accounts.{editor, at_least}
use quicksurvey.Web.{
  Request, Reply, Cookie, Server, Site, Chance, Page, BallotData, text, failure, fail, see_other,
  says, complains, reply_with, form_value, form_values,
}
use quicksurvey.Web.Sessions.{active_user, check_csrf, voter_id}
use quicksurvey.Web.Clients.{voter_token}
use quicksurvey.Web.Gates.{Handler, too_many}

abbrev pub survey_url : Text → Text
survey_url id = codes "/s/" ++ id

abbrev thanks : Text
thanks =
    codes "Thanks "
    ++ (0xE2 ∷ 0x80 ∷ 0x94 ∷ codes " your suggestion is waiting for a moderator to review it. ")
    ++ codes "Your vote for it is saved and will count once it is approved."

module _ (s : Server) where
  -- A refusal, or the survey and whether this is a preview.
  unfoldable pub visible_survey :
      Site s.rate → Request → Chance → (id : Text) → Reply ⊎ (Survey × Bool)
  visible_survey site req chance id = elim (load_survey site.tables id) [
    | none ↦ inl (fail 404 (text (codes "no such survey")))
    | some sv ↦
        if is_draft sv.state
        then elim (active_user s site.accounts chance.now req) [
          | none ↦ inl (fail 404 (text (codes "no such survey")))
          | some u ↦
              if at_least u.role editor
              then inr (sv, true)
              else inl (fail 404 (text (codes "no such survey")))
        ]
        else inr (sv, false)
  ]

  -- The page with what the respondent answered before, if anything.
  unfoldable pub ballot_data :
      Tables → Survey → (preview : Bool) → (voter : Text) → (now : ℕ) → BallotData
  ballot_data db sv preview voter now =
      let tally = compute_tally db sv.id in
      let blank : BallotData = record {
        survey = sv;
        options = ballot_for s.shuffle sv [] voter;
        selected = [];
        comment = [];
        responded = false;
        accepting = accepting_from sv now preview;
        preview = preview;
        results = if sv.show_results then tally.0 else [];
        voters = if sv.show_results then tally.1 else 0;
      } in
      elim (prior_answer db sv.id voter) [
        | none ↦ blank
        | some (choices, comment) ↦ record blank {
          options = ballot_for s.shuffle sv choices voter;
          selected = choices;
          comment = comment;
          responded = true;
        }
      ]

  abbrev pub with_cookies : List Cookie → Reply → Reply
  with_cookies cs r = record r { cookies = cs ++ r.cookies }

  unfoldable pub handle_ballot : (id : Text) → Handler s
  unfolding ballot_data
  handle_ballot id site req chance = elim (visible_survey site req chance id) [
    | inl refusal ↦ (refusal, site)
    | inr (sv, preview) ↦
        let who = voter_token s site req chance in
        let page = ballot_data site.tables sv preview (voter_id s sv.id who.token) chance.now in
        if is_empty who.token
        then (
          too_many
              (codes "Too many new visitors from your address at once. Wait a minute and reload."),
          who.site,
        )
        else (with_cookies who.cookies (reply_with 200 (Page.ballot page)), who.site)
  ]

  -- What a stored submission is answered with.
  abbrev pub recorded : Survey → (preview : Bool) → Reply
  recorded sv preview =
      if preview
      then says
          (codes "Recorded as a test response. It will be discarded when you publish the survey.")
          (see_other (survey_url sv.id))
      else says
          (codes "Your response has been recorded. You can change it any time from this page.")
          (see_other (survey_url sv.id))

  unfoldable pub cast_vote :
      Site s.rate
      → Request
      → Chance
      → Survey
      → (preview : Bool) → (voter : Text) → Reply × Site s.rate
  cast_vote site req chance sv preview voter =
      let choices = form_values req.form (codes "choice") in
      let comment = form_value req.form (codes "comment") in
      let saved =
        (if preview
          then preview_response site.tables sv.id voter choices comment (chance.id 0) chance.now
          else save_response site.tables sv.id voter choices comment (chance.id 0) chance.now) in
      elim saved [
        | err e ↦ (complains (failure e) (see_other (survey_url sv.id)), site)
        | ok r ↦ (recorded sv preview, record site { tables = r.1 })
      ]

  unfoldable pub suggest :
      Site s.rate
      → Request
      → Chance
      → Survey
      → (preview : Bool) → (voter : Text) → Reply × Site s.rate
  suggest site req chance sv preview voter =
      elim (add_write_in site.tables sv.id voter (form_value req.form (codes "text")) preview
        (chance.id 0) (chance.id 1) chance.now) [
          | err e ↦ (complains (failure e) (see_other (survey_url sv.id)), site)
          | ok r ↦ (says thanks (see_other (survey_url sv.id)), record site { tables = r.1 })
        ]

  -- The checks that a vote and a suggestion share, and then the one or the other.
  unfoldable pub submit :
      (Site s.rate → Request → Chance → Survey → Bool → Text → Reply × Site s.rate)
      → (id : Text) → Handler s
  submit act id site req chance = elim (visible_survey site req chance id) [
    | inl refusal ↦ (refusal, site)
    | inr (sv, preview) ↦
        if not (check_csrf s req)
        then (fail 403 (text (codes "your session expired; please reload and try again")), site)
        else let who = voter_token s site req chance in
          let (reply, next) = act who.site req chance sv preview (voter_id s sv.id who.token) in
          if is_empty who.token
          then (
            too_many (
                codes
                  "Too many new visitors from your address at once. Wait a minute and try again."),
            who.site,
          )
          else (with_cookies who.cookies reply, next)
  ]

  unfoldable pub handle_vote : (id : Text) → Handler s
  unfolding submit cast_vote
  handle_vote id = submit cast_vote id

  unfoldable pub handle_write_in : (id : Text) → Handler s
  unfolding submit suggest
  handle_write_in id = submit suggest id

  unfoldable pub handle_public_results : (id : Text) → Handler s
  handle_public_results id site req chance = elim (visible_survey site req chance id) [
    | inl refusal ↦ (refusal, site)
    | inr (sv, preview) ↦
        let tally = compute_tally site.tables sv.id in
        if not sv.show_results
        then (fail 404 (text (codes "results for this survey are not public")), site)
        else (
          reply_with 200 (
              Page.results (record {
                survey = sv;
                options = [];
                selected = [];
                comment = [];
                responded = false;
                accepting = false;
                preview = false;
                results = tally.0;
                voters = tally.1;
              })),
          site,
        )
  ]
