-- ===== src/Web/Routes/Kept.antt =====
-- The handlers of internal/web that leave alone what accounts may do.
use quicksurvey.Base.{inl, inr, ◌≡◌, Bool, arith, Sum-cases, Text}
use quicksurvey.Web.{Request, Reply, Server, Site, Chance}
use quicksurvey.Web.Sessions.{voter_id}
use quicksurvey.Web.Clients.{issue_token, voter_token, limit_allow}
use quicksurvey.Web.Gates.{Handler}
use quicksurvey.Web.Respondents.{
  handle_ballot, handle_vote, handle_write_in, handle_public_results, submit, cast_vote, suggest,
  visible_survey,
}
use quicksurvey.Survey.{Survey}

module _ (s : Server) where
  -- The accounts are not written.
  abbrev pub Leaves : Handler s → Type 0
  Leaves h =
      (site : Site s.rate) (req : Request) (chance : Chance)
      → (h site req chance).1.accounts ≡ site.accounts

  pub voter_token-accounts :
      (site : Site s.rate) (req : Request) (chance : Chance)
      → (voter_token s site req chance).site.accounts ≡ site.accounts
  unfolding voter_token issue_token limit_allow
  voter_token-accounts site req chance = ground arith

  pub handle_ballot-Leaves : (id : Text) → Leaves (handle_ballot s id)
  unfolding handle_ballot
  handle_ballot-Leaves id site req chance = ground (arith, voter_token-accounts site req chance)

  cast_vote-accounts :
      (site : Site s.rate) (req : Request) (chance : Chance) (sv : Survey) (preview : Bool)
      (voter : Text)
      → (cast_vote s site req chance sv preview voter).1.accounts ≡ site.accounts
  unfolding cast_vote
  cast_vote-accounts site req chance sv preview voter = ground arith

  suggest-accounts :
      (site : Site s.rate) (req : Request) (chance : Chance) (sv : Survey) (preview : Bool)
      (voter : Text)
      → (suggest s site req chance sv preview voter).1.accounts ≡ site.accounts
  unfolding suggest
  suggest-accounts site req chance sv preview voter = ground arith

  submit-Leaves :
      (act : Site s.rate → Request → Chance → Survey → Bool → Text → Reply × Site s.rate)
      → ((site : Site s.rate) (req : Request) (chance : Chance) (sv : Survey) (preview : Bool)
            (voter : Text)
          → (act site req chance sv preview voter).1.accounts ≡ site.accounts)
      → (id : Text) → Leaves (submit s act id)
  unfolding submit
  submit-Leaves act keeps id site req chance =
      elim (Sum-cases (visible_survey s site req chance id)) [
        | inl (refusal, e) ↦ ground (arith, e)
        | inr ((sv, preview), e) ↦
            let who = voter_token s site req chance in
            ground (
              arith,
              e,
              voter_token-accounts site req chance,
              keeps who.site req chance sv preview (voter_id s sv.id who.token),
            )
      ]

  pub handle_vote-Leaves : (id : Text) → Leaves (handle_vote s id)
  unfolding handle_vote
  handle_vote-Leaves id = submit-Leaves (cast_vote s) cast_vote-accounts id

  pub handle_write_in-Leaves : (id : Text) → Leaves (handle_write_in s id)
  unfolding handle_write_in
  handle_write_in-Leaves id = submit-Leaves (suggest s) suggest-accounts id

  pub handle_public_results-Leaves : (id : Text) → Leaves (handle_public_results s id)
  unfolding handle_public_results
  handle_public_results-Leaves id site req chance = ground arith
