-- ===== src/Web/Routes/Authored.antt =====
-- What the handlers for respondents in internal/web/public.go leave of what editors decided.
use quicksurvey.Base.{
  inl, inr, ◌≡◌, sym, subst, Bool, Bool-cases, Result-cases, Sum-cases, none, [], arith, Text,
  codes, is_empty,
}
use quicksurvey.Survey.{Survey}
use quicksurvey.Tables.{Tables}
use quicksurvey.Tables.Authored.{IsKeyed, decided_of}
use quicksurvey.Response.Authored.{
  Spared, Spared-refl, save_response_tx-Spared, add_write_in-Spared,
}
use quicksurvey.Response.Save.{save_response_tx, save_response, preview_response, add_write_in}
use quicksurvey.Web.{Request, Reply, Server, Site, Chance, form_value, form_values}
use quicksurvey.Web.Sessions.{check_csrf, voter_id}
use quicksurvey.Web.Clients.{voter_token}
use quicksurvey.Web.Respondents.{
  handle_vote, handle_write_in, submit, cast_vote, suggest, visible_survey,
}
use quicksurvey.Web.Routes.Tabled.{voter_token-tables}

module _ (s : Server) where
  pub of_tables :
      (site : Site s.rate) (r : Reply × Site s.rate) (db : Tables)
      → r.1.tables ≡ db
      → Spared site.tables db
      → Spared site.tables r.1.tables
  of_tables site r db e k = subst (Spared site.tables) (sym e) k

  pub unwritten :
      (site : Site s.rate) (r : Reply × Site s.rate)
      → r.1.tables ≡ site.tables
      → Spared site.tables r.1.tables
  unwritten site r e = of_tables site r site.tables e (Spared-refl site.tables)

  cast_vote-Spared :
      (site : Site s.rate) (req : Request) (chance : Chance) (sv : Survey) (preview : Bool)
      (voter : Text)
      → Spared site.tables (cast_vote s site req chance sv preview voter).1.tables
  unfolding cast_vote save_response preview_response
  cast_vote-Spared site req chance sv preview voter =
      let r = cast_vote s site req chance sv preview voter in
      let picked = form_values req.form (codes "choice") in
      let typed = form_value req.form (codes "comment") in
      elim (Result-cases (
        save_response_tx site.tables sv.id voter picked typed [] preview (chance.id 0)
          chance.now)) [
            | inr (x, e) ↦ unwritten site r (ground (arith, e))
            | inl (a, e) ↦ of_tables site r a.1 (ground (arith, e)) (
                save_response_tx-Spared site.tables sv.id voter picked typed [] preview
                  (chance.id 0) chance.now a e)
          ]

  suggest-Spared :
      (site : Site s.rate) (req : Request) (chance : Chance) (sv : Survey) (preview : Bool)
      (voter : Text)
      → IsKeyed site.tables.options
      → decided_of (chance.id 0) site.tables.options ≡ none
      → Spared site.tables (suggest s site req chance sv preview voter).1.tables
  unfolding suggest
  suggest-Spared site req chance sv preview voter keyed new =
      let typed = form_value req.form (codes "text") in
      let r = suggest s site req chance sv preview voter in
      elim (Result-cases (
        add_write_in site.tables sv.id voter typed preview (chance.id 0) (chance.id 1)
          chance.now)) [
            | inr (x, e) ↦ unwritten site r (ground (arith, e))
            | inl (a, e) ↦ of_tables site r a.1 (ground (arith, e)) (
                add_write_in-Spared site.tables sv.id voter typed preview (chance.id 0)
                  (chance.id 1) chance.now a keyed new e)
          ]

  submit-Spared :
      (act : Site s.rate → Request → Chance → Survey → Bool → Text → Reply × Site s.rate)
      (id : Text) (site : Site s.rate) (req : Request) (chance : Chance)
      → ((next : Site s.rate) (sv : Survey) (preview : Bool) (voter : Text)
          → next.tables ≡ site.tables
          → Spared next.tables (act next req chance sv preview voter).1.tables)
      → Spared site.tables (submit s act id site req chance).1.tables
  unfolding submit
  submit-Spared act id site req chance spares =
      let r = submit s act id site req chance in
      elim (Sum-cases (visible_survey s site req chance id)) [
        | inl (refusal, e) ↦ unwritten site r (ground (arith, e))
        | inr ((sv, preview), e) ↦
            let who = voter_token s site req chance in
            let same_tables = voter_token-tables s site req chance in
            elim (Bool-cases (check_csrf s req)) [
              | inr forged ↦ unwritten site r (ground (arith, e, forged))
              | inl genuine ↦ elim (Bool-cases (is_empty who.token)) [
                | inl limited ↦ unwritten site r (ground (arith, e, genuine, limited, same_tables))
                | inr known ↦
                    of_tables site r
                      (act who.site req chance sv preview (voter_id s sv.id who.token)).1.tables
                      (ground (arith, e, genuine, known))
                      (subst
                        (λ (db : Tables).
                          Spared db
                            (act who.site req chance sv preview
                              (voter_id s sv.id who.token)).1.tables)
                        same_tables
                        (spares who.site sv preview (voter_id s sv.id who.token) same_tables))
              ]
            ]
      ]

  pub handle_vote-Spared :
      (id : Text) (site : Site s.rate) (req : Request) (chance : Chance)
      → Spared site.tables (handle_vote s id site req chance).1.tables
  unfolding handle_vote
  handle_vote-Spared id site req chance =
      submit-Spared (cast_vote s) id site req chance
        (λ next sv preview voter same_tables. cast_vote-Spared next req chance sv preview voter)

  pub handle_write_in-Spared :
      (id : Text) (site : Site s.rate) (req : Request) (chance : Chance)
      → IsKeyed site.tables.options
      → decided_of (chance.id 0) site.tables.options ≡ none
      → Spared site.tables (handle_write_in s id site req chance).1.tables
  unfolding handle_write_in
  handle_write_in-Spared id site req chance keyed new =
      submit-Spared (suggest s) id site req chance (λ next sv preview voter same_tables.
        suggest-Spared next req chance sv preview voter
          (subst (λ (db : Tables). IsKeyed db.options) (sym same_tables) keyed)
          (subst (λ (db : Tables). decided_of (chance.id 0) db.options ≡ none) (sym same_tables)
            new))
