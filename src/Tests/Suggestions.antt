-- ===== src/Tests/Suggestions.antt =====
-- A respondent suggests an option to the server of Tests/Web.
use quicksurvey.Base.{◌⊎◌, ◌≡◌, refl, some, [], ◌∷◌, Text, codes, text_discrete}
use quicksurvey.Accounts.{editor}
use quicksurvey.Survey.{pending}
use quicksurvey.Tables.Authored.{decided_of}
use quicksurvey.Response.Authored.{Spared}
use quicksurvey.Web.{Request, write_in}
use quicksurvey.Web.Sessions.{voter_cookie, signed_token}
use quicksurvey.Web.Gates.Passed.{IsActive}
use quicksurvey.Web.Respondents.{submit, suggest, visible_survey, handle_write_in}
use quicksurvey.Web.Routes.{path_of, serve}
use quicksurvey.Web.Routes.Authoring.{serve-Spared}
use quicksurvey.Tests.Samples.{program}
use quicksurvey.Tests.Web.{web_program, digest, server, site, chance, promotes}

abbrev ticket : Text
ticket = signed_token server chance.token

abbrev suggests : Request
suggests = record promotes {
  route = write_in (codes "s1");
  path = codes "/s/s1/writein";
  form = (codes "csrf", digest (codes "csrf" ∷ ticket ∷ [])) ∷ (codes "text", codes "cocoa") ∷ [];
  cookies = (voter_cookie, ticket) ∷ [];
}

serve-Spared_example :
    Spared site.tables (serve server site suggests chance).1.tables
    ⊎ IsActive server editor site suggests 6
unfolding path_of decided_of text_discrete
serve-Spared_example =
    serve-Spared server site suggests chance (refl, (refl, (refl, (refl, tt)))) refl refl

suggested :
    decided_of (0 ∷ []) (serve server site suggests chance).1.tables.options
    ≡ some (record {
      survey_id = codes "s1";
      text = codes "cocoa";
      status = pending;
      merged_into = [];
    })
unfolding program web_program decided_of submit suggest visible_survey handle_write_in
suggested = refl
