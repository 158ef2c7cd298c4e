-- ===== src/Web/Overview.antt =====
-- The survey pages and downloads of internal/web/admin.go, and `baseURL` of internal/web/server.go.
--
-- `MergeInto` and `Removed` list options in the survey's order. The name of a download is left out.
use quicksurvey.Base.{
  ℕ, ◌==◌, if◌then◌else◌, Bool, true, false, not, Option, none, some, List, [], ◌∷◌, ◌++◌, map,
  filter, length, take, drop, reverse, Text, codes, same, is_empty, trim_space, ok, err,
}
use quicksurvey.Survey.{
  Survey, OptionStatus, removed, rejected, is_approved, closed_by_clock, pending_options,
}
use quicksurvey.Tables.{Tables, load_survey}
use quicksurvey.Surveys.{surveys}
use quicksurvey.Response.Reads.{comments, count}
use quicksurvey.Tally.{responses, compute_tally}
use quicksurvey.Export.{response_rows, summary_rows}
use quicksurvey.Accounts.{User, editor, at_least}
use quicksurvey.Documents.{survey_document}
use quicksurvey.Web.{Request, Server, Page, SurveyRow, AdminSurveyData, text, fail, reply_with}
use quicksurvey.Web.Clients.{before_comma}
use quicksurvey.Web.Gates.{UserHandler}

-- strings.TrimRight at slashes, on the reversed text.
unfoldable pub drop_slashes : Text → Text
drop_slashes [] = []
drop_slashes (c ∷ cs) = let rest = drop_slashes cs in if c == b'/' then rest else c ∷ cs

-- strings.TrimSuffix, on the reversed texts.
abbrev pub drop_prefix : (prefix t : Text) → Text
drop_prefix prefix t = if same (take (length prefix) t) prefix then drop (length prefix) t else t

abbrev pub trim_suffix : (t suffix : Text) → Text
trim_suffix t suffix = reverse (drop_prefix (reverse suffix) (reverse t))

abbrev pub is_withdrawn : OptionStatus → Bool
is_withdrawn removed = true
is_withdrawn rejected = true
is_withdrawn _ = false

module _ (s : Server) where
  unfoldable pub origin : Request → Text
  unfolding drop_slashes
  origin req =
      let scheme = (if req.tls then codes "https" else codes "http") in
      let proto =
        (if is_empty req.forwarded_proto
          then scheme
          else trim_space (before_comma req.forwarded_proto)) in
      let host =
        (if is_empty req.forwarded_host
          then req.host
          else trim_space (before_comma req.forwarded_host)) in
      if not (is_empty s.base_url)
      then reverse (drop_slashes (reverse s.base_url))
      else proto ++ codes "://" ++ host

  unfoldable pub survey_row : Tables → Request → (now : ℕ) → Survey → SurveyRow
  unfolding origin
  survey_row db req now sv = record {
    survey = sv;
    responses = count db sv.id;
    pending = length (pending_options sv);
    url = origin req ++ codes "/s/" ++ s.path_escape sv.id;
    overdue = closed_by_clock sv now;
  }

  unfoldable pub handle_dashboard : UserHandler s
  unfolding survey_row
  handle_dashboard me site req chance = (
    reply_with 200
        (Page.dashboard (map (survey_row site.tables req chance.now) (surveys site.tables))),
    site,
  )

  unfoldable pub admin_survey_data : Tables → User → Request → (now : ℕ) → Survey → AdminSurveyData
  unfolding survey_row
  admin_survey_data db me req now sv =
      let tally = compute_tally db sv.id in
      record {
        row = survey_row db req now sv;
        results = tally.0;
        voters = tally.1;
        comments = comments db sv.id;
        pending = pending_options sv;
        merge_into = filter (λ o. is_approved o.status) sv.options;
        can_edit = at_least me.role editor;
        removed = filter (λ o. is_withdrawn o.status) sv.options;
      }

  -- `loadAdminSurvey`, with the page that is then rendered.
  unfoldable pub load_admin_survey : (AdminSurveyData → Page) → (id : Text) → UserHandler s
  unfolding admin_survey_data
  load_admin_survey page id me site req chance = elim (load_survey site.tables id) [
    | none ↦ (fail 404 (text (codes "no such survey")), site)
    | some sv ↦ (reply_with 200 (page (admin_survey_data site.tables me req chance.now sv)), site)
  ]

  unfoldable pub handle_admin_survey : (id : Text) → UserHandler s
  unfolding load_admin_survey
  handle_admin_survey id = load_admin_survey Page.admin_survey id

  unfoldable pub handle_edit_form : (id : Text) → UserHandler s
  unfolding load_admin_survey
  handle_edit_form id = load_admin_survey Page.edit id

  -- The rows that `handleExport` writes, where the kind is one that it knows.
  unfoldable pub export_rows : Tables → Survey → (kind : Text) → Option (List Text)
  export_rows db sv kind =
      let tally = compute_tally db sv.id in
      if same kind (codes "responses")
      then some (response_rows s.format_time s.print_nat sv (responses db sv.id))
      else if same kind (codes "summary")
      then some (summary_rows s.format_time s.print_nat s.print_ratio tally.0 tally.1)
      else none

  unfoldable pub handle_export : (id kind : Text) → UserHandler s
  unfolding export_rows
  handle_export id kind me site req chance = elim (load_survey site.tables id) [
    | none ↦ (fail 404 (text (codes "no such survey")), site)
    | some sv ↦ elim (export_rows site.tables sv (trim_suffix kind (codes ".tsv"))) [
      | none ↦ (fail 404 (text (codes "unknown export type")), site)
      | some rows ↦ (reply_with 200 (Page.tsv rows), site)
    ]
  ]

  -- Whether the kind asks for a full backup, where it is one that `handleSaveSurvey` knows.
  abbrev pub save_kind : Text → Option Bool
  save_kind kind =
      if same kind (codes "definition")
      then some false
      else if same kind (codes "full")
      then some true
      else none

  -- An error of `WriteSurveyDocument` is only logged.
  unfoldable pub handle_save_survey : (id kind : Text) → UserHandler s
  handle_save_survey id kind me site req chance = elim (load_survey site.tables id) [
    | none ↦ (fail 404 (text (codes "no such survey")), site)
    | some sv ↦ elim (save_kind (trim_suffix kind (codes ".json"))) [
      | none ↦ (fail 404 (text (codes "unknown save type")), site)
      | some full ↦ elim (survey_document site.tables sv.id full chance.now) [
        | err e ↦ (reply_with 200 Page.empty, site)
        | ok doc ↦ (reply_with 200 (Page.document doc), site)
      ]
    ]
  ]
