-- ===== src/Export.antt =====
-- internal/export/tsv.go: survey results as tab-separated values.
--
-- `strings.Map` walks code points; those that it changes here are ASCII, so in UTF-8 text a walk over
-- the bytes is the same. Times, numbers and percentages are printed by Go's `Format`, `Sprint` and
-- `Sprintf`, which are parameters.
pub mod Cells
pub mod Columns
use quicksurvey.Base.{
  ℕ, suc, ◌+◌, ltb, ◌==◌, if◌then◌else◌, Bool, true, false, not, ◌&&◌, ◌||◌, Option, none, some,
  List, [], ◌∷◌, ◌++◌, map, filter, length, take, reverse, leb, is_empty, ◌≡◌, refl, Text, codes,
  same,
}
use quicksurvey.Survey.{
  SurveyOption, Survey, OptionStatus, approved, pending, rejected, removed, merged, is_approved,
  is_merged, find_option, resolve,
}
use quicksurvey.Response.{Response, has}
use quicksurvey.Tally.{TallyRow, Ratio}

-- '\t', '\n' and '\r' become blanks; other controls go. The bytes are those of valid UTF-8: strings.Map
-- would write each byte that is not as U+FFFD, which is no control either.
unfoldable pub cell : Text → Text
cell [] = []
cell (r ∷ rs) =
    let rest = cell rs in
    if r == 9 || r == 10 || r == 13
    then 32 ∷ rest
    else if ltb r 0x20 || r == 0x7f
    then rest
    else r ∷ rest

-- '=', '+', '-' and '@', which a spreadsheet takes for the start of a formula.
abbrev pub starts_formula : ℕ → Bool
starts_formula r = r == b'=' || r == b'+' || r == b'-' || r == b'@'

unfoldable pub guard_formula : Text → Text
guard_formula [] = []
guard_formula (r ∷ rs) = if starts_formula r then b'\'' ∷ r ∷ rs else r ∷ rs

unfoldable pub text_cell : Text → Text
unfolding guard_formula
text_cell s = guard_formula (cell s)

-- The fields with tabs between, and the newline at the end.
unfoldable pub fields : List Text → Text
fields [] = 10 ∷ []
fields (f ∷ []) = cell f ++ (10 ∷ [])
fields (f ∷ g ∷ fs) = cell f ++ (9 ∷ fields (g ∷ fs))

abbrev pub status_text : OptionStatus → Text
status_text approved = codes "approved"
status_text pending = codes "pending"
status_text rejected = codes "rejected"
status_text removed = codes "removed"
status_text merged = codes "merged"
status_text (OptionStatus.other s) = s

unfoldable pub header : SurveyOption → Text
header o =
    if is_approved o.status
    then text_cell o.text
    else text_cell (o.text ++ codes " [" ++ status_text o.status ++ codes "]")

-- `resolveMap`: where each merged option ends up.
unfoldable pub resolve_map : Survey → List SurveyOption → List (Text × Text)
resolve_map sv [] = []
resolve_map sv (o ∷ os) =
    let rest = resolve_map sv os in
    if is_merged o.status then (o.id, (resolve sv o.id).0) ∷ rest else rest

unfoldable pub resolve_via : List (Text × Text) → Text → Text
resolve_via [] id = id
resolve_via ((k, to) ∷ m) id = if same k id then to else resolve_via m id

-- The columns: every option that is not merged.
abbrev pub columns : Survey → List SurveyOption
columns sv = filter (λ o. not (is_merged o.status)) sv.options

-- The mark in one column, and whether it counts as a selection.
unfoldable pub column_mark : (chosen seen : List Text) → SurveyOption → Text
column_mark chosen seen o =
    if has o.id chosen then codes "1" else if has o.id seen then codes "0" else []

unfoldable pub selections : (chosen : List Text) → List SurveyOption → ℕ
selections chosen [] = 0
selections chosen (o ∷ os) =
    let rest = selections chosen os in if has o.id chosen then suc rest else rest

-- `Filename`: the runes kept, in lower case and with dashes, then each run of dashes as one.
unfoldable pub slug : Text → Text
slug [] = []
slug (r ∷ rs) =
    let rest = slug rs in
    if (leb b'a' r && leb r b'z') || (leb b'0' r && leb r b'9')
    then r ∷ rest
    else if leb b'A' r && leb r b'Z'
    then (r + 32) ∷ rest
    else if r == b' ' || r == b'-' || r == b'_'
    then b'-' ∷ rest
    else rest

unfoldable pub one_dash : Text → Text
one_dash [] = []
one_dash (r ∷ rs) = elim (one_dash rs) [
  | [] ↦ r ∷ []
  | c ∷ cs ↦ if r == b'-' && c == b'-' then c ∷ cs else r ∷ c ∷ cs
]

unfoldable pub drop_dashes : Text → Text
drop_dashes [] = []
drop_dashes (r ∷ rs) = let rest = drop_dashes rs in if r == b'-' then rest else r ∷ rs

-- strings.Trim at dashes.
abbrev pub trim_dashes : Text → Text
trim_dashes t = reverse (drop_dashes (reverse (drop_dashes t)))

-- `date` is the day as `Format` prints it.
unfoldable pub filename : Survey → (kind ext date : Text) → Text
unfolding slug one_dash drop_dashes
filename sv kind ext date =
    let title = trim_dashes (one_dash (slug sv.title)) in
    let name = if is_empty title then sv.id else title in
    let short = if ltb 60 (length name) then trim_dashes (take 60 name) else name in
    short ++ codes "-" ++ kind ++ codes "-" ++ date ++ codes "." ++ ext

slug_test : slug (codes "Tea & Biscuits") ≡ codes "tea--biscuits"
unfolding slug
slug_test = refl

module _ (format_time : ℕ → Text) (print_nat : ℕ → Text) where
  unfoldable pub record_of : Survey → Response → List Text
  unfolding column_mark selections
  record_of sv r =
      let m = resolve_map sv sv.options in
      let chosen = map (resolve_via m) r.choices in
      let seen = map (resolve_via m) r.seen in
      r.id
      ∷ format_time r.created
      ∷ format_time r.updated
      ∷ (map (column_mark chosen seen) (columns sv)
          ++ (print_nat (selections chosen (columns sv)) ∷ text_cell r.comment ∷ []))

  unfoldable pub head_of : Survey → List Text
  head_of sv =
      codes "response_id"
      ∷ codes "submitted"
      ∷ codes "updated"
      ∷ (map header (columns sv) ++ (codes "selections" ∷ codes "comment" ∷ []))

  -- `Responses`: the header row, and a row for each response.
  unfoldable pub response_rows : Survey → List Response → List Text
  unfolding record_of head_of
  response_rows sv rs = fields (head_of sv) ∷ map (λ r. fields (record_of sv r)) rs

  module _ (print_ratio : Ratio → Text) where
    unfoldable pub summary_row : ℕ → TallyRow → List Text
    summary_row respondents row =
        text_cell row.option.text
        ∷ print_nat row.votes
        ∷ print_nat respondents
        ∷ print_ratio row.percent
        ∷ print_nat row.shown
        ∷ (if ltb 0 row.shown then print_ratio row.shown_percent else [])
        ∷ []

    -- `Summary`: the header row, and a row for each row of the tally.
    unfoldable pub summary_rows : List TallyRow → ℕ → List Text
    unfolding summary_row
    summary_rows results respondents =
        fields (
          codes "option"
          ∷ codes "votes"
          ∷ codes "respondents"
          ∷ codes "percent_of_respondents"
          ∷ codes "shown_to"
          ∷ codes "percent_of_shown"
          ∷ [])
        ∷ map (λ r. fields (summary_row respondents r)) results
